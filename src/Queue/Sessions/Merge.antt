-- ===== src/Queue/Sessions/Merge.antt =====
-- mergeSessionEvents (internal/queue/sessions.go): how the events of a session change its summary.

use desktop_client.Base.{
  ℕ, ◌+◌, ◌-◌, ◌%◌, Bool, true, false, not, ◌&&◌, ◌||◌, Str, lit, str_eq, has_prefix, contains_text,
  Option, none, some, List, [], ◌∷◌, ltb, ◌==◌, if◌then◌else◌,
}
use desktop_client.Base.Words.{add64, deref}
use desktop_client.Api.{NormalizedEvent, second}
use desktop_client.Api.Endpoints.{SessionSummary}
use desktop_client.Filter.{FloatOps}
use desktop_client.Queue.Sessions.Models.{
  str_less, Models, from_models, update_model, sort_models, rows_of, only_model,
}

-- strings and time: `stamp_of` reads a timestamp and formats it to the second in UTC, and `parse` and
-- `format` are those of an instant.
pub record MergeLibrary : Type 0 where
  pub trim_space : Str → Str
  pub lower : Str → Str
  pub equal_fold : Str → Str → Bool
  pub stamp_of : Str → Option Str
  pub parse : Str → Option ℕ
  pub format : ℕ → Str

-- strings.SplitN with a point, the first part
unfoldable pub family : Str → Str
family [] = []
family (c ∷ s) = let rest = family s in if c == 46 then [] else c ∷ rest

abbrev pub tool_call : Option Str → ℕ
tool_call none = 0
tool_call (some name) = 1

abbrev pub after_prior : ℕ → Option ℕ → ℕ
after_prior updated none = updated
after_prior updated (some prior) = if ltb prior updated then updated else prior + second

module _ (lib : MergeLibrary) where
  abbrev pub or_now : Str → Option Str → Str
  or_now now none = now
  or_now now (some stamp) = stamp

  unfoldable pub event_stamp : ℕ → Option Str → Str
  event_stamp now none = lib.format now
  event_stamp now (some raw) = or_now (lib.format now) (lib.stamp_of raw)

  abbrev pub kept_model : Str → Option Str
  kept_model s =
      if str_eq s []
        || lib.equal_fold s (lit "mixed")
        || has_prefix (lib.lower s) (lit "mixed:")
        || has_prefix s (lit "/")
        || has_prefix s (lit "~")
        || contains_text s (92 ∷ [])
      then none
      else some s

  unfoldable pub analytical_model : Option Str → Option Str
  analytical_model none = none
  analytical_model (some v) = kept_model (lib.trim_space v)

  unfoldable pub sanitize_label : Str → Str
  sanitize_label v =
      let s = lib.trim_space v in
      if contains_text s (lit "/") || contains_text s (92 ∷ []) then [] else s

  abbrev pub text_or_none : Str → Option Str
  text_or_none [] = none
  text_or_none (c ∷ s) = some (c ∷ s)

  abbrev pub add_cost : {F : Type 0} → FloatOps F → Option F → Option F → Option F
  add_cost fl cost none = cost
  add_cost fl none (some x) = some (fl.add fl.zero x)
  add_cost fl (some c) (some x) = some (fl.add c x)

  unfoldable pub terminal_event : Option Str → Bool
  terminal_event none = false
  terminal_event (some v) =
      let s = lib.lower v in
      contains_text s (lit "session.end")
      || contains_text s (lit "session_end")
      || contains_text s (lit "conversation.end")
      || contains_text s (lit "conversation_end")

  abbrev pub merged_repo : Option Str → Option Str → Option Str
  merged_repo (some repo) event_repo = some repo
  merged_repo none none = none
  merged_repo none (some repo) = text_or_none (sanitize_label repo)

  abbrev pub merged_source : Option Str → Option Str → Option Str
  merged_source (some source) event_name = some source
  merged_source none none = none
  merged_source none (some event_name) = text_or_none (family event_name)

  module _ {F : Type 0} where
    unfoldable pub merge_session_times : Str → SessionSummary F → SessionSummary F
    unfolding str_less
    merge_session_times stamp s = record s {
      started_at =
          if str_eq s.started_at [] || str_less stamp s.started_at then stamp else s.started_at;
      last_activity_at = if str_less s.last_activity_at stamp then stamp else s.last_activity_at;
    }

    unfoldable pub merge_session_labels : NormalizedEvent F → SessionSummary F → SessionSummary F
    unfolding sanitize_label family
    merge_session_labels ev s = record s {
      repo = merged_repo s.repo ev.repo;
      source = merged_source s.source ev.event_name;
    }

    -- The part of mergeSessionUsage on the summary; the other is `update_model`.
    unfoldable pub merge_session_usage :
        FloatOps F → NormalizedEvent F → SessionSummary F → SessionSummary F
    merge_session_usage fl ev s = record s {
      input_tokens = add64 s.input_tokens (deref ev.input_tokens);
      output_tokens = add64 s.output_tokens (deref ev.output_tokens);
      cache_read_tokens = add64 s.cache_read_tokens (deref ev.cache_read_tokens);
      cache_create_tokens = add64 s.cache_create_tokens (deref ev.cache_create_tokens);
      cost_usd = add_cost fl s.cost_usd ev.cost_usd;
      tool_calls = add64 s.tool_calls (tool_call ev.tool_name);
    }

    abbrev pub note_error : Option Str → SessionSummary F → SessionSummary F
    note_error none s = s
    note_error (some message) s = record s {
      error_count = add64 s.error_count 1;
      outcome = lit "failed";
    }

    unfoldable pub merge_session_outcome :
        NormalizedEvent F → Str → SessionSummary F → SessionSummary F
    unfolding terminal_event
    merge_session_outcome ev stamp s =
        let s' = note_error ev.error_message s in
        if terminal_event ev.event_name && not (str_eq s'.outcome (lit "failed"))
        then record s' { outcome = lit "succeeded"; ended_at = some stamp }
        else s'

    unfoldable pub merge_session_event :
        FloatOps F → ℕ → NormalizedEvent F → SessionSummary F × Models → SessionSummary F × Models
    unfolding merge_session_times merge_session_labels merge_session_usage merge_session_outcome
        event_stamp analytical_model update_model
    merge_session_event fl now ev (s, models) =
        let stamp = event_stamp now ev.timestamp in
        let s1 = merge_session_labels ev (merge_session_times stamp s) in
        (
          merge_session_outcome ev stamp (merge_session_usage fl ev s1),
          update_model (analytical_model ev.model) ev models,
        )

    unfoldable pub merge_events :
        FloatOps F
        → ℕ
        → List (NormalizedEvent F)
        → SessionSummary F × Models
        → SessionSummary F × Models
    unfolding merge_session_event
    merge_events fl now [] acc = acc
    merge_events fl now (ev ∷ events) acc =
        merge_events fl now events (merge_session_event fl now ev acc)

    unfoldable pub finish_session_models : SessionSummary F × Models → SessionSummary F
    unfolding sort_models
    finish_session_models (s, models) =
        let rows = rows_of (sort_models models) in
        record s { models = rows; model = only_model rows }

    unfoldable pub set_session_updated_at : ℕ → SessionSummary F → SessionSummary F
    set_session_updated_at now s = record s {
      updated_at = lib.format (after_prior (now - now % second) (lib.parse s.updated_at));
    }

    unfoldable pub start_session : Str → SessionSummary F → SessionSummary F
    start_session id s =
        if str_eq s.session_id []
        then record s {
          session_id = id;
          outcome = lit "running";
          models = [];
          model_breakdown_complete = true;
        }
        else s

    unfoldable pub merge_session_events :
        FloatOps F → Str → List (NormalizedEvent F) → ℕ → SessionSummary F → SessionSummary F
    unfolding start_session from_models merge_events finish_session_models set_session_updated_at
    merge_session_events fl id events now s =
        let s' = start_session id s in
        set_session_updated_at now
          (finish_session_models (merge_events fl now events (s', from_models s'.models)))
