-- ===== src/Queue/Sessions/Totals.antt =====
-- The totals of a session's summary and its rows by model, through a merge.
use desktop_client.Base.{
  ℕ, ◌≡◌, refl, sym, ap, ◌∙◌, Bool, true, false, not, ◌&&◌, Str, lit, str_eq, Option, none, some,
  List, [], ◌∷◌, map, All, if_both,
}
use desktop_client.Base.Words.{add64}
use desktop_client.Api.{NormalizedEvent}
use desktop_client.Api.Endpoints.{SessionSummary}
use desktop_client.Filter.{FloatOps}
use desktop_client.Filter.Conservation.{
  TokenKind, input, output, cache_read, cache_create, event_tokens,
}
use desktop_client.Queue.Sessions.Models.{Models, key_of, keys, from_models}
use desktop_client.Queue.Sessions.Merge.{
  MergeLibrary, event_stamp, analytical_model, terminal_event, merge_session_times,
  merge_session_labels, merge_session_usage, note_error, merge_session_outcome, merge_session_event,
  merge_events, finish_session_models, set_session_updated_at, start_session, merge_session_events,
}
use desktop_client.Queue.Sessions.Usage.{
  sum_rows, sum_models, Distinct, IsKeyed, sum_sort, sum_update, Distinct-update, IsKeyed-update,
  Distinct-rows, from_models_rows,
}

module _ {F : Type 0} where
  abbrev pub summary_tokens : TokenKind → SessionSummary F → ℕ
  summary_tokens input s = s.input_tokens
  summary_tokens output s = s.output_tokens
  summary_tokens cache_read s = s.cache_read_tokens
  summary_tokens cache_create s = s.cache_create_tokens

  -- `n` and the tokens of the events, as int64 sums.
  abbrev pub plus_events : TokenKind → ℕ → List (NormalizedEvent F) → ℕ
  plus_events k n [] = n
  plus_events k n (ev ∷ events) = plus_events k (add64 n (event_tokens k ev)) events

  -- The totals are the sums of the rows, and each model has one row.
  abbrev pub IsBalanced : SessionSummary F → Type 0
  IsBalanced s =
      (summary_tokens input s ≡ sum_rows input s.models)
      × (summary_tokens output s ≡ sum_rows output s.models)
      × (summary_tokens cache_read s ≡ sum_rows cache_read s.models)
      × (summary_tokens cache_create s ≡ sum_rows cache_create s.models)
      × Distinct (map key_of s.models)

  -- A summary that is stored, or the empty one.
  abbrev pub IsStored : Bool → SessionSummary F → Type 0
  IsStored false s = IsBalanced s
  IsStored true s =
      (s.input_tokens ≡ 0)
      × (s.output_tokens ≡ 0)
      × (s.cache_read_tokens ≡ 0)
      × (s.cache_create_tokens ≡ 0)

  balanced_sum :
      (k : TokenKind) (s : SessionSummary F)
      → IsBalanced s
      → summary_tokens k s ≡ sum_rows k s.models
  balanced_sum input s (i, o, r, c, distinct) = i
  balanced_sum output s (i, o, r, c, distinct) = o
  balanced_sum cache_read s (i, o, r, c, distinct) = r
  balanced_sum cache_create s (i, o, r, c, distinct) = c

  abbrev started : Str → SessionSummary F → SessionSummary F
  started id s = record s {
    session_id = id;
    outcome = lit "running";
    models = [];
    model_breakdown_complete = true;
  }

  started_sum :
      (k : TokenKind) (id : Str) (s : SessionSummary F)
      → IsStored true s
      → summary_tokens k (started id s) ≡ 0
  started_sum input id s (i, o, r, c) = i
  started_sum output id s (i, o, r, c) = o
  started_sum cache_read id s (i, o, r, c) = r
  started_sum cache_create id s (i, o, r, c) = c

  started_tokens :
      (k : TokenKind) (id : Str) (s : SessionSummary F)
      → summary_tokens k (started id s) ≡ summary_tokens k s
  started_tokens input id s = refl
  started_tokens output id s = refl
  started_tokens cache_read id s = refl
  started_tokens cache_create id s = refl

module _ {F : Type 0} (lib : MergeLibrary) (fl : FloatOps F) (now : ℕ) where
  note_error_tokens :
      (k : TokenKind) (message : Option Str) (s : SessionSummary F)
      → summary_tokens k (note_error lib message s) ≡ summary_tokens k s
  note_error_tokens input none s = refl
  note_error_tokens output none s = refl
  note_error_tokens cache_read none s = refl
  note_error_tokens cache_create none s = refl
  note_error_tokens input (some e) s = refl
  note_error_tokens output (some e) s = refl
  note_error_tokens cache_read (some e) s = refl
  note_error_tokens cache_create (some e) s = refl

  ended_tokens :
      (k : TokenKind) (stamp : Str) (s : SessionSummary F)
      → summary_tokens k (record s { outcome = lit "succeeded"; ended_at = some stamp })
        ≡ summary_tokens k s
  ended_tokens input stamp s = refl
  ended_tokens output stamp s = refl
  ended_tokens cache_read stamp s = refl
  ended_tokens cache_create stamp s = refl

  outcome_tokens :
      (k : TokenKind) (ev : NormalizedEvent F) (stamp : Str) (s : SessionSummary F)
      → summary_tokens k (merge_session_outcome lib ev stamp s) ≡ summary_tokens k s
  unfolding merge_session_outcome
  outcome_tokens k ev stamp s =
      let s' = note_error lib ev.error_message s in
      if_both (λ (t : SessionSummary F). summary_tokens k t ≡ summary_tokens k s)
        (terminal_event lib ev.event_name && not (str_eq s'.outcome (lit "failed")))
        (ended_tokens k stamp s' ∙ note_error_tokens k ev.error_message s)
        (note_error_tokens k ev.error_message s)

  usage_tokens :
      (k : TokenKind) (ev : NormalizedEvent F) (stamp : Str) (s : SessionSummary F)
      → summary_tokens k (
          merge_session_usage lib fl ev
            (merge_session_labels lib ev (merge_session_times lib stamp s)))
        ≡ add64 (summary_tokens k s) (event_tokens k ev)
  unfolding merge_session_usage merge_session_labels merge_session_times
  usage_tokens input ev stamp s = refl
  usage_tokens output ev stamp s = refl
  usage_tokens cache_read ev stamp s = refl
  usage_tokens cache_create ev stamp s = refl

  event-tokens :
      (k : TokenKind) (ev : NormalizedEvent F) (s : SessionSummary F) (ms : Models)
      → summary_tokens k (merge_session_event lib fl now ev (s, ms)).0
        ≡ add64 (summary_tokens k s) (event_tokens k ev)
  unfolding merge_session_event
  event-tokens k ev s ms =
      let stamp = event_stamp lib now ev.timestamp in
      outcome_tokens k ev stamp (
        merge_session_usage lib fl ev
          (merge_session_labels lib ev (merge_session_times lib stamp s)))
      ∙ usage_tokens k ev stamp s

  -- The totals are the sums over the map, whose keys are different and are those of their rows.
  abbrev Sums : SessionSummary F × Models → Type 0
  Sums (s, ms) =
      ((k : TokenKind) → summary_tokens k s ≡ sum_models k ms) × Distinct (keys ms) × All IsKeyed ms

  event-Sums :
      (ev : NormalizedEvent F) (s : SessionSummary F) (ms : Models)
      → Sums (s, ms)
      → Sums (merge_session_event lib fl now ev (s, ms))
  unfolding merge_session_event
  event-Sums ev s ms (sums, distinct, keyed) =
      let model = analytical_model lib ev.model in
      (
        λ k.
            event-tokens k ev s ms
            ∙ ap (λ n. add64 n (event_tokens k ev)) (sums k)
            ∙ sym (sum_update k model ev ms),
        Distinct-update model ev ms distinct,
        IsKeyed-update model ev ms keyed,
      )

  events-Sums :
      (events : List (NormalizedEvent F)) (acc : SessionSummary F × Models)
      → Sums acc
      → Sums (merge_events lib fl now events acc)
  unfolding merge_events
  events-Sums [] acc h = h
  events-Sums (ev ∷ events) (s, ms) h =
      events-Sums events (merge_session_event lib fl now ev (s, ms)) (event-Sums ev s ms h)

  events-tokens :
      (k : TokenKind) (events : List (NormalizedEvent F)) (s : SessionSummary F) (ms : Models)
      → summary_tokens k (merge_events lib fl now events (s, ms)).0
        ≡ plus_events k (summary_tokens k s) events
  unfolding merge_events
  events-tokens k [] s ms = refl
  events-tokens k (ev ∷ events) s ms =
      let (s', ms') = merge_session_event lib fl now ev (s, ms) in
      events-tokens k events s' ms' ∙ ap (λ n. plus_events k n events) (event-tokens k ev s ms)

  finish_tokens :
      (k : TokenKind) (acc : SessionSummary F × Models)
      → summary_tokens k (set_session_updated_at lib now (finish_session_models lib acc))
        ≡ summary_tokens k acc.0
  unfolding set_session_updated_at finish_session_models
  finish_tokens input (s, ms) = refl
  finish_tokens output (s, ms) = refl
  finish_tokens cache_read (s, ms) = refl
  finish_tokens cache_create (s, ms) = refl

  finish-IsBalanced :
      (acc : SessionSummary F × Models)
      → Sums acc
      → IsBalanced (set_session_updated_at lib now (finish_session_models lib acc))
  unfolding set_session_updated_at finish_session_models
  finish-IsBalanced (s, ms) (sums, distinct, keyed) =
      let total = λ (k : TokenKind). sums k ∙ sym (sum_sort k ms) in
      (
        total input,
        total output,
        total cache_read,
        total cache_create,
        Distinct-rows ms keyed distinct,
      )

  fresh-Sums :
      (id : Str) (s : SessionSummary F) → IsStored true s → Sums (started id s, from_models [])
  unfolding from_models
  fresh-Sums id s h = (λ k. started_sum k id s h, tt, tt)

  stored-Sums : (s : SessionSummary F) → IsBalanced s → Sums (s, from_models s.models)
  stored-Sums s h =
      let (same, ks, keyed) = from_models_rows s.models h.4 in
      (λ k. balanced_sum k s h ∙ ap (sum_rows k) (sym same), rw ks h.4, keyed)

  start-Sums :
      (id : Str) (s : SessionSummary F) (fresh : Bool)
      → str_eq s.session_id [] ≡ fresh
      → IsStored fresh s
      → let s' = start_session lib id s in
        Sums (s', from_models s'.models)
        × ((k : TokenKind) → summary_tokens k s' ≡ summary_tokens k s)
  unfolding start_session
  start-Sums id s true e h = rw e (fresh-Sums id s h, λ k. started_tokens k id s)
  start-Sums id s false e h = rw e (stored-Sums s h, λ k. refl)

  -- A merge of events into the empty summary or a stored one, whose totals of each kind of tokens are the sums
  -- of its rows with one row for each model, gives such a summary; and each of its totals is the one of before
  -- and the tokens of the events, as int64 sums.
  pub merge_session_events-IsBalanced :
      (k : TokenKind) (id : Str) (events : List (NormalizedEvent F)) (s : SessionSummary F)
      → IsStored (str_eq s.session_id []) s
      → let s' = merge_session_events lib fl id events now s in
        IsBalanced s' × (summary_tokens k s' ≡ plus_events k (summary_tokens k s) events)
  unfolding merge_session_events
  merge_session_events-IsBalanced k id events s h =
      let s' = start_session lib id s in
      let ms = from_models s'.models in
      let merged = merge_events lib fl now events (s', ms) in
      let (sums, same) = start-Sums id s (str_eq s.session_id []) refl h in
      (
        finish-IsBalanced merged (events-Sums events (s', ms) sums),
        finish_tokens k merged
            ∙ events-tokens k events s' ms
            ∙ ap (λ n. plus_events k n events) (same k),
      )
