-- ===== src/Queue/Sessions/Upsert.antt =====
-- UpsertSessionEvents (internal/queue/sessions.go): the events of a request are grouped by session, each group
-- is merged into its row in one transaction, and the rows above the cap of 10000 are deleted. The groups are
-- taken in the order of their first events, which Go leaves open.
use desktop_client.Base.{
  ℕ, ◌-◌, false, not, Str, str_eq, contains, Option, none, some, List, [], ◌∷◌, ◌++◌, map, filter,
  length, take, if◌then◌else◌,
}
use desktop_client.Base.Results.{Result, ok, err, ◌>>=◌, or_fail}
use desktop_client.Api.{NormalizedEvent}
use desktop_client.Api.Endpoints.{SessionSummary}
use desktop_client.Filter.{FloatOps}
use desktop_client.Queue.Table.{is_acked_state}
use desktop_client.Queue.Table.Ops.{Codec, Error, marshal_failed, unmarshal_failed}
use desktop_client.Queue.Sessions.{SessionRow, get_session, upsert_row, sort_by_update}
use desktop_client.Queue.Sessions.Merge.{MergeLibrary, merge_session_events}

abbrev pub max_session_rows : ℕ
max_session_rows = 10000

-- The codec of a row, and the second that a text of `updated_at` names.
pub record SessionCodec (F P : Type 0) : Type 0 where
  pub codec : Codec (SessionSummary F) P
  pub seconds : Str → ℕ

-- api.SessionSummary{}
abbrev pub empty_summary : {F : Type 0} → SessionSummary F
empty_summary = record {
  session_id = [];
  updated_at = [];
  started_at = [];
  last_activity_at = [];
  ended_at = none;
  title = none;
  summary = none;
  repo = none;
  workspace_label = none;
  model = none;
  models = [];
  model_breakdown_complete = false;
  source = none;
  outcome = [];
  stop_reason = none;
  duration_ms = none;
  input_tokens = 0;
  output_tokens = 0;
  cache_read_tokens = 0;
  cache_create_tokens = 0;
  cost_usd = none;
  tool_calls = 0;
  error_count = 0;
}

module _ {F : Type 0} (lib : MergeLibrary) where
  abbrev pub add_to_group :
      Str
      → NormalizedEvent F
      → List (Str × List (NormalizedEvent F))
      → List (Str × List (NormalizedEvent F))
  add_to_group id ev [] = (id, ev ∷ []) ∷ []
  add_to_group id ev ((key, events) ∷ rest) =
      let later = add_to_group id ev rest in
      if str_eq key id then (key, events ++ ev ∷ []) ∷ rest else (key, events) ∷ later

  abbrev pub group_event :
      Option Str
      → NormalizedEvent F
      → List (Str × List (NormalizedEvent F))
      → List (Str × List (NormalizedEvent F))
  group_event none ev groups = groups
  group_event (some id) ev groups =
      if str_eq (lib.trim_space id) [] then groups else add_to_group id ev groups

  unfoldable pub group_events :
      List (Str × List (NormalizedEvent F))
      → List (NormalizedEvent F)
      → List (Str × List (NormalizedEvent F))
  group_events groups [] = groups
  group_events groups (ev ∷ events) = group_events (group_event ev.session_id ev groups) events

module _ {P : Type 0} where
  -- The acked rows go first, and of either kind those updated longest ago.
  unfoldable pub cap_sessions : List (SessionRow P) → List (SessionRow P)
  cap_sessions rows =
      let acked_first =
        sort_by_update (filter (λ r. is_acked_state r.state) rows)
        ++ sort_by_update (filter (λ r. not (is_acked_state r.state)) rows) in
      let gone =
        map (λ (r : SessionRow P). r.session_id)
          (take (length rows - max_session_rows) acked_first) in
      filter (λ r. not (contains gone r.session_id)) rows

module _ {F P : Type 0} (lib : MergeLibrary) (fl : FloatOps F) (c : SessionCodec F P) where
  abbrev loaded : Option (SessionRow P) → Result Error (SessionSummary F)
  loaded none = ok empty_summary
  loaded (some r) = or_fail (c.codec.unmarshal r.payload) unmarshal_failed

  unfoldable pub load_session_summary : Str → List (SessionRow P) → Result Error (SessionSummary F)
  load_session_summary id rows = loaded (get_session id rows)

  abbrev pub store_summary :
      Str → ℕ → List (SessionRow P) → SessionSummary F → Result Error (List (SessionRow P))
  store_summary id now rows s = or_fail (c.codec.marshal s) marshal_failed >>= λ payload.
      ok (upsert_row id payload (c.seconds s.updated_at) now rows)

  unfoldable pub upsert_session_group :
      Str → List (NormalizedEvent F) → ℕ → List (SessionRow P) → Result Error (List (SessionRow P))
  unfolding load_session_summary
  upsert_session_group id events now rows = load_session_summary id rows >>= λ s.
      store_summary id now rows (merge_session_events lib fl id events now s)

  unfoldable pub upsert_groups :
      ℕ
      → List (Str × List (NormalizedEvent F))
      → List (SessionRow P)
      → Result Error (List (SessionRow P))
  unfolding upsert_session_group
  upsert_groups now [] rows = ok rows
  upsert_groups now ((id, events) ∷ groups) rows =
      upsert_session_group id events now rows >>= λ rows'. upsert_groups now groups rows'

  abbrev pub committed :
      List (SessionRow P) → Result Error (List (SessionRow P)) → List (SessionRow P) × Option Error
  committed rows (err e) = (rows, some e)
  committed rows (ok rows') = (cap_sessions rows', none)

  abbrev pub upsert_all :
      ℕ
      → List (SessionRow P)
      → List (Str × List (NormalizedEvent F))
      → List (SessionRow P) × Option Error
  upsert_all now rows [] = (rows, none)
  upsert_all now rows (g ∷ gs) = committed rows (upsert_groups now (g ∷ gs) rows)

  -- The rows, and an error if there was one: then nothing is changed.
  unfoldable pub upsert_session_events :
      List (NormalizedEvent F) → ℕ → List (SessionRow P) → List (SessionRow P) × Option Error
  unfolding group_events upsert_groups cap_sessions
  upsert_session_events events now rows = upsert_all now rows (group_events lib [] events)
