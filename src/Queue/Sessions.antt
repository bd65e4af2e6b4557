-- ===== src/Queue/Sessions.antt =====
-- The table `sessions_queue` and its statements (internal/queue/sessions.go): one row for each session,
-- with a revision that every upsert raises. The upsert statement here takes the
-- merged summary; Merge and Upsert have the code that makes it. `updated_at` counts seconds, in whose order its texts of fixed width are; rows with the
-- same time stay in the order of the table, which SQL leaves open.
pub mod Models
pub mod Merge
pub mod Upsert
pub mod Usage
pub mod Totals
pub mod Outlives
pub mod Oldest
pub mod Capped
pub mod Unsent
pub mod History
use desktop_client.Base.{
  ℕ, zero, suc, ◌+◌, ◌-◌, min, Bool, true, false, not, ◌&&◌, Str, str_eq, Option, none, some, List,
  [], ◌∷◌, map, ltb, ◌==◌, if◌then◌else◌, length, take, filter,
}
use desktop_client.Base.Results.{Result, ok, err, ◌>>=◌, or_fail}
use desktop_client.Queue.Table.{RowState, pending, leased, acked, leasable_state, prunable_state}
use desktop_client.Queue.Table.Ops.{Codec, Error, unmarshal_failed}

pub record SessionRow (P : Type 0) : Type 0 where
  pub session_id : Str
  pub revision : ℕ
  pub payload : P
  pub updated_at : ℕ
  pub created_at : ℕ
  pub attempts : ℕ
  pub state : RowState
  pub leased_until : Option ℕ
  pub acked_at : Option ℕ

pub record SessionLease : Type 0 where
  pub session_id : Str
  pub revision : ℕ

pub record SessionItem (A : Type 0) : Type 0 where
  pub lease : SessionLease
  pub summary : A
  pub attempts : ℕ

abbrev pub max_lease : ℕ
max_lease = 500

module _ {P : Type 0} where
  -- ON CONFLICT(session_id) DO UPDATE SET ...
  abbrev pub revised : P → ℕ → SessionRow P → SessionRow P
  revised payload updated r = record r {
    revision = r.revision + 1;
    payload = payload;
    updated_at = updated;
    state = pending;
    leased_until = none;
    acked_at = none;
  }

  abbrev pub first_revision : Str → P → ℕ → ℕ → SessionRow P
  first_revision id payload updated now = record {
    session_id = id;
    revision = 1;
    payload = payload;
    updated_at = updated;
    created_at = now;
    attempts = 0;
    state = pending;
    leased_until = none;
    acked_at = none;
  }

  unfoldable pub upsert_row : Str → P → ℕ → ℕ → List (SessionRow P) → List (SessionRow P)
  upsert_row id payload updated now [] = first_revision id payload updated now ∷ []
  upsert_row id payload updated now (r ∷ rows) =
      if str_eq r.session_id id
      then revised payload updated r ∷ rows
      else r ∷ upsert_row id payload updated now rows

  abbrev pub session_leasable : ℕ → SessionRow P → Bool
  session_leasable now r = leasable_state now r.state r.leased_until

  -- ORDER BY updated_at ASC
  unfoldable pub insert_by_update : SessionRow P → List (SessionRow P) → List (SessionRow P)
  insert_by_update r [] = r ∷ []
  insert_by_update r (s ∷ rows) =
      if ltb s.updated_at r.updated_at then s ∷ insert_by_update r rows else r ∷ s ∷ rows

  unfoldable pub sort_by_update : List (SessionRow P) → List (SessionRow P)
  unfolding insert_by_update
  sort_by_update [] = []
  sort_by_update (r ∷ rows) = insert_by_update r (sort_by_update rows)

  unfoldable pub leasable_sessions : ℕ → ℕ → List (SessionRow P) → List (SessionRow P)
  unfolding sort_by_update
  leasable_sessions now n rows = take n (sort_by_update (filter (session_leasable now) rows))

  abbrev pub has_key : SessionLease → SessionRow P → Bool
  has_key key r = str_eq r.session_id key.session_id && r.revision == key.revision

  -- UPDATE sessions_queue SET ... WHERE session_id=? AND revision=?
  unfoldable pub update_by_key :
      (SessionRow P → SessionRow P) → SessionLease → List (SessionRow P) → List (SessionRow P)
  update_by_key set key = map (λ r. if has_key key r then set r else r)

  -- The loops of leaseSessionItems and finishSessions.
  unfoldable pub update_by_keys :
      (SessionRow P → SessionRow P) → List SessionLease → List (SessionRow P) → List (SessionRow P)
  unfolding update_by_key
  update_by_keys set [] rows = rows
  update_by_keys set (key ∷ keys) rows = update_by_keys set keys (update_by_key set key rows)

  abbrev pub session_leased : ℕ → SessionRow P → SessionRow P
  session_leased until r = record r { state = leased; leased_until = some until }

  abbrev pub session_acked : ℕ → SessionRow P → SessionRow P
  session_acked now r = record r { state = acked; acked_at = some now; leased_until = none }

  abbrev pub session_nacked : SessionRow P → SessionRow P
  session_nacked r = record r { state = pending; attempts = r.attempts + 1; leased_until = none }

  unfoldable pub ack_sessions : ℕ → List SessionLease → List (SessionRow P) → List (SessionRow P)
  unfolding update_by_keys
  ack_sessions now = update_by_keys (session_acked now)

  unfoldable pub nack_sessions : List SessionLease → List (SessionRow P) → List (SessionRow P)
  unfolding update_by_keys
  nack_sessions = update_by_keys session_nacked

  -- DELETE FROM sessions_queue WHERE state='acked' AND acked_at < ?
  unfoldable pub prune_acked_sessions : ℕ → List (SessionRow P) → List (SessionRow P) × ℕ
  prune_acked_sessions cutoff rows =
      let left = filter (λ r. not (prunable_state cutoff r.state r.acked_at)) rows in
      (left, length rows - length left)

  -- The row of a session.
  unfoldable pub get_session : Str → List (SessionRow P) → Option (SessionRow P)
  get_session id [] = none
  get_session id (r ∷ rows) = if str_eq r.session_id id then some r else get_session id rows

module _ {A P : Type 0} (c : Codec A P) where
  -- The loop over the selected rows: the first one that cannot be decoded ends it with an error.
  unfoldable pub scan_session_items : List (SessionRow P) → Result Error (List (SessionItem A))
  scan_session_items [] = ok []
  scan_session_items (r ∷ rows) = do
    summary ← or_fail (c.unmarshal r.payload) unmarshal_failed
    items ← scan_session_items rows
    ok (
        record {
          lease = record { session_id = r.session_id; revision = r.revision };
          summary = summary;
          attempts = r.attempts;
        }
        ∷ items)

  -- A negative `n` is read as 0, and a large one as the largest batch.
  unfoldable pub lease_sessions_batch :
      ℕ → ℕ → ℕ → List (SessionRow P) → Result Error (List (SessionItem A) × List (SessionRow P))
  unfolding scan_session_items leasable_sessions update_by_keys
  lease_sessions_batch now n dur rows = do
    items ← scan_session_items (leasable_sessions now (min n max_lease) rows)
    ok (items, update_by_keys (session_leased (now + dur)) (map (λ i. i.lease) items) rows)
