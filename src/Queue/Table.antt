-- ===== src/Queue/Table.antt =====
-- The rows that the tables `queue` and `metrics_queue` share (internal/queue/queue.go, metrics.go)
-- and the SQL statements that both run. A table is the list of its rows in the order of `id`, the
-- primary key. An instant is a number of nanoseconds: `timeLayout` is of fixed width so that the
-- order of its texts is the order of the instants.
pub mod Ops
pub mod Order
pub mod Leasing
pub mod LeaseLaws
pub mod Decoding
pub mod Eviction
pub mod EvictLoop
pub mod EvictIdle
pub mod Consistency
use desktop_client.Base.{
  ℕ, ◌+◌, max, Bool, true, false, not, Option, none, some, List, [], ◌∷◌, ◌++◌, map, ltb, ◌==◌,
  if◌then◌else◌, length, take, filter, elem,
}

pub data RowState : Type 0 where
  pending leased acked : RowState

-- `key` is the idempotency key: `event_id`, or `point_id`, which may be NULL.
pub record Row (K P : Type 0) : Type 0 where
  pub id : ℕ
  pub key : K
  pub payload : P
  pub created_at : ℕ
  pub attempts : ℕ
  pub state : RowState
  pub leased_until : Option ℕ
  pub acked_at : Option ℕ

abbrev pub is_acked_state : RowState → Bool
is_acked_state acked = true
is_acked_state _ = false

abbrev pub lease_expired : ℕ → Option ℕ → Bool
lease_expired now none = true
lease_expired now (some until) = ltb until now

abbrev pub leasable_state : ℕ → RowState → Option ℕ → Bool
leasable_state now pending until = true
leasable_state now leased until = lease_expired now until
leasable_state now acked until = false

abbrev pub prunable_state : ℕ → RowState → Option ℕ → Bool
prunable_state cutoff acked (some at) = ltb at cutoff
prunable_state cutoff _ _ = false

module _ {K P : Type 0} where
  abbrev pub is_acked : Row K P → Bool
  is_acked r = is_acked_state r.state

  -- state='pending' OR (state='leased' AND (leased_until IS NULL OR leased_until < ?))
  abbrev pub is_leasable : ℕ → Row K P → Bool
  is_leasable now r = leasable_state now r.state r.leased_until

  -- state='acked' AND acked_at IS NOT NULL AND acked_at < ?
  abbrev pub is_prunable : ℕ → Row K P → Bool
  is_prunable cutoff r = prunable_state cutoff r.state r.acked_at

  unfoldable pub max_id : List (Row K P) → ℕ
  max_id [] = 0
  max_id (r ∷ rows) = max r.id (max_id rows)

  -- The rowid that SQLite gives to the next row of an INTEGER PRIMARY KEY: the largest and one.
  unfoldable pub next_id : List (Row K P) → ℕ
  unfolding max_id
  next_id rows = max_id rows + 1

  abbrev pub new_row : List (Row K P) → K → P → ℕ → Row K P
  new_row rows key payload now = record {
    id = next_id rows;
    key = key;
    payload = payload;
    created_at = now;
    attempts = 0;
    state = pending;
    leased_until = none;
    acked_at = none;
  }

  -- INSERT INTO queue(event_id, payload, created_at) VALUES(?, ?, ?)
  unfoldable pub insert_row : List (Row K P) → K → P → ℕ → List (Row K P)
  insert_row rows key payload now = rows ++ new_row rows key payload now ∷ []

  -- SELECT ... WHERE leasable ORDER BY id ASC LIMIT ?
  unfoldable pub leasable_rows : ℕ → ℕ → List (Row K P) → List (Row K P)
  leasable_rows now n rows = take n (filter (is_leasable now) rows)

  -- UPDATE <table> SET <setClause> WHERE id IN (...)
  unfoldable pub update_by_ids : (Row K P → Row K P) → List ℕ → List (Row K P) → List (Row K P)
  update_by_ids set ids [] = []
  update_by_ids set ids (r ∷ rows) =
      (if elem r.id ids then set r else r) ∷ update_by_ids set ids rows

  -- The set clauses.
  abbrev pub set_leased : ℕ → Row K P → Row K P
  set_leased until r = record r { state = leased; leased_until = some until }

  abbrev pub set_acked : ℕ → Row K P → Row K P
  set_acked now r = record r { state = acked; acked_at = some now; leased_until = none }

  abbrev pub set_nacked : Row K P → Row K P
  set_nacked r = record r { state = pending; leased_until = none; attempts = r.attempts + 1 }

  -- DELETE FROM <table> WHERE state='acked' AND acked_at IS NOT NULL AND acked_at < ?
  unfoldable pub prune_rows : ℕ → List (Row K P) → List (Row K P)
  prune_rows cutoff = filter (λ r. not (is_prunable cutoff r))

  abbrev pub row_ids : List (Row K P) → List ℕ
  row_ids = map (λ r. r.id)

  -- SELECT id FROM <table> ORDER BY (state='acked') DESC, id ASC LIMIT ?
  unfoldable pub victims : ℕ → List (Row K P) → List ℕ
  victims n rows =
      take n (row_ids (filter is_acked rows) ++ row_ids (filter (λ r. not (is_acked r)) rows))

  -- DELETE FROM <table> WHERE id IN (...)
  unfoldable pub delete_ids : List ℕ → List (Row K P) → List (Row K P)
  delete_ids ids = filter (λ r. not (elem r.id ids))

  -- The row of an id.
  unfoldable pub get : ℕ → List (Row K P) → Option (Row K P)
  get i [] = none
  get i (r ∷ rows) = if r.id == i then some r else get i rows

  -- SELECT COUNT( * ) FROM <table> WHERE state != 'acked'
  unfoldable pub depth_rows : List (Row K P) → ℕ
  depth_rows rows = length (filter (λ r. not (is_acked r)) rows)
