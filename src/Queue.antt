-- ===== src/Queue.antt =====
-- internal/queue/queue.go and metrics.go: the durable upload queue and its operations. The table
-- `sessions_queue` is a value that the operations here leave alone. A call returns the new queue and
-- its results. `size` is what `PRAGMA page_count` times `PRAGMA page_size` answers.
pub mod Table
pub mod History
pub mod Enqueue
pub mod Lease
pub mod Retention
pub mod Sessions
use desktop_client.Base.{
  ℕ, ◌+◌, ◌-◌, ◌*◌, Str, Option, none, some, List, [], ◌∷◌, if◌then◌else◌, ◌==◌, length, filter,
  Bool, true, false,
}
use desktop_client.Base.Results.{Result, ok, err}
use Table.{
  RowState, pending, leased, acked, Row, update_by_ids, set_acked, set_nacked, prune_rows,
  depth_rows,
}
use Table.Ops.{Codec, Error, Item, insert_all, lease_rows, evict_rows}

pub record Queue (E M S : Type 0) : Type 0 where
  pub max_rows : ℕ
  pub max_bytes : ℕ
  pub rows : List (Row Str E)
  pub metric_rows : List (Row (Option Str) M)
  pub sessions : S
  pub evicted : ℕ

-- The size of the database file, by the three tables in it.
abbrev pub FileSize : Type 0 → Type 0 → Type 0 → Type 0
FileSize E M S = List (Row Str E) → List (Row (Option Str) M) → S → ℕ

abbrev pub default_max_rows : ℕ
default_max_rows = 50000

abbrev pub default_max_bytes : ℕ
default_max_bytes = 100 * 1024 * 1024

abbrev cap_or_default : ℕ → ℕ → ℕ
cap_or_default cap default = if cap == 0 then default else cap

module _ {E M S : Type 0} where
  -- Open on a database that holds the given rows. A negative cap is read as 0.
  unfoldable pub open_queue : ℕ → ℕ → List (Row Str E) → List (Row (Option Str) M) → S → Queue E M S
  open_queue max_rows max_bytes rows metric_rows sessions = record {
    max_rows = cap_or_default max_rows default_max_rows;
    max_bytes = cap_or_default max_bytes default_max_bytes;
    rows = rows;
    metric_rows = metric_rows;
    sessions = sessions;
    evicted = 0;
  }

  unfoldable pub evict_if_needed : FileSize E M S → Queue E M S → Queue E M S
  evict_if_needed size q =
      let (left, deleted) =
        evict_rows (λ rows. size rows q.metric_rows q.sessions) q.max_rows q.max_bytes q.rows in
      record q { rows = left; evicted = q.evicted + deleted }

  -- The rounds on the metrics table are not counted.
  unfoldable pub evict_metrics_if_needed : FileSize E M S → Queue E M S → Queue E M S
  evict_metrics_if_needed size q =
      let (left, deleted) =
        evict_rows (λ rows. size q.rows rows q.sessions) q.max_rows q.max_bytes q.metric_rows in
      record q { metric_rows = left }

module _ {A E M S : Type 0} (c : Codec A E) where
  abbrev commit_events :
      FileSize E M S → Queue E M S → Result Error (List (Row Str E)) → Queue E M S × Option Error
  commit_events size q (err e) = (q, some e)
  commit_events size q (ok rows) = (evict_if_needed size (record q { rows = rows }), none)

  -- An error rolls the transaction back.
  unfoldable pub enqueue :
      FileSize E M S → (ℕ → Option Str) → ℕ → List A → Queue E M S → Queue E M S × Option Error
  enqueue size mint now [] q = (q, none)
  enqueue size mint now events q = commit_events size q (insert_all c mint 0 now q.rows events)

  abbrev leased_events :
      Queue E M S
      → Result Error (List (Item Str A) × List (Row Str E))
      → Queue E M S × Result Error (List (Item Str A))
  leased_events q (err e) = (q, err e)
  leased_events q (ok (items, rows)) = (record q { rows = rows }, ok items)

  unfoldable pub lease_batch :
      ℕ → ℕ → ℕ → Queue E M S → Queue E M S × Result Error (List (Item Str A))
  lease_batch now n dur q = leased_events q (lease_rows c now n dur q.rows)

-- A key that is minted is never NULL.
abbrev pub as_point_id : Option Str → Option (Option Str)
as_point_id none = none
as_point_id (some k) = some (some k)

module _ {A E M S : Type 0} (c : Codec A M) where
  abbrev commit_metrics :
      FileSize E M S
      → Queue E M S
      → Result Error (List (Row (Option Str) M))
      → Queue E M S × Option Error
  commit_metrics size q (err e) = (q, some e)
  commit_metrics size q (ok rows) =
      (evict_metrics_if_needed size (record q { metric_rows = rows }), none)

  unfoldable pub enqueue_metrics :
      FileSize E M S → (ℕ → Option Str) → ℕ → List A → Queue E M S → Queue E M S × Option Error
  enqueue_metrics size mint now [] q = (q, none)
  enqueue_metrics size mint now points q =
      commit_metrics size q (insert_all c (λ i. as_point_id (mint i)) 0 now q.metric_rows points)

  abbrev leased_metrics :
      Queue E M S
      → Result Error (List (Item (Option Str) A) × List (Row (Option Str) M))
      → Queue E M S × Result Error (List (Item (Option Str) A))
  leased_metrics q (err e) = (q, err e)
  leased_metrics q (ok (items, rows)) = (record q { metric_rows = rows }, ok items)

  unfoldable pub lease_metrics_batch :
      ℕ → ℕ → ℕ → Queue E M S → Queue E M S × Result Error (List (Item (Option Str) A))
  lease_metrics_batch now n dur q = leased_metrics q (lease_rows c now n dur q.metric_rows)

module _ {E M S : Type 0} where
  -- An empty list of ids returns at once, which is what the update does with it.
  unfoldable pub ack : ℕ → List ℕ → Queue E M S → Queue E M S
  ack now ids q = record q { rows = update_by_ids (set_acked now) ids q.rows }

  unfoldable pub nack : List ℕ → Queue E M S → Queue E M S
  nack ids q = record q { rows = update_by_ids set_nacked ids q.rows }

  unfoldable pub ack_metrics : ℕ → List ℕ → Queue E M S → Queue E M S
  ack_metrics now ids q = record q { metric_rows = update_by_ids (set_acked now) ids q.metric_rows }

  unfoldable pub nack_metrics : List ℕ → Queue E M S → Queue E M S
  nack_metrics ids q = record q { metric_rows = update_by_ids set_nacked ids q.metric_rows }

  unfoldable pub prune_acked : ℕ → Queue E M S → Queue E M S × ℕ
  prune_acked cutoff q =
      let left = prune_rows cutoff q.rows in (record q { rows = left }, length q.rows - length left)

  unfoldable pub prune_acked_metrics : ℕ → Queue E M S → Queue E M S × ℕ
  prune_acked_metrics cutoff q =
      let left = prune_rows cutoff q.metric_rows in
      (record q { metric_rows = left }, length q.metric_rows - length left)

  unfoldable pub depth : Queue E M S → ℕ
  unfolding depth_rows
  depth q = depth_rows q.rows

abbrev in_state : RowState → RowState → Bool
in_state pending pending = true
in_state leased leased = true
in_state acked acked = true
in_state _ _ = false

pub record Stats : Type 0 where
  pub pending_rows : ℕ
  pub leased_rows : ℕ
  pub acked_rows : ℕ
  pub evicted_rows : ℕ

abbrev pub count_state : {E : Type 0} → RowState → List (Row Str E) → ℕ
count_state s rows = length (filter (λ r. in_state s r.state) rows)

module _ {E M S : Type 0} where
  -- SELECT state, COUNT( * ) FROM queue GROUP BY state
  unfoldable pub stats : Queue E M S → Stats
  stats q = record {
    pending_rows = count_state pending q.rows;
    leased_rows = count_state leased q.rows;
    acked_rows = count_state acked q.rows;
    evicted_rows = q.evicted;
  }
