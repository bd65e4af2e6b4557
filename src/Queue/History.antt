-- ===== src/Queue/History.antt =====
-- Histories of the queue: the calls that change it, in any order, each with the time and the keys
-- that it meets. The calls run one at a time, under the queue's mutex.
pub mod Invariant
pub mod Keeping
pub mod Delivery
use desktop_client.Base.{ℕ, Str, Option, List, [], ◌∷◌}
use desktop_client.Queue.Table.Ops.{Codec}
use desktop_client.Queue.{
  Queue, FileSize, enqueue, lease_batch, ack, nack, prune_acked, enqueue_metrics,
  lease_metrics_batch, ack_metrics, nack_metrics, prune_acked_metrics,
}

pub data Call (A B : Type 0) : Type 0 where
  enqueues : ℕ → (ℕ → Option Str) → List A → Call A B
  leases : ℕ → ℕ → ℕ → Call A B
  acks : ℕ → List ℕ → Call A B
  nacks : List ℕ → Call A B
  prunes : ℕ → Call A B
  enqueues_metrics : ℕ → (ℕ → Option Str) → List B → Call A B
  leases_metrics : ℕ → ℕ → ℕ → Call A B
  acks_metrics : ℕ → List ℕ → Call A B
  nacks_metrics : List ℕ → Call A B
  prunes_metrics : ℕ → Call A B

module _ {A B E M S : Type 0} (c : Codec A E) (d : Codec B M) (size : FileSize E M S) where
  unfoldable pub step : Queue E M S → Call A B → Queue E M S
  step q (enqueues now mint events) = (enqueue c size mint now events q).0
  step q (leases now n dur) = (lease_batch c now n dur q).0
  step q (acks now ids) = ack now ids q
  step q (nacks ids) = nack ids q
  step q (prunes cutoff) = (prune_acked cutoff q).0
  step q (enqueues_metrics now mint points) = (enqueue_metrics d size mint now points q).0
  step q (leases_metrics now n dur) = (lease_metrics_batch d now n dur q).0
  step q (acks_metrics now ids) = ack_metrics now ids q
  step q (nacks_metrics ids) = nack_metrics ids q
  step q (prunes_metrics cutoff) = (prune_acked_metrics cutoff q).0

  unfoldable pub run : Queue E M S → List (Call A B) → Queue E M S
  run q [] = q
  run q (call ∷ calls) = run (step q call) calls
