-- ===== src/Queue/History/Delivery.antt =====
-- Nothing is lost until it is acked: a row that is still to be delivered stays in the table through
-- every history without its ack and without an eviction.
use desktop_client.Base.{ℕ, ◌≤◌, ◌≡◌, refl, false, Str, Option, List, [], ◌∷◌, inl, inr, arith}
use desktop_client.Base.Results.{Result-cases}
use desktop_client.Queue.Table.{Row}
use desktop_client.Queue.Table.Ops.{Codec, insert_all, lease_rows}
use desktop_client.Queue.{
  Queue, FileSize, lease_batch, ack, nack, prune_acked, enqueue_metrics, lease_metrics_batch,
  ack_metrics, nack_metrics, prune_acked_metrics, evict_metrics_if_needed, as_point_id,
}
use desktop_client.Queue.History.{
  Call, enqueues, leases, acks, nacks, prunes, enqueues_metrics, leases_metrics, step, run,
}
use desktop_client.Queue.History.Invariant.{IsValid, step-IsValid}
use desktop_client.Queue.History.Keeping.{
  Holds, Holds-found, acks_id, NeverAcked, evicted-enqueue, enqueue-get, lease_batch-Holds,
  ack-Holds, nack-Holds, prune-Holds,
}

module _ {A B E M S : Type 0} (c : Codec A E) (d : Codec B M) (size : FileSize E M S) where
  -- The metrics calls leave the events table and the count of evictions alone.
  enqueue_metrics-rows :
      (mint : ℕ → Option Str) (now : ℕ) (points : List B) (q : Queue E M S)
      → let q' = (enqueue_metrics d size mint now points q).0 in
        (q'.rows ≡ q.rows) × (q'.evicted ≡ q.evicted)
  unfolding enqueue_metrics evict_metrics_if_needed
  enqueue_metrics-rows mint now [] q = (refl, refl)
  enqueue_metrics-rows mint now (b ∷ points) q =
      elim (Result-cases
        (insert_all d (λ i. as_point_id (mint i)) 0 now q.metric_rows (b ∷ points))) [
          | inl (e, failed) ↦ rw (failed, enqueue_metrics) (refl, refl)
          | inr (rows, done) ↦ rw (done, enqueue_metrics) (refl, refl)
        ]

  lease_metrics_batch-rows :
      (now n dur : ℕ) (q : Queue E M S)
      → let q' = (lease_metrics_batch d now n dur q).0 in
        (q'.rows ≡ q.rows) × (q'.evicted ≡ q.evicted)
  unfolding lease_metrics_batch
  lease_metrics_batch-rows now n dur q =
      elim (Result-cases (lease_rows d now n dur q.metric_rows)) [
        | inl (e, failed) ↦ rw (failed, lease_metrics_batch) (refl, refl)
        | inr ((items, rows), done) ↦ rw (done, lease_metrics_batch) (refl, refl)
      ]

  lease_batch-evicted :
      (now n dur : ℕ) (q : Queue E M S) → (lease_batch c now n dur q).0.evicted ≡ q.evicted
  unfolding lease_batch
  lease_batch-evicted now n dur q = elim (Result-cases (lease_rows c now n dur q.rows)) [
    | inl (e, failed) ↦ rw (failed, lease_batch)
    | inr ((items, rows), done) ↦ rw (done, lease_batch)
  ]

  step-evicted : (q : Queue E M S) (call : Call A B) → q.evicted ≤ (step c d size q call).evicted
  unfolding step ack nack prune_acked ack_metrics nack_metrics prune_acked_metrics
  step-evicted q (enqueues now mint events) = evicted-enqueue c size mint now events q
  step-evicted q (leases now n dur) = omega (arith, lease_batch-evicted now n dur q)
  step-evicted q (enqueues_metrics now mint points) =
      omega (arith, enqueue_metrics-rows mint now points q)
  step-evicted q (leases_metrics now n dur) = omega (arith, lease_metrics_batch-rows now n dur q)
  step-evicted q _ = omega arith

  run-evicted :
      (q : Queue E M S) (calls : List (Call A B)) → q.evicted ≤ (run c d size q calls).evicted
  unfolding run
  run-evicted q [] = omega arith
  run-evicted q (call ∷ calls) =
      omega (arith, step-evicted q call, run-evicted (step c d size q call) calls)

  Holds-same :
      (i : ℕ) (r : Row Str E) (xs ys : List (Row Str E)) → ys ≡ xs → Holds i r xs → Holds i r ys
  Holds-same i r xs ys e h = rw e h

  step-Holds :
      (q : Queue E M S) (call : Call A B) (i : ℕ) (r : Row Str E)
      → IsValid q
      → acks_id i call ≡ false
      → (step c d size q call).evicted ≡ q.evicted
      → Holds i r q.rows
      → Holds i r (step c d size q call).rows
  unfolding step ack_metrics nack_metrics prune_acked_metrics
  step-Holds q (enqueues now mint events) i r v out idle h =
      Holds-found i r q.rows _ h (enqueue-get c size mint now events q i h.row h.found idle)
  step-Holds q (leases now n dur) i r v out idle h = lease_batch-Holds c now n dur q i r v h
  step-Holds q (acks now ids) i r v out idle h = ack-Holds now ids q i r out h
  step-Holds q (nacks ids) i r v out idle h = nack-Holds ids q i r h
  step-Holds q (prunes cutoff) i r v out idle h = prune-Holds cutoff q i r v h
  step-Holds q (enqueues_metrics now mint points) i r v out idle h =
      Holds-same i r q.rows _ (enqueue_metrics-rows mint now points q).0 h
  step-Holds q (leases_metrics now n dur) i r v out idle h =
      Holds-same i r q.rows _ (lease_metrics_batch-rows now n dur q).0 h
  step-Holds q _ i r v out idle h = h

  -- Through every history of a valid queue in which no call acks the id `i` and nothing is evicted,
  -- the unacked row of `i` stays in the table, unacked, with its key and its payload, and its count of
  -- attempts does not fall.
  pub run-Holds :
      (q : Queue E M S) (calls : List (Call A B)) (i : ℕ) (r : Row Str E)
      → IsValid q
      → NeverAcked i calls
      → (run c d size q calls).evicted ≡ q.evicted
      → Holds i r q.rows
      → Holds i r (run c d size q calls).rows
  unfolding run
  run-Holds q [] i r v out idle h = h
  run-Holds q (call ∷ calls) i r v out idle h =
      let q' = step c d size q call in
      let still : q'.evicted ≡ q.evicted =
        omega (arith, step-evicted q call, run-evicted q' calls) in
      run-Holds q' calls i r (step-IsValid c d size q call v) out.1 (omega (arith, still))
        (step-Holds q call i r v out.0 still h)
