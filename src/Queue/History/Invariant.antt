-- ===== src/Queue/History/Invariant.antt =====
-- Every history keeps both tables valid.
use desktop_client.Base.{ℕ, Str, Option, List, [], ◌∷◌, inl, inr}
use desktop_client.Base.Results.{Result-cases}
use desktop_client.Queue.Table.Ops.{Codec, insert_all, lease_rows}
use desktop_client.Queue.Table.Consistency.{
  IsValidTable, insert_all-IsValid, lease_rows-IsValid, set_acked-IsValid, set_nacked-IsValid,
  prune_rows-IsValid, evict_rows-IsValid,
}
use desktop_client.Queue.{
  Queue, FileSize, enqueue, lease_batch, ack, nack, prune_acked, enqueue_metrics,
  lease_metrics_batch, ack_metrics, nack_metrics, prune_acked_metrics, evict_if_needed,
  evict_metrics_if_needed, as_point_id,
}
use desktop_client.Queue.History.{
  Call, enqueues, leases, acks, nacks, prunes, enqueues_metrics, leases_metrics, acks_metrics,
  nacks_metrics, prunes_metrics, step, run,
}

module _ {E M S : Type 0} where
  pub record IsValid (q : Queue E M S) : Type 0 where
    pub events : IsValidTable q.rows
    pub metrics : IsValidTable q.metric_rows

module _ {A B E M S : Type 0} (c : Codec A E) (d : Codec B M) (size : FileSize E M S) where
  evict-IsValid : (q : Queue E M S) → IsValid q → IsValid (evict_if_needed size q)
  unfolding evict_if_needed
  evict-IsValid q v = record {
    events =
        evict_rows-IsValid (λ rows. size rows q.metric_rows q.sessions) q.max_rows q.max_bytes
          q.rows v.events;
    metrics = v.metrics;
  }

  evict_metrics-IsValid : (q : Queue E M S) → IsValid q → IsValid (evict_metrics_if_needed size q)
  unfolding evict_metrics_if_needed
  evict_metrics-IsValid q v = record {
    events = v.events;
    metrics =
        evict_rows-IsValid (λ rows. size q.rows rows q.sessions) q.max_rows q.max_bytes
          q.metric_rows v.metrics;
  }

  enqueue-IsValid :
      (mint : ℕ → Option Str) (now : ℕ) (events : List A) (q : Queue E M S)
      → IsValid q
      → IsValid (enqueue c size mint now events q).0
  unfolding enqueue
  enqueue-IsValid mint now [] q v = v
  enqueue-IsValid mint now (a ∷ events) q v =
      elim (Result-cases (insert_all c mint 0 now q.rows (a ∷ events))) [
        | inl (e, failed) ↦ rw (failed, enqueue) v
        | inr (rows, done) ↦
            rw (done, enqueue)
              (evict-IsValid (record q { rows = rows })
                (record {
                  events = insert_all-IsValid c mint 0 now q.rows rows (a ∷ events) v.events done;
                  metrics = v.metrics;
                }))
      ]

  enqueue_metrics-IsValid :
      (mint : ℕ → Option Str) (now : ℕ) (points : List B) (q : Queue E M S)
      → IsValid q
      → IsValid (enqueue_metrics d size mint now points q).0
  unfolding enqueue_metrics
  enqueue_metrics-IsValid mint now [] q v = v
  enqueue_metrics-IsValid mint now (b ∷ points) q v =
      elim (Result-cases
        (insert_all d (λ i. as_point_id (mint i)) 0 now q.metric_rows (b ∷ points))) [
          | inl (e, failed) ↦ rw (failed, enqueue_metrics) v
          | inr (rows, done) ↦
              rw (done, enqueue_metrics)
                (evict_metrics-IsValid (record q { metric_rows = rows })
                  (record {
                    events = v.events;
                    metrics =
                        insert_all-IsValid d _ 0 now q.metric_rows rows (b ∷ points) v.metrics done;
                  }))
        ]

  lease_batch-IsValid :
      (now n dur : ℕ) (q : Queue E M S) → IsValid q → IsValid (lease_batch c now n dur q).0
  unfolding lease_batch
  lease_batch-IsValid now n dur q v = elim (Result-cases (lease_rows c now n dur q.rows)) [
    | inl (e, failed) ↦ rw (failed, lease_batch) v
    | inr ((items, rows), done) ↦
        rw (done, lease_batch)
          (record {
            events = lease_rows-IsValid c now n dur q.rows rows items v.events done;
            metrics = v.metrics;
          })
  ]

  lease_metrics_batch-IsValid :
      (now n dur : ℕ) (q : Queue E M S) → IsValid q → IsValid (lease_metrics_batch d now n dur q).0
  unfolding lease_metrics_batch
  lease_metrics_batch-IsValid now n dur q v =
      elim (Result-cases (lease_rows d now n dur q.metric_rows)) [
        | inl (e, failed) ↦ rw (failed, lease_metrics_batch) v
        | inr ((items, rows), done) ↦
            rw (done, lease_metrics_batch)
              (record {
                events = v.events;
                metrics = lease_rows-IsValid d now n dur q.metric_rows rows items v.metrics done;
              })
      ]

  pub step-IsValid :
      (q : Queue E M S) (call : Call A B) → IsValid q → IsValid (step c d size q call)
  unfolding step ack nack prune_acked ack_metrics nack_metrics prune_acked_metrics
  step-IsValid q (enqueues now mint events) v = enqueue-IsValid mint now events q v
  step-IsValid q (leases now n dur) v = lease_batch-IsValid now n dur q v
  step-IsValid q (acks now ids) v = record {
    events = set_acked-IsValid now ids q.rows v.events;
    metrics = v.metrics;
  }
  step-IsValid q (nacks ids) v = record {
    events = set_nacked-IsValid ids q.rows v.events;
    metrics = v.metrics;
  }
  step-IsValid q (prunes cutoff) v = record {
    events = prune_rows-IsValid cutoff q.rows v.events;
    metrics = v.metrics;
  }
  step-IsValid q (enqueues_metrics now mint points) v = enqueue_metrics-IsValid mint now points q v
  step-IsValid q (leases_metrics now n dur) v = lease_metrics_batch-IsValid now n dur q v
  step-IsValid q (acks_metrics now ids) v = record {
    events = v.events;
    metrics = set_acked-IsValid now ids q.metric_rows v.metrics;
  }
  step-IsValid q (nacks_metrics ids) v = record {
    events = v.events;
    metrics = set_nacked-IsValid ids q.metric_rows v.metrics;
  }
  step-IsValid q (prunes_metrics cutoff) v = record {
    events = v.events;
    metrics = prune_rows-IsValid cutoff q.metric_rows v.metrics;
  }

  -- From a valid queue, whatever calls are made, in whatever order, both tables have rising ids, and
  -- in each row the columns `leased_until` and `acked_at` fit its state.
  pub run-IsValid :
      (q : Queue E M S) (calls : List (Call A B)) → IsValid q → IsValid (run c d size q calls)
  unfolding run
  run-IsValid q [] v = v
  run-IsValid q (call ∷ calls) v = run-IsValid (step c d size q call) calls (step-IsValid q call v)
