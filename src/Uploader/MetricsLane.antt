-- ===== src/Uploader/MetricsLane.antt =====
-- FlushMetricsOnce on the queue: it ends, and what a drained table promises.
use desktop_client.Base.{ℕ, ◌*◌, ◌+◌, ◌<◌, ◌≡◌, sym, ◌∙◌, Str, List, [], ◌∷◌, arith, All, filter}
use desktop_client.Api.{batch_size}
use desktop_client.Queue.Table.{is_leasable, set_leased, depth_rows}
use desktop_client.Queue.Table.Ops.{Codec, Item, item_ids}
use desktop_client.Queue.Table.LeaseLaws.{lease_rows-eq-ok}
use desktop_client.Queue.Table.Leasing.{update_by_ids-nil}
use desktop_client.Queue.{Queue}
use desktop_client.Uploader.State.{Uploader, lease_duration}
use desktop_client.Uploader.Flush.{Round, Lane}
use desktop_client.Uploader.Draining.{Progresses, EmptyAt, Ends, flush_lane-Ends, batch_size-pos}
use desktop_client.Base.{Option}
use desktop_client.Base.Results.{ok}
use desktop_client.Api.{MetricPoint, second}
use desktop_client.Queue.Table.Ops.{lease_rows}
use desktop_client.Queue.{ack_metrics, nack_metrics, lease_metrics_batch}
use desktop_client.Uploader.Flush.{metrics_lane, flush_metrics_once, wire_point, on_metrics_success}
use desktop_client.Uploader.Waiting.{leased-lt, no_rows, none_leasable-Resting, Resting}

module _ {F E M S : Type 0} (c : Codec (MetricPoint F) M) where
  lease_metrics_batch-inv :
      (now n dur : ℕ) (q q' : Queue E M S) (items : List (Item (Option Str) (MetricPoint F)))
      → lease_metrics_batch c now n dur q ≡ (q', ok items)
      → lease_rows c now n dur q.metric_rows ≡ ok (items, q'.metric_rows)
  unfolding lease_metrics_batch
  lease_metrics_batch-inv now n dur q q' items h = ground arith

  abbrev lane : Lane (Queue E M S) (Item (Option Str) (MetricPoint F)) (MetricPoint F)
  lane = metrics_lane c

  metrics-Progresses : Progresses lane
  unfolding metrics_lane ack_metrics
  metrics-Progresses now later n q q' i is h =
      let done = lease_metrics_batch-inv now n lease_duration q q' (i ∷ is) h in
      let (ids, rows) =
        lease_rows-eq-ok c now n lease_duration q.metric_rows q'.metric_rows (i ∷ is) done in
      rw rows (leased-lt now later (now + lease_duration) n i.id (item_ids is) q.metric_rows ids)

  abbrev pub NoMetricLeasable : ℕ → Queue E M S → Type 0
  NoMetricLeasable now q = All (Resting now) q.metric_rows

  metrics-EmptyAt : (n : ℕ) → 0 < n → EmptyAt lane NoMetricLeasable n
  unfolding metrics_lane
  metrics-EmptyAt n pos now q q' h =
      let done = lease_metrics_batch-inv now n lease_duration q q' [] h in
      let (ids, rows) =
        lease_rows-eq-ok c now n lease_duration q.metric_rows q'.metric_rows [] done in
      let same : q'.metric_rows ≡ q.metric_rows =
        rows ∙ update_by_ids-nil (set_leased (now + lease_duration)) q.metric_rows in
      let rests : All (Resting now) q'.metric_rows = rw same (
        none_leasable-Resting now q.metric_rows
          (no_rows n (filter (is_leasable now) q.metric_rows) pos (sym ids))) in
      rests

  -- The calls of the queue that a flush of metrics makes.
  abbrev pub metrics_calls : Lane (Queue E M S) (Item (Option Str) (MetricPoint F)) (MetricPoint F)
  metrics_calls = record {
    lease = λ now n q. lease_metrics_batch c now n (120 * second) q;
    ack_items = λ now items q. ack_metrics now (item_ids items) q;
    nack_items = λ items q. nack_metrics (item_ids items) q;
    wire = wire_point;
    on_upload = on_metrics_success;
    waiting = λ q. depth_rows q.metric_rows;
  }

  -- FlushMetricsOnce ends, whatever the backend and the clock do, after a number of rounds that each leased a batch and
  -- acked it. Drained: one more lease, at the time of the last round, handed out nothing, no row of the table was
  -- leasable at that time, and the backoff is 0. Stopped: the batch of the last round was nacked. Failed: the
  -- last lease did. Skipped: the queue is as it was.
  pub flush_metrics_once-Ends :
      (rounds : ℕ → Round (MetricPoint F)) (u : Uploader) (q : Queue E M S)
      → Ends metrics_calls NoMetricLeasable rounds
          (batch_size u.policy)
          q
          (flush_metrics_once c rounds u q)
  unfolding flush_metrics_once metrics_lane
  flush_metrics_once-Ends rounds u q =
      flush_lane-Ends lane metrics-Progresses NoMetricLeasable rounds u q
        (metrics-EmptyAt (batch_size u.policy) (batch_size-pos u.policy))
