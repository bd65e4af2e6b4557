-- ===== src/Uploader/Flush.antt =====
-- FlushOnce and FlushMetricsOnce with their sends (uploader.go), and the guards of SendEvents and
-- SendMetrics (internal/api/client.go). The two loops differ in their lane: the table and the calls.
use desktop_client.Base.{
  ℕ, zero, suc, ◌+◌, ◌/◌, Bool, true, false, Str, Option, none, some, List, [], map, length, ltb,
  if◌then◌else◌,
}
use desktop_client.Base.Results.{Result, ok, err}
use desktop_client.Api.{NormalizedEvent, MetricPoint, batch_size, max_ingest_batch, second}
use desktop_client.Counters
use desktop_client.Counters.{Registry}
use desktop_client.Queue.Table.Ops.{Codec, Error, Item, item_ids}
use desktop_client.Queue.{
  Queue, lease_batch, ack, nack, depth, lease_metrics_batch, ack_metrics, nack_metrics,
}
use desktop_client.Queue.Table.{depth_rows}
use desktop_client.Uploader.State.{active, degraded, Env, Uploader, lease_duration}
use desktop_client.Uploader.Auth.{handle_auth_error}
use desktop_client.Uploader.Backoff.{on_flush_success, widen_backoff}

pub record Counts : Type 0 where
  pub accepted_count : ℕ
  pub dropped_count : ℕ

-- A send answers the backend's tally, an AuthError by its code, or another error.
pub data SendAnswer : Type 0 where
  accepted : Counts → SendAnswer
  rejected : Str → SendAnswer
  failed : SendAnswer

-- What one pass of a loop meets: the environment, and the backend's answer to a posted batch.
pub record Round (T : Type 0) : Type 0 where
  pub env : Env
  pub post : List T → SendAnswer

pub data Outcome : Type 0 where
  drained stopped lease_failed skipped out_of_fuel : Outcome

-- `waiting` is how many rows are not acked.
pub record Lane (Q I T : Type 0) : Type 0 where
  pub lease : ℕ → ℕ → Q → Q × Result Error (List I)
  pub ack_items : ℕ → List I → Q → Q
  pub nack_items : List I → Q → Q
  pub wire : I → T
  pub on_upload : Env → Counts → Uploader → Uploader
  pub waiting : Q → ℕ

-- A batch above the limit is refused before it is posted.
unfoldable pub send_capped : {T : Type 0} → (List T → SendAnswer) → List T → SendAnswer
send_capped post items = if ltb max_ingest_batch (length items) then failed else post items

abbrev pub count_upload_error : Uploader → Uploader
count_upload_error u = record u { counters = Counters.add Counters.upload_errors 1 u.counters }

-- handleSendError, for an error that is no AuthError
unfoldable pub defer_send : Uploader → Uploader
unfolding widen_backoff
defer_send u = widen_backoff (count_upload_error u)

module _ {Q I T : Type 0} (lane : Lane Q I T) where
  -- The uploader and the queue afterwards, and whether the loop goes on.
  unfoldable pub send_batch : Round T → List I → Uploader → Q → Uploader × Q × Bool
  unfolding handle_auth_error defer_send send_capped
  send_batch round items u q = elim (send_capped round.post (map lane.wire items)) [
    | accepted counts ↦
        (lane.on_upload round.env counts u, lane.ack_items round.env.now items q, true)
    | rejected code ↦ (handle_auth_error round.env code u, lane.nack_items items q, false)
    | failed ↦ (defer_send u, lane.nack_items items q, false)
  ]

  abbrev pub after_send :
      (Uploader → Q → Uploader × Q × Outcome) → Uploader × Q × Bool → Uploader × Q × Outcome
  after_send rest (u, q, true) = rest u q
  after_send rest (u, q, false) = (u, q, stopped)

  abbrev pub after_lease :
      Round T
      → Uploader
      → (Uploader → Q → Uploader × Q × Outcome)
      → Q × Result Error (List I)
      → Uploader × Q × Outcome
  after_lease round u rest (q, err e) = (count_upload_error u, q, lease_failed)
  after_lease round u rest (q, ok []) = (on_flush_success u, q, drained)
  after_lease round u rest (q, ok items) = after_send rest (send_batch round items u q)

  -- The loop, with the rounds from the i-th on.
  unfoldable pub flush_loop : (ℕ → Round T) → ℕ → ℕ → ℕ → Uploader → Q → Uploader × Q × Outcome
  unfolding send_batch on_flush_success
  flush_loop rounds n zero i u q = (u, q, out_of_fuel)
  flush_loop rounds n (suc fuel) i u q =
      after_lease (rounds i) u (flush_loop rounds n fuel (i + 1))
        (lane.lease (rounds i).env.now n q)

  -- Each round that goes on acks a row, so that the rows that wait, and one, are rounds enough.
  unfoldable pub flush_lane : (ℕ → Round T) → Uploader → Q → Uploader × Q × Outcome
  unfolding flush_loop batch_size
  flush_lane rounds u q = elim u.mode [
    | degraded ↦ (u, q, skipped)
    | active ↦ flush_loop rounds (batch_size u.policy) (lane.waiting q + 1) 0 u q
  ]

abbrev stamp_upload : Env → Uploader → Uploader
stamp_upload env u = record u {
  counters = Counters.set Counters.last_upload_at (env.now / second) u.counters;
}

-- onUploadSuccess
unfoldable pub on_upload_success : Env → Counts → Uploader → Uploader
on_upload_success env counts u = stamp_upload env (record u {
  counters =
      Counters.add Counters.upload_dropped counts.dropped_count
        (Counters.add Counters.uploaded counts.accepted_count u.counters);
})

unfoldable pub on_metrics_success : Env → Counts → Uploader → Uploader
on_metrics_success env counts u = stamp_upload env (record u {
  counters = Counters.add Counters.metrics_uploaded counts.accepted_count u.counters;
})

module _ {F : Type 0} where
  -- split: the queue's key is the event's id.
  unfoldable pub wire_event : Item Str (NormalizedEvent F) → NormalizedEvent F
  wire_event i = record i.event { event_id = some i.key }

  abbrev with_point_id : Option Str → MetricPoint F → MetricPoint F
  with_point_id none p = p
  with_point_id (some []) p = p
  with_point_id (some id) p = record p { point_id = some id }

  -- splitMetrics: a row without a key is sent as it is.
  unfoldable pub wire_point : Item (Option Str) (MetricPoint F) → MetricPoint F
  wire_point i = with_point_id i.key i.event

module _ {F E M S : Type 0} where
  unfoldable pub events_lane :
      Codec (NormalizedEvent F) E
      → Lane (Queue E M S) (Item Str (NormalizedEvent F)) (NormalizedEvent F)
  events_lane c = record {
    lease = λ now n. lease_batch c now n lease_duration;
    ack_items = λ now items. ack now (item_ids items);
    nack_items = λ items. nack (item_ids items);
    wire = wire_event;
    on_upload = on_upload_success;
    waiting = depth;
  }

  unfoldable pub metrics_lane :
      Codec (MetricPoint F) M
      → Lane (Queue E M S) (Item (Option Str) (MetricPoint F)) (MetricPoint F)
  metrics_lane c = record {
    lease = λ now n. lease_metrics_batch c now n lease_duration;
    ack_items = λ now items. ack_metrics now (item_ids items);
    nack_items = λ items. nack_metrics (item_ids items);
    wire = wire_point;
    on_upload = on_metrics_success;
    waiting = λ q. depth_rows q.metric_rows;
  }

  unfoldable pub flush_once :
      Codec (NormalizedEvent F) E
      → (ℕ → Round (NormalizedEvent F))
      → Uploader
      → Queue E M S
      → Uploader × Queue E M S × Outcome
  unfolding flush_lane events_lane
  flush_once c = flush_lane (events_lane c)

  unfoldable pub flush_metrics_once :
      Codec (MetricPoint F) M
      → (ℕ → Round (MetricPoint F))
      → Uploader
      → Queue E M S
      → Uploader × Queue E M S × Outcome
  unfolding flush_lane metrics_lane
  flush_metrics_once c = flush_lane (metrics_lane c)
