-- ===== src/Tests/Flushes.antt =====
-- The theorems on the flush, on a queue of one event.
use desktop_client.Base.{ℕ, ◌≡◌, refl, lit, none, some, [], ◌∷◌}
use desktop_client.Api.{NormalizedEvent, MetricPoint, batch_size}
use desktop_client.Queue.Table.{pending, leasable_rows, update_by_ids, depth_rows}
use desktop_client.Queue.Table.Ops.{Codec, lease_rows, select_leasable, scan_items, scan_item}
use desktop_client.Queue.{Queue, lease_metrics_batch, ack_metrics}
use desktop_client.Uploader.Flush.{
  Round, accepted, rejected, drained, flush_once, metrics_lane, flush_metrics_once, flush_lane,
  flush_loop, send_batch, send_capped, wire_point,
}
use desktop_client.Uploader.Draining.{Ends}
use desktop_client.Uploader.Lanes.{queue_calls, NothingLeasable, flush_once-Ends, flush_once_drains}
use desktop_client.Uploader.MetricsLane.{metrics_calls, NoMetricLeasable, flush_metrics_once-Ends}
use desktop_client.Uploader.State.{code_key_rotated}
use desktop_client.Uploader.KeySync.{InSync}
use desktop_client.Uploader.History.{
  heartbeat, rotation_check, key_reload, flush, flush_metrics, run, run-InSync,
}
use desktop_client.Tests.Uploads.{uploader, env, uploader-InSync}
use desktop_client.Tests.Filters.{event}

abbrev pub codec : Codec (NormalizedEvent ℕ) (NormalizedEvent ℕ)
codec = record { marshal = λ e. some e; unmarshal = λ e. some e }

abbrev one_row : Queue (NormalizedEvent ℕ) ℕ ℕ
one_row = record {
  max_rows = 10;
  max_bytes = 1000;
  rows =
      record {
        id = 1;
        key = lit "a";
        payload = event "codex.sse_event" 7;
        created_at = 10;
        attempts = 0;
        state = pending;
        leased_until = none;
        acked_at = none;
      }
      ∷ [];
  metric_rows = [];
  sessions = 0;
  evicted = 0;
}

-- A backend that takes every batch.
abbrev takes : ℕ → Round (NormalizedEvent ℕ)
takes i = record {
  env = env;
  post = λ batch. accepted (record { accepted_count = 1; dropped_count = 0 });
}

flush_once-Ends_example :
    Ends
      (queue_calls codec)
      (NothingLeasable codec)
      takes
      (batch_size uploader.policy)
      one_row
      (flush_once codec takes uploader one_row)
flush_once-Ends_example = flush_once-Ends codec takes uploader one_row

flush_once_drains_example : (flush_once codec takes uploader one_row).2 ≡ drained
flush_once_drains_example =
    flush_once_drains codec takes uploader one_row refl
      (λ i items. (record { accepted_count = 1; dropped_count = 0 }, refl))
      ((event "codex.sse_event" 7, refl), tt)

-- A codec that keeps the value of a point, and a table of one point.
abbrev pub metrics_codec : Codec (MetricPoint ℕ) ℕ
metrics_codec = record {
  marshal = λ p. some p.value;
  unmarshal = λ v. some (record {
    metric_name = lit "tokens";
    value = v;
    timestamp = none;
    model = none;
    repo = none;
    session_id = none;
    point_id = none;
  });
}

abbrev one_point : Queue (NormalizedEvent ℕ) ℕ ℕ
one_point = record one_row {
  metric_rows =
      record {
        id = 1;
        key = some (lit "p");
        payload = 5;
        created_at = 10;
        attempts = 0;
        state = pending;
        leased_until = none;
        acked_at = none;
      }
      ∷ [];
}

abbrev takes_points : ℕ → Round (MetricPoint ℕ)
takes_points i = record {
  env = env;
  post = λ batch. accepted (record { accepted_count = 1; dropped_count = 0 });
}

flush_metrics_once-Ends_example :
    Ends
      (metrics_calls metrics_codec)
      (NoMetricLeasable metrics_codec)
      takes_points
      (batch_size uploader.policy)
      one_point
      (flush_metrics_once metrics_codec takes_points uploader one_point)
flush_metrics_once-Ends_example =
    flush_metrics_once-Ends metrics_codec takes_points uploader one_point

one_point_drains : (flush_metrics_once metrics_codec takes_points uploader one_point).2 ≡ drained
unfolding flush_metrics_once flush_lane flush_loop metrics_lane send_batch send_capped
    lease_metrics_batch lease_rows select_leasable scan_items scan_item leasable_rows update_by_ids
    ack_metrics depth_rows batch_size wire_point
one_point_drains = refl

-- A backend that answers that the key was rotated.
abbrev rejects : ℕ → Round (NormalizedEvent ℕ)
rejects i = record { env = env; post = λ batch. rejected code_key_rotated }

run-InSync_example :
    InSync
      (run codec metrics_codec
        (heartbeat env
          ∷ flush rejects
          ∷ rotation_check env
          ∷ flush takes
          ∷ flush_metrics takes_points
          ∷ key_reload env
          ∷ [])
        (uploader, one_point)).0
run-InSync_example =
    run-InSync codec metrics_codec
      (heartbeat env
        ∷ flush rejects
        ∷ rotation_check env
        ∷ flush takes
        ∷ flush_metrics takes_points
        ∷ key_reload env
        ∷ [])
      (uploader, one_point) (refl, (λ i. refl, (refl, (λ i. refl, (λ i. refl, (refl, tt))))))
      uploader-InSync
