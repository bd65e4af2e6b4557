-- ===== src/Tests/Filters.antt =====
-- The filter's theorems on a batch of two events.
use desktop_client.Base.{ℕ, ◌+◌, ◌≡◌, String, lit, none, some, List, [], ◌∷◌, filter, length}
use desktop_client.Base.Words.{add64}
use desktop_client.Api.{NormalizedEvent, MetricPoint}
use desktop_client.Filter.{Filter, FloatOps, new_filter, apply, flush}
use desktop_client.Filter.Conservation.{input, event_total, pending_total}
use desktop_client.Filter.Batches.{is_kept, is_dropped, apply-flush_conserves, apply_partitions}

abbrev pub floats : FloatOps ℕ
floats = record { zero = 0; add = λ a b. a + b }

abbrev pub event : String → ℕ → NormalizedEvent ℕ
event s tokens = record {
  event_id = none;
  event_name = some (lit s);
  timestamp = none;
  session_id = none;
  model = some (lit "gpt");
  tool_name = none;
  mcp_server = none;
  mcp_tool = none;
  mcp_server_tool_count = none;
  mcp_schema_tokens = none;
  skill_name = none;
  tool_success = none;
  tool_duration_ms = none;
  cost_usd = none;
  input_tokens = some tokens;
  output_tokens = none;
  cache_read_tokens = none;
  cache_create_tokens = none;
  repo = none;
  error_message = none;
}

abbrev pub policy : Filter ℕ
policy = new_filter [] []

abbrev batch : List (NormalizedEvent ℕ)
batch =
    event "codex.websocket_event" 5
    ∷ event "codex.sse_event" 7
    ∷ event "codex.websocket_event" 6
    ∷ []

apply-flush_conserves_example :
    (event_total input (lit "gpt") (flush [] (apply floats policy batch).1).0
      ≡ add64
          (event_total input (lit "gpt") (filter (is_dropped policy) batch))
          (pending_total input (lit "gpt") policy.pending))
    × ((flush [] (apply floats policy batch).1).1.pending ≡ [])
    × ((flush [] (apply floats policy batch).1).1.stats.rollups
        ≡ (apply floats policy batch).1.stats.rollups
          + length (apply floats policy batch).1.pending)
apply-flush_conserves_example = apply-flush_conserves floats policy batch [] input (lit "gpt")

apply_partitions_example :
    ((apply floats policy batch).0 ≡ filter (is_kept policy) batch)
    × ((apply floats policy batch).1.stats.kept
        ≡ policy.stats.kept + length (apply floats policy batch).0)
    × ((apply floats policy batch).1.stats.filtered + length (apply floats policy batch).0
        ≡ policy.stats.filtered + length batch)
apply_partitions_example = apply_partitions floats policy batch

abbrev points : List (MetricPoint ℕ)
points =
    record {
      metric_name = lit "codex.tool.call";
      value = 1;
      timestamp = none;
      model = none;
      repo = none;
      session_id = none;
      point_id = none;
    }
    ∷ []
