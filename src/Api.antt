-- ===== src/Api.antt =====
-- internal/api: the wire contracts (event.go, metric.go) and the policy (policy.go). `F` is the type
-- of the float64 values, and an int64 is its bit pattern.
pub mod Client
pub mod Attempts
pub mod Encoding
pub mod Payloads
pub mod Endpoints
use desktop_client.Base.{ℕ, ◌*◌, ◌%◌, Bool, Str, Option, ltb, ◌==◌, if◌then◌else◌}
use desktop_client.Base.Words.{two64}

pub record NormalizedEvent (F : Type 0) : Type 0 where
  pub event_id : Option Str
  pub event_name : Option Str
  pub timestamp : Option Str
  pub session_id : Option Str
  pub model : Option Str
  pub tool_name : Option Str
  pub mcp_server : Option Str
  pub mcp_tool : Option Str
  pub mcp_server_tool_count : Option ℕ
  pub mcp_schema_tokens : Option ℕ
  pub skill_name : Option Str
  pub tool_success : Option Bool
  pub tool_duration_ms : Option F
  pub cost_usd : Option F
  pub input_tokens : Option ℕ
  pub output_tokens : Option ℕ
  pub cache_read_tokens : Option ℕ
  pub cache_create_tokens : Option ℕ
  pub repo : Option Str
  pub error_message : Option Str

pub record MetricPoint (F : Type 0) : Type 0 where
  pub metric_name : Str
  pub value : F
  pub timestamp : Option Str
  pub model : Option Str
  pub repo : Option Str
  pub session_id : Option Str
  pub point_id : Option Str

-- A value below 0 is read as 0, which the accessors treat alike.
pub record Policy : Type 0 where
  pub flush_interval_seconds : ℕ
  pub max_batch_size : ℕ
  pub refresh_cadence : Str
  pub inventory_enabled : Bool

abbrev pub default_flush_interval_seconds : ℕ
default_flush_interval_seconds = 30

abbrev pub default_max_batch_size : ℕ
default_max_batch_size = 500

abbrev pub max_ingest_batch : ℕ
max_ingest_batch = 2000

-- A time.Duration, in nanoseconds.
abbrev pub second : ℕ
second = 1000000000

-- The product wraps as int64 does.
unfoldable pub flush_interval : Policy → ℕ
flush_interval p =
    let secs =
      if p.flush_interval_seconds == 0
      then default_flush_interval_seconds
      else p.flush_interval_seconds in
    secs * second % two64

unfoldable pub batch_size : Policy → ℕ
batch_size p =
    let n = if p.max_batch_size == 0 then default_max_batch_size else p.max_batch_size in
    if ltb max_ingest_batch n then max_ingest_batch else n
