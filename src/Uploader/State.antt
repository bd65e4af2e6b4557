-- ===== src/Uploader/State.antt =====
-- The state of the uploader (uploader.go), what the backend answers, and the constants. A call takes
-- the answers that it meets and the time as its environment. The calls of one cycle run one after the
-- other, and the logger is left out.
use desktop_client.Base.{ℕ, ◌*◌, Bool, Str, lit, Option}
use desktop_client.Api.{Policy, second}
use desktop_client.Config.{Config}
use desktop_client.Counters.{Registry}

pub data Mode : Type 0 where
  active degraded : Mode

abbrev pub code_key_invalid : Str
code_key_invalid = lit "key_invalid"

abbrev pub code_key_rotated : Str
code_key_rotated = lit "key_rotated"

abbrev pub code_key_expired : Str
code_key_expired = lit "key_expired"

abbrev pub lease_duration : ℕ
lease_duration = 120 * second

abbrev pub max_backoff : ℕ
max_backoff = 300 * second

abbrev pub degraded_probe_interval : ℕ
degraded_probe_interval = 300 * second

-- What the api client's calls answer: a result, an AuthError by its code, or another error.
pub data HeartbeatAnswer : Type 0 where
  beats : Policy → Option Str → HeartbeatAnswer
  unauthorized : Str → HeartbeatAnswer
  unreachable : HeartbeatAnswer

pub record RotateOut : Type 0 where
  pub collector_key : Str
  pub key_id : ℕ
  pub key_expires_at : Str
  pub old_key_valid_until : Str

pub data RotateAnswer : Type 0 where
  rotated : RotateOut → RotateAnswer
  conflict : RotateAnswer
  refused : RotateAnswer

-- The backend, the clock and the config file during one call. `saves` tells whether a save succeeds.
-- `heartbeat` answers the heartbeat with the live key, `verify` the one that tries a pending key.
pub record Env : Type 0 where
  pub now : ℕ
  pub saves : Bool
  pub heartbeat : Str → HeartbeatAnswer
  pub verify : Str → HeartbeatAnswer
  pub rotate : Str → RotateAnswer
  pub parse_time : Str → Option ℕ
  pub format_time : ℕ → Str

-- `key` is the live client's key. `stored` is the config file, `none` where no store is configured or
-- the file cannot be loaded. The zero time of `inventory_next_attempt` is 0; `inventory_cancel` tells
-- whether a cancel function is set, and `triggered` whether the trigger channel holds a token.
pub record Uploader : Type 0 where
  pub key : Str
  pub stored : Option Config
  pub counters : Registry
  pub policy : Policy
  pub mode : Mode
  pub auth_reason : Str
  pub backoff : ℕ
  pub inventory_running : Bool
  pub inventory_cancel : Bool
  pub inventory_next_attempt : ℕ
  pub triggered : Bool
