-- ===== src/Tests/Uploads.antt =====
-- The uploader's theorems on an uploader with a pending key.
use desktop_client.Base.{
  ◌*◌, ◌^◌, ◌≡◌, refl, min, max, arith, true, false, Str, lit, str_eq, none, some, [],
}
use desktop_client.Base.Words.{less64}
use desktop_client.Api.{Policy, flush_interval}
use desktop_client.Config.{Config}
use desktop_client.Counters.{new_registry}
use desktop_client.Uploader.State.{
  active, code_key_invalid, code_key_rotated, beats, unauthorized, conflict, Env, Uploader,
  max_backoff,
}
use desktop_client.Uploader.Auth.{is_empty, handle_auth_error, attempt_rotate}
use desktop_client.Uploader.Rotation.{rotate_check_once, rotation_due}
use desktop_client.Uploader.Backoff.{flush_delay, widen_backoff}
use desktop_client.Uploader.Recovery.{Settled, handle_auth_error_settles}
use desktop_client.Uploader.Rotating.{rotate_check_once_key, attempt_rotate_waits}
use desktop_client.Uploader.Widening.{widened, widen_backoff_doubles}
use desktop_client.Uploader.KeySync.{InSync}

abbrev old_key : Str
old_key = lit "old"

abbrev new_key : Str
new_key = lit "new"

abbrev policy : Policy
policy = record {
  flush_interval_seconds = 60;
  max_batch_size = 0;
  refresh_cadence = [];
  inventory_enabled = false;
}

abbrev pub config : Config
config = record {
  api_url = lit "https://api";
  collector_key = old_key;
  collector_id = 1;
  user_email = [];
  machine = lit "m";
  policy = policy;
  key_expires_at = lit "soon";
  retention_days = 0;
  key_id = 1;
  pending_key = new_key;
  pending_key_id = 2;
  pending_key_expires = lit "later";
  old_key_valid_until = [];
  last_rotation_at = [];
  rotation_failures = 0;
  auth_reason = [];
  receiver_port = 0;
  receiver_token = [];
  inventory_status = [];
  inventory_last_upload_at = [];
  inventory_item_count = 0;
  credential_backend = [];
}

abbrev pub uploader : Uploader
uploader = record {
  key = old_key;
  stored = some config;
  counters = new_registry;
  policy = policy;
  mode = active;
  auth_reason = [];
  backoff = 0;
  inventory_running = false;
  inventory_cancel = false;
  inventory_next_attempt = 0;
  triggered = false;
}

-- The backend refuses the old key and takes the new one.
abbrev pub env : Env
env = record {
  now = 1000;
  saves = true;
  heartbeat = λ key. unauthorized code_key_rotated;
  verify = λ key. beats policy none;
  rotate = λ key. conflict;
  parse_time = λ s. some 1000;
  format_time = λ t. lit "now";
}

handle_auth_error_settles_example :
    Settled (handle_auth_error env code_key_rotated uploader) true code_key_invalid
unfolding str_eq
handle_auth_error_settles_example = handle_auth_error_settles env code_key_rotated uploader

rotate_check_once_key_example : (rotate_check_once env uploader).key ≡ new_key
unfolding str_eq
rotate_check_once_key_example = rotate_check_once_key env uploader

not_empty : is_empty (lit "now") ≡ false
unfolding str_eq
not_empty = refl

attempt_rotate_waits_example :
    (c : Config) × ((attempt_rotate env uploader).stored ≡ some c)
    × (rotation_due (record env { now = 2000 }) c ≡ false)
attempt_rotate_waits_example =
    attempt_rotate_waits env (record env { now = 2000 }) config uploader 1000 refl refl not_empty
      refl (omega arith)

widen_backoff_doubles_example :
    ((widened 3 uploader).backoff ≡ min max_backoff (flush_interval policy * 2 ^ 3))
    × (flush_delay (widened 3 uploader)
        ≡ max (flush_interval policy) (min max_backoff (flush_interval policy * 2 ^ 3)))
widen_backoff_doubles_example = widen_backoff_doubles 2 uploader (omega arith) refl

-- The double of an interval of 5000000000 seconds is a negative int64, which is below the cap.
abbrev slow_uploader : Uploader
slow_uploader = record uploader { policy = record policy { flush_interval_seconds = 5000000000 } }

slow_uploader_wraps : (widened 1 slow_uploader).backoff ≡ 10000000000000000000
unfolding widen_backoff flush_interval less64
slow_uploader_wraps = refl

pub uploader-InSync : InSync uploader
uploader-InSync c e = cc
