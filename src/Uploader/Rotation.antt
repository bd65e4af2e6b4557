-- ===== src/Uploader/Rotation.antt =====
-- RotateCheckOnce (rotation.go): when a rotation is due, and the step that is taken.
use desktop_client.Base.{
  ℕ, ◌+◌, ◌*◌, Bool, true, false, not, Option, none, some, ltb, if◌then◌else◌,
}
use desktop_client.Api.{second}
use desktop_client.Config.{Config}
use desktop_client.Uploader.State.{Env, Uploader}
use desktop_client.Uploader.Auth.{is_empty, verify_pending_key, attempt_rotate}

abbrev pub rotation_lead_time : ℕ
rotation_lead_time = 604800 * second

abbrev pub rotation_retry_interval : ℕ
rotation_retry_interval = 86400 * second

abbrev pub retry_due : Env → Option ℕ → Bool
retry_due env none = true
retry_due env (some last) = not (ltb env.now (last + rotation_retry_interval))

abbrev pub due_by : Env → Config → Option ℕ → Bool
due_by env cfg none = false
due_by env cfg (some expires) =
    if ltb (env.now + rotation_lead_time) expires
    then false
    else if is_empty cfg.last_rotation_at
    then true
    else retry_due env (env.parse_time cfg.last_rotation_at)

unfoldable pub rotation_due : Env → Config → Bool
rotation_due env cfg = due_by env cfg (env.parse_time cfg.key_expires_at)

abbrev pub check_rotation : Env → Option Config → Uploader → Uploader
check_rotation env none u = u
check_rotation env (some cfg) u =
    if is_empty cfg.pending_key
    then (if rotation_due env cfg then attempt_rotate env u else u)
    else (verify_pending_key env cfg u).0

unfoldable pub rotate_check_once : Env → Uploader → Uploader
unfolding rotation_due attempt_rotate verify_pending_key
rotate_check_once env u = check_rotation env u.stored u
