-- ===== src/Uploader/Auth.antt =====
-- The modes Active and Degraded and the recovery from a 401 (uploader.go), with the steps of the key
-- rotation that it takes (rotation.go).
use desktop_client.Base.{◌+◌, Bool, true, false, Str, str_eq, Option, none, some, [], if◌then◌else◌}
use desktop_client.Config.{Config}
use desktop_client.Counters
use desktop_client.Counters.{Registry}
use desktop_client.Uploader.State.{
  active, degraded, code_key_invalid, code_key_rotated, code_key_expired, beats, unauthorized,
  unreachable, RotateOut, rotated, conflict, refused, Env, Uploader,
}

abbrev pub is_empty : Str → Bool
is_empty s = str_eq s []

abbrev pub saved : Bool → (Config → Config) → Option Config → Option Config
saved saves fn none = none
saved saves fn (some c) = some (if saves then fn c else c)

-- Best effort: a failed load or save leaves the file as it was.
unfoldable pub mutate_config : Env → (Config → Config) → Uploader → Uploader
mutate_config env fn u = record u { stored = saved env.saves fn u.stored }

unfoldable pub enter_degraded : Env → Str → Uploader → Uploader
unfolding mutate_config
enter_degraded env reason u =
    let u' = record u {
      mode = degraded;
      auth_reason = reason;
      counters = Counters.set Counters.auth_failed 1 u.counters;
    } in
    mutate_config env (λ c. record c { auth_reason = reason }) u'

unfoldable pub enter_active : Env → Uploader → Uploader
unfolding mutate_config
enter_active env u =
    let u' = record u {
      mode = active;
      auth_reason = [];
      backoff = 0;
      counters = Counters.set Counters.auth_failed 0 u.counters;
    } in
    mutate_config env (λ c. record c { auth_reason = [] }) u'

unfoldable pub commit_pending_key : Env → Config → Uploader → Uploader
unfolding mutate_config
commit_pending_key env cfg = mutate_config env λ c. record c {
  collector_key = cfg.pending_key;
  key_id = cfg.pending_key_id;
  key_expires_at = cfg.pending_key_expires;
  pending_key = [];
  pending_key_expires = [];
  old_key_valid_until = [];
  pending_key_id = 0;
  rotation_failures = 0;
}

abbrev pub discard_pending : Config → Config
discard_pending c = record c {
  pending_key = [];
  pending_key_expires = [];
  old_key_valid_until = [];
  pending_key_id = 0;
  rotation_failures = c.rotation_failures + 1;
}

-- Heartbeats with the pending key before it is committed, and goes back to the key of before if that
-- fails.
unfoldable pub verify_pending_key : Env → Config → Uploader → Uploader × Bool
unfolding commit_pending_key mutate_config
verify_pending_key env cfg u =
    let swapped = record u { key = cfg.pending_key } in
    elim (env.verify cfg.pending_key) [
      | beats policy expires ↦ (commit_pending_key env cfg swapped, true)
      | unauthorized code ↦
          (mutate_config env discard_pending (record swapped { key = u.key }), false)
      | unreachable ↦ (record swapped { key = u.key }, false)
    ]

abbrev pub with_pending : RotateOut → Str → Config → Config
with_pending out at c = record c {
  pending_key = out.collector_key;
  pending_key_id = out.key_id;
  pending_key_expires = out.key_expires_at;
  old_key_valid_until = out.old_key_valid_until;
  last_rotation_at = at;
}

-- A conflict is not a failure of this instance, and both set the time of the attempt.
unfoldable pub record_failed_rotate_attempt : Env → Bool → Str → Uploader → Uploader
unfolding mutate_config
record_failed_rotate_attempt env is_conflict at = mutate_config env λ c. record c {
  last_rotation_at = at;
  rotation_failures = if is_conflict then c.rotation_failures else c.rotation_failures + 1;
}

unfoldable pub attempt_rotate : Env → Uploader → Uploader
unfolding record_failed_rotate_attempt mutate_config
attempt_rotate env u =
    let at = env.format_time env.now in
    elim (env.rotate u.key) [
      | rotated out ↦ mutate_config env (with_pending out at) u
      | conflict ↦ record_failed_rotate_attempt env true at u
      | refused ↦ record_failed_rotate_attempt env false at u
    ]

abbrev pub adopted : Env → Uploader × Bool → Uploader
adopted env (u, true) = enter_active env u
adopted env (u, false) = enter_degraded env code_key_invalid u

abbrev pub adopt_or_degrade : Env → Option Config → Uploader → Uploader
adopt_or_degrade env none u = enter_degraded env code_key_invalid u
adopt_or_degrade env (some cfg) u =
    if is_empty cfg.pending_key
    then enter_degraded env code_key_invalid u
    else adopted env (verify_pending_key env cfg u)

unfoldable pub recover_via_pending_key_or_degrade : Env → Uploader → Uploader
unfolding enter_degraded enter_active verify_pending_key
recover_via_pending_key_or_degrade env u = adopt_or_degrade env u.stored u

-- The dispatch of a 401 by its code.
unfoldable pub handle_auth_error : Env → Str → Uploader → Uploader
unfolding recover_via_pending_key_or_degrade attempt_rotate enter_degraded
handle_auth_error env code u =
    if str_eq code code_key_rotated
    then recover_via_pending_key_or_degrade env u
    else if str_eq code code_key_expired
    then recover_via_pending_key_or_degrade env (attempt_rotate env u)
    else enter_degraded env code u
