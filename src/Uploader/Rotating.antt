-- ===== src/Uploader/Rotating.antt =====
-- What RotateCheckOnce does to the key in use, and how long it waits after an attempt.
use desktop_client.Base.{
  ℕ, ◌+◌, ◌<◌, ◌≡◌, refl, true, false, Str, Option, none, some, inl, inr, arith, Bool-cases,
  if◌then◌else◌,
}
use desktop_client.Config.{Config}
use desktop_client.Uploader.State.{
  HeartbeatAnswer, beats, unauthorized, unreachable, RotateAnswer, rotated, conflict, refused, Env,
  Uploader,
}
use desktop_client.Uploader.Auth.{
  is_empty, mutate_config, verify_pending_key, attempt_rotate, record_failed_rotate_attempt,
  commit_pending_key,
}
use desktop_client.Uploader.Rotation.{
  rotation_due, due_by, rotate_check_once, check_rotation, rotation_retry_interval,
}
use desktop_client.Uploader.Recovery.{is_beat, confirmed}

-- The pending key of the config file, or `key` without a file.
abbrev pub pending_or : Str → Option Config → Str
pending_or key none = key
pending_or key (some cfg) = cfg.pending_key

attempt-key :
    (env : Env) (u : Uploader) (a : RotateAnswer)
    → env.rotate u.key ≡ a
    → (attempt_rotate env u).key ≡ u.key
unfolding attempt_rotate record_failed_rotate_attempt mutate_config
attempt-key env u (rotated out) e = rw (e, attempt_rotate) refl
attempt-key env u conflict e = rw (e, attempt_rotate) refl
attempt-key env u refused e = rw (e, attempt_rotate) refl

attempt_rotate-key : (env : Env) (u : Uploader) → (attempt_rotate env u).key ≡ u.key
attempt_rotate-key env u = attempt-key env u (env.rotate u.key) refl

verify_pending_key-key :
    (env : Env) (cfg : Config) (u : Uploader) (a : HeartbeatAnswer)
    → env.verify cfg.pending_key ≡ a
    → (verify_pending_key env cfg u).0.key ≡ (if is_beat a then cfg.pending_key else u.key)
unfolding verify_pending_key commit_pending_key mutate_config
verify_pending_key-key env cfg u (beats policy expires) e = rw (e, verify_pending_key) refl
verify_pending_key-key env cfg u (unauthorized code) e = rw (e, verify_pending_key) refl
verify_pending_key-key env cfg u unreachable e = rw (e, verify_pending_key) refl

check_rotation-key :
    (env : Env) (o : Option Config) (u : Uploader)
    → (check_rotation env o u).key ≡ (if confirmed env o then pending_or u.key o else u.key)
check_rotation-key env none u = refl
check_rotation-key env (some cfg) u = elim (Bool-cases (is_empty cfg.pending_key)) [
  | inl e ↦ rw e (elim (Bool-cases (rotation_due env cfg)) [
    | inl d ↦ rw d (attempt_rotate-key env u)
    | inr d ↦ rw d refl
  ])
  | inr e ↦ rw e (verify_pending_key-key env cfg u (env.verify cfg.pending_key) refl)
]

-- A rotation check moves the uploader to the pending key of the config file exactly if there is one and
-- the backend takes it, and leaves the key in use as it was in every other case.
pub rotate_check_once_key :
    (env : Env) (u : Uploader)
    → (rotate_check_once env u).key
      ≡ (if confirmed env u.stored then pending_or u.key u.stored else u.key)
unfolding rotate_check_once
rotate_check_once_key env u = check_rotation-key env u.stored u

attempt_rotate-stored :
    (env : Env) (cfg : Config) (u : Uploader) (a : RotateAnswer)
    → env.rotate u.key ≡ a
    → u.stored ≡ some cfg
    → env.saves ≡ true
    → (c : Config) × ((attempt_rotate env u).stored ≡ some c)
      × (c.last_rotation_at ≡ env.format_time env.now)
unfolding attempt_rotate record_failed_rotate_attempt mutate_config
attempt_rotate-stored env cfg u (rotated out) e st sv =
    rw (e, st, sv, attempt_rotate) (_, refl, refl)
attempt_rotate-stored env cfg u conflict e st sv = rw (e, st, sv, attempt_rotate) (_, refl, refl)
attempt_rotate-stored env cfg u refused e st sv = rw (e, st, sv, attempt_rotate) (_, refl, refl)

due_by_waits :
    (later : Env) (c : Config) (t : ℕ) (o : Option ℕ)
    → is_empty c.last_rotation_at ≡ false
    → later.parse_time c.last_rotation_at ≡ some t
    → later.now < t + rotation_retry_interval
    → due_by later c o ≡ false
due_by_waits later c t none ne p soon = refl
due_by_waits later c t (some expires) ne p soon = rw (ne, p) (ground (arith))

waits :
    (later : Env) (c : Config) (t : ℕ)
    → is_empty c.last_rotation_at ≡ false
    → later.parse_time c.last_rotation_at ≡ some t
    → later.now < t + rotation_retry_interval
    → rotation_due later c ≡ false
unfolding rotation_due
waits later c t ne p soon = due_by_waits later c t (later.parse_time c.key_expires_at) ne p soon

-- After an attempt to rotate, whatever the backend answered, a rotation is not due again before
-- rotation_retry_interval has passed, where the save succeeds, the written time is not empty, and
-- reading it gives a time t.
pub attempt_rotate_waits :
    (env later : Env) (cfg : Config) (u : Uploader) (t : ℕ)
    → u.stored ≡ some cfg
    → env.saves ≡ true
    → is_empty (env.format_time env.now) ≡ false
    → later.parse_time (env.format_time env.now) ≡ some t
    → later.now < t + rotation_retry_interval
    → (c : Config) × ((attempt_rotate env u).stored ≡ some c) × (rotation_due later c ≡ false)
unfolding rotation_due
attempt_rotate_waits env later cfg u t st sv ne p soon =
    let (c, kept, at) = attempt_rotate-stored env cfg u (env.rotate u.key) refl st sv in
    (c, kept, waits later c t (rw at ne) (rw at p) soon)
