-- ===== src/Uploader/Recovery.antt =====
-- The reaction to a 401 and to a heartbeat: when the uploader is Active afterwards, and what it keeps.
use desktop_client.Base.{
  ◌≡◌, refl, Bool, true, false, Str, str_eq, Option, none, some, [], inl, inr, Bool-cases,
  str_eq_iff, ◌&&◌, ◌||◌, if◌then◌else◌,
}
use desktop_client.Config.{Config}
use desktop_client.Counters
use desktop_client.Uploader.State.{
  active, degraded, code_key_invalid, code_key_rotated, code_key_expired, HeartbeatAnswer, beats,
  unauthorized, unreachable, Env, Uploader,
}
use desktop_client.Uploader.Auth.{
  is_empty, enter_active, enter_degraded, handle_auth_error, verify_pending_key, attempt_rotate,
  recover_via_pending_key_or_degrade, adopted, adopt_or_degrade,
}

abbrev pub is_beat : HeartbeatAnswer → Bool
is_beat (beats policy expires) = true
is_beat _ = false

-- The config file has a pending key, and the backend takes it.
abbrev pub confirmed : Env → Option Config → Bool
confirmed env none = false
confirmed env (some cfg) =
    if is_empty cfg.pending_key then false else is_beat (env.verify cfg.pending_key)

-- The mode, the reason and the gauge that belong together.
abbrev pub Settled : Uploader → Bool → Str → Type 0
Settled u true reason =
    (u.mode ≡ active)
    × (u.auth_reason ≡ [])
    × (u.backoff ≡ 0)
    × (u.counters.vals Counters.auth_failed ≡ 0)
Settled u false reason =
    (u.mode ≡ degraded) × (u.auth_reason ≡ reason) × (u.counters.vals Counters.auth_failed ≡ 1)

enter_active-Settled :
    (env : Env) (u : Uploader) (reason : Str) → Settled (enter_active env u) true reason
unfolding enter_active Counters.set str_eq
enter_active-Settled env u reason = (refl, refl, refl, refl)

enter_degraded-Settled :
    (env : Env) (u : Uploader) (reason : Str) → Settled (enter_degraded env reason u) false reason
unfolding enter_degraded Counters.set str_eq
enter_degraded-Settled env u reason = (refl, refl, refl)

answer-Settled :
    (env : Env) (cfg : Config) (u : Uploader) (a : HeartbeatAnswer)
    → env.verify cfg.pending_key ≡ a
    → Settled (adopted env (verify_pending_key env cfg u)) (is_beat a) code_key_invalid
unfolding verify_pending_key
answer-Settled env cfg u (beats policy expires) e =
    rw (e, verify_pending_key) (enter_active-Settled env _ code_key_invalid)
answer-Settled env cfg u (unauthorized code) e =
    rw (e, verify_pending_key) (enter_degraded-Settled env _ code_key_invalid)
answer-Settled env cfg u unreachable e =
    rw (e, verify_pending_key) (enter_degraded-Settled env _ code_key_invalid)

adopt_or_degrade-Settled :
    (env : Env) (o : Option Config) (u : Uploader)
    → Settled (adopt_or_degrade env o u) (confirmed env o) code_key_invalid
adopt_or_degrade-Settled env none u = enter_degraded-Settled env u code_key_invalid
adopt_or_degrade-Settled env (some cfg) u = elim (Bool-cases (is_empty cfg.pending_key)) [
  | inl e ↦ rw e (enter_degraded-Settled env u code_key_invalid)
  | inr e ↦ rw e (answer-Settled env cfg u (env.verify cfg.pending_key) refl)
]

-- Where the config file stands when the pending key is looked up.
abbrev pub file_at_recovery : Env → Str → Uploader → Option Config
file_at_recovery env code u =
    if str_eq code code_key_expired then (attempt_rotate env u).stored else u.stored

-- Whether the code of a 401 is one of the two that a pending key can answer.
abbrev pub recoverable : Str → Bool
recoverable code = str_eq code code_key_rotated || str_eq code code_key_expired

rotated_not_expired : str_eq code_key_rotated code_key_expired ≡ false
unfolding str_eq
rotated_not_expired = refl

-- After a 401 the uploader is Active exactly if the code was key_rotated or key_expired and the backend
-- takes the pending key of the config file, after one attempt to rotate where the code was key_expired.
-- In Active the reason is empty, the backoff is 0 and the gauge is 0; in Degraded the gauge is 1 and the
-- reason is key_invalid after a recovery that failed, and the code itself otherwise.
pub handle_auth_error_settles :
    (env : Env) (code : Str) (u : Uploader)
    → Settled
        (handle_auth_error env code u)
        (recoverable code && confirmed env (file_at_recovery env code u))
        (if recoverable code then code_key_invalid else code)
unfolding handle_auth_error recover_via_pending_key_or_degrade
handle_auth_error_settles env code u = elim (Bool-cases (str_eq code code_key_rotated)) [
  | inl e ↦
      let not_expired : str_eq code code_key_expired ≡ false =
        rw ((str_eq_iff code code_key_rotated).0 e) rotated_not_expired in
      rw (e, not_expired, handle_auth_error) (adopt_or_degrade-Settled env u.stored u)
  | inr e ↦ elim (Bool-cases (str_eq code code_key_expired)) [
    | inl x ↦
        rw (e, x, handle_auth_error)
          (adopt_or_degrade-Settled env (attempt_rotate env u).stored (attempt_rotate env u))
    | inr x ↦ rw (e, x, handle_auth_error) (enter_degraded-Settled env u code)
  ]
]
