-- ===== src/Uploader/KeySync.antt =====
-- The key in use and the key of the config file, over each of the uploader's steps.
use desktop_client.Base.{
  ◌≡◌, refl, Bool, true, false, Str, Option, none, some, inl, inr, Bool-cases, str_eq,
}
use desktop_client.Config.{Config}
use desktop_client.Uploader.State.{
  HeartbeatAnswer, beats, unauthorized, unreachable, RotateAnswer, rotated, conflict, refused, Env,
  Uploader, code_key_rotated, code_key_expired, code_key_invalid,
}
use desktop_client.Uploader.Auth.{
  is_empty, saved, mutate_config, verify_pending_key, attempt_rotate, record_failed_rotate_attempt,
  commit_pending_key, enter_active, enter_degraded, adopted, adopt_or_degrade, handle_auth_error,
  recover_via_pending_key_or_degrade,
}
use desktop_client.Uploader.Rotation.{rotation_due, check_rotation}

-- The config file, where there is one, has the key `key`.
abbrev pub Names : Option Config → Str → Type 0
Names o key = (c : Config) → o ≡ some c → c.collector_key ≡ key

abbrev pub InSync : Uploader → Type 0
InSync u = Names u.stored u.key

Names-some : {c : Config} {key : Str} → c.collector_key ≡ key → Names (some c) key
Names-some {c} {key} h d e = cc

pub saved-Names :
    (saves : Bool) (fn : Config → Config) (o : Option Config) (key : Str)
    → ((c : Config) → (fn c).collector_key ≡ c.collector_key)
    → Names o key
    → Names (saved saves fn o) key
saved-Names saves fn none key keeps h = λ c e. cc
saved-Names true fn (some c) key keeps h = Names-some (rw (keeps c) (h c refl))
saved-Names false fn (some c) key keeps h = h

pub enter_active-InSync : (env : Env) (u : Uploader) → InSync u → InSync (enter_active env u)
unfolding enter_active mutate_config
enter_active-InSync env u h = saved-Names env.saves _ u.stored u.key (λ c. refl) h

enter_degraded-InSync :
    (env : Env) (reason : Str) (u : Uploader) → InSync u → InSync (enter_degraded env reason u)
unfolding enter_degraded mutate_config
enter_degraded-InSync env reason u h = saved-Names env.saves _ u.stored u.key (λ c. refl) h

replaced-Names :
    (fn : Config → Config) (o : Option Config) (key : Str)
    → ((c : Config) → (fn c).collector_key ≡ key)
    → Names (saved true fn o) key
replaced-Names fn none key sets = λ c e. cc
replaced-Names fn (some c) key sets = Names-some (sets c)

commit_pending_key-InSync :
    (env : Env) (cfg : Config) (u : Uploader)
    → env.saves ≡ true
    → InSync (commit_pending_key env cfg (record u { key = cfg.pending_key }))
unfolding commit_pending_key mutate_config
commit_pending_key-InSync env cfg u sv =
    rw (sv, commit_pending_key, mutate_config)
      (replaced-Names _ u.stored cfg.pending_key (λ c. refl))

attempt-InSync :
    (env : Env) (u : Uploader) (a : RotateAnswer)
    → env.rotate u.key ≡ a
    → InSync u
    → InSync (attempt_rotate env u)
unfolding attempt_rotate record_failed_rotate_attempt mutate_config
attempt-InSync env u (rotated out) e h =
    rw (e, attempt_rotate) (saved-Names env.saves _ u.stored u.key (λ c. refl) h)
attempt-InSync env u conflict e h =
    rw (e, attempt_rotate) (saved-Names env.saves _ u.stored u.key (λ c. refl) h)
attempt-InSync env u refused e h =
    rw (e, attempt_rotate) (saved-Names env.saves _ u.stored u.key (λ c. refl) h)

attempt_rotate-InSync : (env : Env) (u : Uploader) → InSync u → InSync (attempt_rotate env u)
attempt_rotate-InSync env u h = attempt-InSync env u (env.rotate u.key) refl h

verify-InSync :
    (env : Env) (cfg : Config) (u : Uploader) (a : HeartbeatAnswer)
    → env.verify cfg.pending_key ≡ a
    → env.saves ≡ true
    → InSync u
    → InSync (verify_pending_key env cfg u).0
unfolding verify_pending_key mutate_config
verify-InSync env cfg u (beats policy expires) e sv h =
    rw (e, verify_pending_key) (commit_pending_key-InSync env cfg u sv)
verify-InSync env cfg u (unauthorized code) e sv h =
    rw (e, verify_pending_key) (saved-Names env.saves _ u.stored u.key (λ c. refl) h)
verify-InSync env cfg u unreachable e sv h = rw (e, verify_pending_key) h

adopted-InSync : (env : Env) (r : Uploader × Bool) → InSync r.0 → InSync (adopted env r)
adopted-InSync env (u, true) h = enter_active-InSync env u h
adopted-InSync env (u, false) h = enter_degraded-InSync env code_key_invalid u h

adopt_or_degrade-InSync :
    (env : Env) (o : Option Config) (u : Uploader)
    → env.saves ≡ true
    → InSync u
    → InSync (adopt_or_degrade env o u)
adopt_or_degrade-InSync env none u sv h = enter_degraded-InSync env code_key_invalid u h
adopt_or_degrade-InSync env (some cfg) u sv h = elim (Bool-cases (is_empty cfg.pending_key)) [
  | inl e ↦ rw e (enter_degraded-InSync env code_key_invalid u h)
  | inr e ↦ rw e (
      adopted-InSync env (verify_pending_key env cfg u)
        (verify-InSync env cfg u (env.verify cfg.pending_key) refl sv h))
]

pub handle_auth_error-InSync :
    (env : Env) (code : Str) (u : Uploader)
    → env.saves ≡ true
    → InSync u
    → InSync (handle_auth_error env code u)
unfolding handle_auth_error recover_via_pending_key_or_degrade
handle_auth_error-InSync env code u sv h = elim (Bool-cases (str_eq code code_key_rotated)) [
  | inl e ↦ rw (e, handle_auth_error) (adopt_or_degrade-InSync env u.stored u sv h)
  | inr e ↦ elim (Bool-cases (str_eq code code_key_expired)) [
    | inl x ↦
        rw (e, x, handle_auth_error)
          (adopt_or_degrade-InSync env (attempt_rotate env u).stored (attempt_rotate env u) sv
            (attempt_rotate-InSync env u h))
    | inr x ↦ rw (e, x, handle_auth_error) (enter_degraded-InSync env code u h)
  ]
]

pub check_rotation-InSync :
    (env : Env) (o : Option Config) (u : Uploader)
    → env.saves ≡ true
    → InSync u
    → InSync (check_rotation env o u)
check_rotation-InSync env none u sv h = h
check_rotation-InSync env (some cfg) u sv h = elim (Bool-cases (is_empty cfg.pending_key)) [
  | inl e ↦ rw e (elim (Bool-cases (rotation_due env cfg)) [
    | inl d ↦ rw d (attempt_rotate-InSync env u h)
    | inr d ↦ rw d h
  ])
  | inr e ↦ rw e (verify-InSync env cfg u (env.verify cfg.pending_key) refl sv h)
]
