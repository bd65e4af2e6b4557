-- ===== src/Uploader/History.antt =====
-- Any sequence of the uploader's steps: the heartbeat, the rotation check, the reload of the key, the flushes of
-- events and metrics, and a 401 of any other request (FlushSessionsOnce).
use desktop_client.Base.{
  ℕ, ◌≡◌, refl, Bool, true, false, Str, Option, none, some, inl, inr, Bool-cases, str_eq, ◌||◌,
  List, [], ◌∷◌, All, ltb, ap, sym, ◌∙◌,
}
use desktop_client.Api.{Policy, NormalizedEvent, MetricPoint}
use desktop_client.Queue.Table.Ops.{Codec}
use desktop_client.Queue.{Queue}
use desktop_client.Config.{Config}
use desktop_client.Uploader.State.{HeartbeatAnswer, beats, unauthorized, unreachable, Env, Uploader}
use desktop_client.Uploader.Auth.{is_empty, mutate_config, enter_active, handle_auth_error}
use desktop_client.Uploader.Heartbeat.{
  heartbeat_once, on_heartbeat_ok, finish_heartbeat, schedule_inventory, reload_key_if_changed,
  reloaded, refresh_config, refresh_expiry,
}
use desktop_client.Uploader.Flush.{
  Round, Outcome, events_lane, metrics_lane, flush_once, flush_metrics_once, on_upload_success,
  on_metrics_success,
}
use desktop_client.Uploader.FlushSync.{SavesIn, KeepsSync, flush_lane-InSync}
use desktop_client.Uploader.Rotation.{rotate_check_once}
use desktop_client.Uploader.KeySync.{
  InSync, saved-Names, enter_active-InSync, handle_auth_error-InSync, check_rotation-InSync,
}

-- A step with the answers that it meets: a flush has an environment and a backend for each of its rounds.
pub data Call (F : Type 0) : Type 0 where
  heartbeat rotation_check key_reload : Env → Call F
  auth_error : Env → Str → Call F
  flush : (ℕ → Round (NormalizedEvent F)) → Call F
  flush_metrics : (ℕ → Round (MetricPoint F)) → Call F

-- Every save of the step succeeds.
abbrev pub Saves : {F : Type 0} → Call F → Type 0
Saves (heartbeat env) = env.saves ≡ true
Saves (rotation_check env) = env.saves ≡ true
Saves (key_reload env) = env.saves ≡ true
Saves (auth_error env code) = env.saves ≡ true
Saves (flush rounds) = SavesIn rounds
Saves (flush_metrics rounds) = SavesIn rounds

abbrev left : {Q : Type 0} → Uploader × Q × Outcome → Uploader × Q
left (u, q, outcome) = (u, q)

module _ {F E M S : Type 0} (c : Codec (NormalizedEvent F) E) (d : Codec (MetricPoint F) M) where
  unfoldable pub step : Call F → Uploader × Queue E M S → Uploader × Queue E M S
  unfolding heartbeat_once rotate_check_once reload_key_if_changed handle_auth_error flush_once
      flush_metrics_once
  step (heartbeat env) (u, q) = (heartbeat_once env u, q)
  step (rotation_check env) (u, q) = (rotate_check_once env u, q)
  step (key_reload env) (u, q) = (reload_key_if_changed u, q)
  step (auth_error env code) (u, q) = (handle_auth_error env code u, q)
  step (flush rounds) (u, q) = left (flush_once c rounds u q)
  step (flush_metrics rounds) (u, q) = left (flush_metrics_once d rounds u q)

  unfoldable pub run : List (Call F) → Uploader × Queue E M S → Uploader × Queue E M S
  unfolding step
  run [] s = s
  run (call ∷ calls) s = run calls (step call s)

some-injective : {c d : Config} → some c ≡ some d → c ≡ d
some-injective e = cc

expiry-key : (o : Option Str) (c : Config) → (refresh_expiry o c).collector_key ≡ c.collector_key
expiry-key none c = refl
expiry-key (some at) c = refl

refresh_config-key :
    (policy : Policy) (expires : Option Str) (c : Config)
    → (refresh_config policy expires c).collector_key ≡ c.collector_key
refresh_config-key policy expires c = elim (Bool-cases policy.inventory_enabled) [
  | inl e ↦ rw (e, refresh_config) (expiry-key expires _)
  | inr e ↦ rw (e, refresh_config) (expiry-key expires _)
]

schedule-InSync :
    (env : Env) (enabled : Bool) (u : Uploader)
    → InSync u
    → InSync (schedule_inventory env enabled u).0
unfolding schedule_inventory
schedule-InSync env false u h = h
schedule-InSync env true u h =
    elim (Bool-cases (u.inventory_running || ltb env.now u.inventory_next_attempt)) [
      | inl e ↦ rw e h
      | inr e ↦ rw e h
    ]

finish-InSync :
    (env : Env) (policy : Policy) (expires : Option Str) (r : Uploader × Bool)
    → InSync r.0
    → InSync (finish_heartbeat env policy expires r)
unfolding mutate_config
finish-InSync env policy expires (u, true) h =
    saved-Names env.saves _ u.stored u.key (refresh_config-key policy expires) h
finish-InSync env policy expires (u, false) h =
    saved-Names env.saves _ u.stored u.key (refresh_config-key policy expires) h

on_heartbeat_ok-InSync :
    (env : Env) (policy : Policy) (expires : Option Str) (u : Uploader)
    → InSync u
    → InSync (on_heartbeat_ok env policy expires u)
unfolding on_heartbeat_ok mutate_config
on_heartbeat_ok-InSync env policy expires u h =
    let refreshed = record (enter_active env u) { policy = policy } in
    finish-InSync env policy expires (schedule_inventory env policy.inventory_enabled refreshed)
      (schedule-InSync env policy.inventory_enabled refreshed (enter_active-InSync env u h))

heartbeat-InSync :
    (env : Env) (u : Uploader) (a : HeartbeatAnswer)
    → env.heartbeat u.key ≡ a
    → env.saves ≡ true
    → InSync u
    → InSync (heartbeat_once env u)
unfolding heartbeat_once
heartbeat-InSync env u (beats policy expires) e sv h =
    rw (e, heartbeat_once) (on_heartbeat_ok-InSync env policy expires u h)
heartbeat-InSync env u (unauthorized code) e sv h =
    rw (e, heartbeat_once) (handle_auth_error-InSync env code u sv h)
heartbeat-InSync env u unreachable e sv h = rw (e, heartbeat_once) h

reload-InSync : (o : Option Config) (u : Uploader) → u.stored ≡ o → InSync u → InSync (reloaded o u)
reload-InSync none u e h = h
reload-InSync (some cfg) u e h =
    elim (Bool-cases (is_empty cfg.collector_key || str_eq cfg.collector_key u.key)) [
      | inl t ↦ rw t h
      | inr t ↦ rw t (λ c d. ap (λ f. f.collector_key) (some-injective (sym d ∙ e)))
    ]

left-InSync : {Q : Type 0} (r : Uploader × Q × Outcome) → InSync r.0 → InSync (left r).0
left-InSync (u, q, outcome) h = h

module _ (F E M S : Type 0) (c : Codec (NormalizedEvent F) E) where
  events-KeepsSync : KeepsSync (events_lane {F = F} {E = E} {M = M} {S = S} c)
  unfolding events_lane on_upload_success
  events-KeepsSync env counts u h = h

module _ (F E M S : Type 0) (d : Codec (MetricPoint F) M) where
  metrics-KeepsSync : KeepsSync (metrics_lane {F = F} {E = E} {M = M} {S = S} d)
  unfolding metrics_lane on_metrics_success
  metrics-KeepsSync env counts u h = h

module _ {F E M S : Type 0} (c : Codec (NormalizedEvent F) E) (d : Codec (MetricPoint F) M) where
  step-InSync :
      (call : Call F) (s : Uploader × Queue E M S)
      → Saves call
      → InSync s.0
      → InSync (step c d call s).0
  unfolding step rotate_check_once reload_key_if_changed flush_once flush_metrics_once
  step-InSync (heartbeat env) (u, q) sv h = heartbeat-InSync env u (env.heartbeat u.key) refl sv h
  step-InSync (rotation_check env) (u, q) sv h = check_rotation-InSync env u.stored u sv h
  step-InSync (key_reload env) (u, q) sv h = reload-InSync u.stored u refl h
  step-InSync (auth_error env code) (u, q) sv h = handle_auth_error-InSync env code u sv h
  step-InSync (flush rounds) (u, q) sv h =
      left-InSync (flush_once c rounds u q)
        (flush_lane-InSync (events_lane c) (events-KeepsSync F E M S c) rounds u q sv h)
  step-InSync (flush_metrics rounds) (u, q) sv h =
      left-InSync (flush_metrics_once d rounds u q)
        (flush_lane-InSync (metrics_lane d) (metrics-KeepsSync F E M S d) rounds u q sv h)

  -- Through any sequence of heartbeats, rotation checks, reloads of the key, flushes of events and metrics, and
  -- 401s of other requests, each with its own answers of the backend, the key in use stays the collector key of
  -- the config file, where every save succeeds and the two were equal at first.
  pub run-InSync :
      (calls : List (Call F)) (s : Uploader × Queue E M S)
      → All Saves calls
      → InSync s.0
      → InSync (run c d calls s).0
  unfolding run
  run-InSync [] s saves h = h
  run-InSync (call ∷ calls) s (sv, saves) h =
      run-InSync calls (step c d call s) saves (step-InSync call s sv h)
