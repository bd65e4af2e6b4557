-- ===== src/Uploader/Heartbeat.antt =====
-- HeartbeatOnce and reloadKeyIfChanged (uploader.go), and the schedule of the inventory (inventory.go).
use desktop_client.Base.{
  ◌/◌, Bool, true, false, ◌||◌, Str, lit, str_eq, Option, none, some, ltb, if◌then◌else◌,
}
use desktop_client.Api.{Policy, second}
use desktop_client.Config.{Config}
use desktop_client.Counters
use desktop_client.Counters.{Registry}
use desktop_client.Uploader.State.{beats, unauthorized, unreachable, Env, Uploader}
use desktop_client.Uploader.Auth.{is_empty, mutate_config, enter_active, handle_auth_error}

-- inventory.go: applies a change of consent, and tells whether the inventory worker should run.
unfoldable pub schedule_inventory : Env → Bool → Uploader → Uploader × Bool
schedule_inventory env false u = (
  record u { inventory_cancel = false; inventory_running = false; inventory_next_attempt = 0 },
  false,
)
schedule_inventory env true u =
    if u.inventory_running || ltb env.now u.inventory_next_attempt
    then (u, false)
    else (record u { inventory_running = true }, true)

abbrev pub refresh_expiry : Option Str → Config → Config
refresh_expiry none c = c
refresh_expiry (some at) c = record c { key_expires_at = at }

abbrev pub refresh_config : Policy → Option Str → Config → Config
refresh_config policy expires c = refresh_expiry expires (
    if policy.inventory_enabled
    then record c { policy = policy }
    else record c { policy = policy; inventory_status = lit "disabled"; inventory_item_count = 0 })

-- The end of onHeartbeatOK: the stamp, the config file, and the trigger of the worker.
abbrev pub finish_heartbeat : Env → Policy → Option Str → Uploader × Bool → Uploader
finish_heartbeat env policy expires (scheduled, trigger) =
    let stamped = record scheduled {
      counters = Counters.set Counters.last_heartbeat_at (env.now / second) scheduled.counters;
    } in
    let persisted = mutate_config env (refresh_config policy expires) stamped in
    if trigger then record persisted { triggered = true } else persisted

unfoldable pub on_heartbeat_ok : Env → Policy → Option Str → Uploader → Uploader
unfolding enter_active schedule_inventory mutate_config
on_heartbeat_ok env policy expires u =
    let refreshed = record (enter_active env u) { policy = policy } in
    finish_heartbeat env policy expires (schedule_inventory env policy.inventory_enabled refreshed)

unfoldable pub heartbeat_once : Env → Uploader → Uploader
unfolding on_heartbeat_ok handle_auth_error
heartbeat_once env u = elim (env.heartbeat u.key) [
  | beats policy expires ↦ on_heartbeat_ok env policy expires u
  | unauthorized code ↦ handle_auth_error env code u
  | unreachable ↦ record u { counters = Counters.add Counters.heartbeat_errors 1 u.counters }
]

-- Picks up a key that a login wrote to the config file while the daemon ran.
abbrev pub reloaded : Option Config → Uploader → Uploader
reloaded none u = u
reloaded (some cfg) u =
    if is_empty cfg.collector_key || str_eq cfg.collector_key u.key
    then u
    else record u { key = cfg.collector_key }

unfoldable pub reload_key_if_changed : Uploader → Uploader
reload_key_if_changed u = reloaded u.stored u
