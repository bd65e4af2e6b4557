-- ===== src/Uploader/Backoff.antt =====
-- The backoff between flushes and the delay of a cycle (uploader.go). A duration is the bit
-- pattern of an int64.
use desktop_client.Base.{ℕ, ◌*◌, ◌%◌, ◌==◌, if◌then◌else◌}
use desktop_client.Base.Words.{two64, less64}
use desktop_client.Api.{flush_interval}
use desktop_client.Uploader.State.{
  Mode, active, degraded, max_backoff, degraded_probe_interval, Uploader,
}

unfoldable pub on_flush_success : Uploader → Uploader
on_flush_success u = record u { backoff = 0 }

unfoldable pub widen_backoff : Uploader → Uploader
widen_backoff u =
    let base = flush_interval u.policy in
    let from = if u.backoff == 0 then base else u.backoff in
    let wide = from * 2 % two64 in
    record u { backoff = if less64 max_backoff wide then max_backoff else wide }

unfoldable pub flush_delay : Uploader → ℕ
flush_delay u =
    let base = flush_interval u.policy in if less64 base u.backoff then u.backoff else base

abbrev delay_in : Mode → Uploader → ℕ
delay_in degraded u = degraded_probe_interval
delay_in active u = flush_delay u

unfoldable pub cycle_delay : Uploader → ℕ
unfolding flush_delay
cycle_delay u = delay_in u.mode u
