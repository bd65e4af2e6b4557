-- ===== src/Uploader/Widening.antt =====
-- How the backoff grows with the calls of widenBackoff (uploader.go) that no success comes between.
use desktop_client.Base.{
  ℕ, zero, suc, sym, ◌∙◌, ◌*◌, ◌%◌, ◌^◌, ◌<◌, ◌≤◌, ◌≡◌, refl, min, max, arith, ◌==◌, if◌then◌else◌,
}
use native.Mathlib.Nat.{pow-suc, mul_assoc}
use desktop_client.Base.Words.{two64, less64_small}
use desktop_client.Api.{second, flush_interval}
use desktop_client.Uploader.State.{max_backoff, Uploader}
use desktop_client.Uploader.Backoff.{widen_backoff, flush_delay}

-- n calls of widenBackoff, one after the other
abbrev pub widened : ℕ → Uploader → Uploader
widened zero u = u
widened (suc n) u = widen_backoff (widened n u)

widened-policy : (n : ℕ) (u : Uploader) → (widened n u).policy ≡ u.policy
unfolding widen_backoff
widened-policy zero u = refl
widened-policy (suc n) u = widened-policy n u

-- The seconds for which the duration and its double are below 2 ^ 63.
abbrev pub ShortInterval : Uploader → Type 0
ShortInterval u = u.policy.flush_interval_seconds ≤ 4611686018

interval-bounds :
    (u : Uploader)
    → ShortInterval u
    → (0 < flush_interval u.policy) × (flush_interval u.policy ≤ 4611686018 * second)
unfolding flush_interval
interval-bounds u h = ground (arith, h)

-- One call doubles what there was, the flush interval at first, up to the cap.
widen_backoff_value :
    (u : Uploader) (base : ℕ)
    → flush_interval u.policy ≡ base
    → base ≤ 4611686018 * second
    → u.backoff ≤ max_backoff
    → (widen_backoff u).backoff ≡ min max_backoff ((if u.backoff == 0 then base else u.backoff) * 2)
unfolding widen_backoff
widen_backoff_value u base h short low =
    let from : ℕ = if u.backoff == 0 then base else u.backoff in
    let bound : from ≤ 4611686018 * second = ground (arith, short, low) in
    let wide : from * 2 % two64 ≡ from * 2 = omega (arith, bound) in
    let less = less64_small max_backoff (from * 2) (omega arith) (omega (arith, bound)) in
    rw (h, wide, less) (ground (arith))

doubled :
    (base q b : ℕ)
    → 0 < q
    → b ≡ min max_backoff q
    → min max_backoff ((if b == 0 then base else b) * 2) ≡ min max_backoff (q * 2)
doubled base q b hq e = ground (arith)

power_double : (a n : ℕ) → a * 2 ^ suc n ≡ a * 2 ^ n * 2
power_double a n = rw (pow-suc 2 n) (sym (mul_assoc a (2 ^ n) 2))

power-pos : (a n : ℕ) → 0 < a → 0 < a * 2 ^ n
power-pos a zero h = omega arith
power-pos a (suc n) h = let e = power_double a n in let r = power-pos a n h in omega arith

widened-backoff :
    (n : ℕ) (u : Uploader)
    → ShortInterval u
    → u.backoff ≡ 0
    → (widened (suc n) u).backoff ≡ min max_backoff (flush_interval u.policy * 2 ^ suc n)
widened-backoff zero u short h =
    let (pos, bound) = interval-bounds u short in
    let e = widen_backoff_value u (flush_interval u.policy) refl bound (omega (arith, h)) in
    ground (arith)
widened-backoff (suc n) u short h =
    let base = flush_interval u.policy in
    let (positive, bound) = interval-bounds u short in
    let last = widened (suc n) u in
    let b = widened-backoff n u short h in
    let pos = power-pos base (suc n) positive in
    let step =
      widen_backoff_value last base (rw (widened-policy (suc n) u) refl) bound (omega (arith, b)) in
    rw (power_double base (suc n)) (step ∙ doubled base (base * 2 ^ suc n) last.backoff pos b)

-- After n + 1 calls of widenBackoff with no success between them, from a backoff of 0, the backoff is the
-- flush interval times 2 ^ (n + 1), at most max_backoff, and the delay of the next flush is the larger of that
-- and the interval, for a flush interval of at most 4611686018 seconds, above which its double wraps.
pub widen_backoff_doubles :
    (n : ℕ) (u : Uploader)
    → u.policy.flush_interval_seconds ≤ 4611686018
    → u.backoff ≡ 0
    → ((widened (suc n) u).backoff ≡ min max_backoff (flush_interval u.policy * 2 ^ suc n))
      × (flush_delay (widened (suc n) u)
          ≡ max (flush_interval u.policy) (min max_backoff (flush_interval u.policy * 2 ^ suc n)))
unfolding flush_delay
widen_backoff_doubles n u short h =
    let base = flush_interval u.policy in
    let e = widened-backoff n u short h in
    let p = widened-policy (suc n) u in
    let (pos, bound) = interval-bounds u short in
    let backoff : ℕ = min max_backoff (base * 2 ^ suc n) in
    let less = less64_small base backoff (omega (arith, bound)) (omega arith) in
    (e, rw (p, e) (rw less (ground (arith))))
