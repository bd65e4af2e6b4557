-- ===== src/Base/Words.antt =====
-- int64 as the bit pattern of its two's complement, a number below 2 ^ 64: the sum wraps round.
use Prim.Native.Nat.{ℕ, ◌+◌, ◌%◌, ◌<◌}
use mathlib.Core.Path.{◌≡◌}
use mathlib.Core.Option.{Option, none, some}
use native.Mathlib.Omega.{arith}
use mathlib.Core.Bool.{Bool}
use desktop_client.Base.Tests.{ltb}

abbrev pub two64 : ℕ
two64 = 0x1_0000_0000_0000_0000

abbrev pub two63 : ℕ
two63 = 0x8000_0000_0000_0000

-- `<` of int64.
unfoldable pub less64 : ℕ → ℕ → Bool
less64 a b = ltb ((a + two63) % two64) ((b + two63) % two64)

-- On numbers that are not negative it is that of ℕ.
pub less64_small : (a b : ℕ) → a < two63 → b < two63 → less64 a b ≡ ltb a b
unfolding less64
less64_small a b ha hb =
    let ea : (a + two63) % two64 ≡ a + two63 = omega (arith, ha) in
    let eb : (b + two63) % two64 ≡ b + two63 = omega (arith, hb) in rw (ea, eb) (ground (arith))

unfoldable pub add64 : ℕ → ℕ → ℕ
add64 a b = (a + b) % two64

-- A nil pointer counts as 0.
abbrev pub deref : Option ℕ → ℕ
deref none = 0
deref (some n) = n

pub add64-lt : (a b : ℕ) → add64 a b < two64
unfolding add64
add64-lt a b = omega arith

pub add64_assoc : (a b c : ℕ) → add64 (add64 a b) c ≡ add64 a (add64 b c)
unfolding add64
add64_assoc a b c = omega arith

pub add64_comm : (a b : ℕ) → add64 a b ≡ add64 b a
unfolding add64
add64_comm a b = omega arith
