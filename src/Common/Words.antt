-- ===== src/Common/Words.antt =====
-- Unsigned machine words: `uint32_t` and `uint64_t` (also `size_t`) wrap around.
use Prim.Native.Nat.{ℕ, ◌+◌, ◌-◌, ◌%◌, ◌^◌, ◌≤◌, ◌<◌}
use mathlib.Core.Path.{◌≡◌}
use native.Mathlib.Omega.{arith}

abbrev pub two32 : ℕ
two32 = 2 ^ 32

abbrev pub two64 : ℕ
two64 = 2 ^ 64

unfoldable pub u32 : ℕ → ℕ
u32 x = x % two32

unfoldable pub u64 : ℕ → ℕ
u64 x = x % two64

-- a - b in 64-bit arithmetic.
unfoldable pub sub64 : ℕ → ℕ → ℕ
unfolding u64
sub64 a b = (a + (two64 - b % two64)) % two64

pub u32-eq_of_lt : (x : ℕ) → x < two32 → u32 x ≡ x
unfolding u32
u32-eq_of_lt x h = omega arith

pub u64-eq_of_lt : (x : ℕ) → x < two64 → u64 x ≡ x
unfolding u64
u64-eq_of_lt x h = omega arith

pub u64-lt : (x : ℕ) → u64 x < two64
unfolding u64
u64-lt x = omega arith

pub sub64-eq : (a b : ℕ) → b ≤ a → a < two64 → sub64 a b ≡ a - b
unfolding sub64
sub64-eq a b h k = omega arith
