-- ===== src/Base/Words.antt =====
-- Machine words: `uInt` is 32 bits wide, `uLong`, `size_t` and `std::uint64_t` are 64 bits wide.
use Prim.Native.Nat.{ℕ, ◌+◌, ◌-◌, ◌%◌, ◌^◌, ◌≤◌, ◌<◌}
use mathlib.Core.Path.{◌≡◌}
use native.Mathlib.Omega.{arith}

abbrev pub u32_mod : ℕ
u32_mod = 2 ^ 32

abbrev pub u64_mod : ℕ
u64_mod = 2 ^ 64

-- static_cast<uInt>(n)
unfoldable pub u32 : ℕ → ℕ
u32 n = n % u32_mod

-- a - b over std::uint64_t
unfoldable pub sub64 : ℕ → ℕ → ℕ
sub64 a b = (a + u64_mod - b) % u64_mod

pub u32-le : (n : ℕ) → u32 n ≤ n
unfolding u32
u32-le n = omega arith

pub u32-lt : (n : ℕ) → u32 n < u32_mod
unfolding u32
u32-lt n = omega arith

pub u32-eq_of_lt : (n : ℕ) → n < u32_mod → u32 n ≡ n
unfolding u32
u32-eq_of_lt n h = omega arith

-- A counter that wraps still tells how far it moved.
pub sub64-add : (t k : ℕ) → t < u64_mod → k < u64_mod → sub64 ((t + k) % u64_mod) t ≡ k
unfolding sub64
sub64-add t k ht hk = omega arith
