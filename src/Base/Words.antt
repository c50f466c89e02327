-- ===== src/Base/Words.antt =====
-- Arithmetic of Rust's `u32` and `u128` in a release build: `+`, `-` and `*` wrap, and
-- `saturating_*` stops at the bounds.
use Prim.Native.Nat.{ℕ, ◌+◌, ◌-◌, ◌*◌, ◌%◌, ◌≤◌, ◌<◌, min}
use mathlib.Core.Path.{◌≡◌}
use native.Mathlib.Omega.{arith}

-- 2 ^ 32
abbrev pub u32_mod : ℕ
u32_mod = 4294967296

-- 2 ^ 64
abbrev pub u64_mod : ℕ
u64_mod = 18446744073709551616

-- 2 ^ 128
abbrev pub u128_mod : ℕ
u128_mod = 340282366920938463463374607431768211456

unfoldable pub add_u32 : ℕ → ℕ → ℕ
add_u32 a b = (a + b) % u32_mod

unfoldable pub sub_u32 : ℕ → ℕ → ℕ
sub_u32 a b = (a + u32_mod - b) % u32_mod

unfoldable pub mul_u32 : ℕ → ℕ → ℕ
mul_u32 a b = (a * b) % u32_mod

unfoldable pub add_u64 : ℕ → ℕ → ℕ
add_u64 a b = (a + b) % u64_mod

unfoldable pub add_u128 : ℕ → ℕ → ℕ
add_u128 a b = (a + b) % u128_mod

unfoldable pub sub_u128 : ℕ → ℕ → ℕ
sub_u128 a b = (a + u128_mod - b) % u128_mod

unfoldable pub saturating_add_u128 : ℕ → ℕ → ℕ
saturating_add_u128 a b = min (a + b) (u128_mod - 1)

unfoldable pub saturating_mul_u128 : ℕ → ℕ → ℕ
saturating_mul_u128 a b = min (a * b) (u128_mod - 1)

pub add_u32_exact : (a b : ℕ) → a + b < u32_mod → add_u32 a b ≡ a + b
unfolding add_u32
add_u32_exact a b h = omega arith

pub sub_u32_exact : (a b : ℕ) → b ≤ a → a < u32_mod → sub_u32 a b ≡ a - b
unfolding sub_u32
sub_u32_exact a b h k = omega arith

pub add_u64_exact : (a b : ℕ) → a + b < u64_mod → add_u64 a b ≡ a + b
unfolding add_u64
add_u64_exact a b h = omega arith

pub add_u128_exact : (a b : ℕ) → a + b < u128_mod → add_u128 a b ≡ a + b
unfolding add_u128
add_u128_exact a b h = omega arith

pub sub_u128_exact : (a b : ℕ) → b ≤ a → a < u128_mod → sub_u128 a b ≡ a - b
unfolding sub_u128
sub_u128_exact a b h k = omega arith

pub add_u128-lt : (a b : ℕ) → add_u128 a b < u128_mod
unfolding add_u128
add_u128-lt a b = omega arith

pub sub_u128-lt : (a b : ℕ) → sub_u128 a b < u128_mod
unfolding sub_u128
sub_u128-lt a b = omega arith

-- What `+=` wraps away, the matching `-=` brings back.
pub sub_u128-add : (a b : ℕ) → a < u128_mod → b < u128_mod → sub_u128 (add_u128 a b) b ≡ a
unfolding add_u128 sub_u128
sub_u128-add a b h k = omega arith
