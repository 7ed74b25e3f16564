-- ===== src/Base/Int.antt =====
-- Signed integers over the native numbers (the library's ℤ stands on the unary ℕ), and `i64`.
use Prim.Native.Nat.{ℕ, suc, ◌+◌, ◌-◌, ◌%◌, ◌≤◌, ◌<◌}
use mathlib.Core.Path.{◌≡◌}
use mathlib.Core.Bool.{Bool}
use native.Mathlib.Omega.{arith}
use kube_hardware_autoscaler.Base.Tests.{ltb, leb, ◌==◌, if◌then◌else◌}

-- `negsuc n` is -(n + 1).
pub data ℤ : Type 0 where
  pos : ℕ → ℤ
  negsuc : ℕ → ℤ

abbrev pub pos_part : ℤ → ℕ
pos_part (pos n) = n
pos_part (negsuc n) = 0

abbrev pub neg_part : ℤ → ℕ
neg_part (pos n) = 0
neg_part (negsuc n) = suc n

-- a - b, as an integer.
abbrev pub sub_ℕ : ℕ → ℕ → ℤ
sub_ℕ a b = if leb b a then pos (a - b) else negsuc (b - a - 1)

infix 50 ◌≤ℤ◌ ◌<ℤ◌
abbrev pub ◌≤ℤ◌ : ℤ → ℤ → Type 0
a ≤ℤ b = pos_part a + neg_part b ≤ pos_part b + neg_part a

abbrev pub ◌<ℤ◌ : ℤ → ℤ → Type 0
a <ℤ b = pos_part a + neg_part b < pos_part b + neg_part a

abbrev pub ltb_ℤ : ℤ → ℤ → Bool
ltb_ℤ a b = ltb (pos_part a + neg_part b) (pos_part b + neg_part a)

abbrev pub leb_ℤ : ℤ → ℤ → Bool
leb_ℤ a b = leb (pos_part a + neg_part b) (pos_part b + neg_part a)

abbrev pub eqb_ℤ : ℤ → ℤ → Bool
eqb_ℤ a b = (pos_part a + neg_part b) == (pos_part b + neg_part a)

abbrev pub min_ℤ : ℤ → ℤ → ℤ
min_ℤ a b = if leb_ℤ a b then a else b

abbrev pub max_ℤ : ℤ → ℤ → ℤ
max_ℤ a b = if leb_ℤ a b then b else a

-- 2^63 and 2^64.
abbrev pub half_i64 : ℕ
half_i64 = 9223372036854775808

abbrev pub mod_i64 : ℕ
mod_i64 = 18446744073709551616

-- `i64::MAX`.
abbrev pub max_i64 : ℤ
max_i64 = pos 9223372036854775807

-- The value of a 64-bit pattern below 2^64, read as `i64`; `x as i64` for a `u64` x.
unfoldable pub as_i64 : ℕ → ℤ
as_i64 n =
    if ltb (n % mod_i64) half_i64 then pos (n % mod_i64) else negsuc (mod_i64 - n % mod_i64 - 1)

-- `a - b` and `a + b` on `i64`, wrapping around.
unfoldable pub ◌-ℤ◌ : ℤ → ℤ → ℤ
unfolding as_i64

infixl 65 ◌-ℤ◌ ◌+ℤ◌
a -ℤ b = as_i64 (pos_part a + neg_part b + (mod_i64 - (pos_part b + neg_part a) % mod_i64))

unfoldable pub ◌+ℤ◌ : ℤ → ℤ → ℤ
unfolding as_i64
a +ℤ b = as_i64 (pos_part a + pos_part b + (mod_i64 - (neg_part a + neg_part b) % mod_i64))

pub as_i64_small : (n : ℕ) → n < half_i64 → as_i64 n ≡ pos n
unfolding as_i64
as_i64_small n h = ground arith

-- Where a number of the range of `i64` is taken from one that is not smaller, nothing wraps.
pub -ℤ_exact : (a b : ℕ) → b ≤ a → a < half_i64 → pos a -ℤ pos b ≡ pos (a - b)
unfolding ◌-ℤ◌
-ℤ_exact a b h k = ground arith

pub +ℤ_exact : (a b : ℕ) → a + b < half_i64 → pos a +ℤ pos b ≡ pos (a + b)
unfolding ◌+ℤ◌
+ℤ_exact a b h = ground arith
