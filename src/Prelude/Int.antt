-- ===== src/Prelude/Int.antt =====
-- Python's unbounded integers, over the native numbers.
use Prim.Native.Nat.{ℕ, zero, suc, ◌-◌, ◌*◌, ◌^◌}
use mathlib.Core.Bool.{Bool, true, false}
use embediq_cloud.Prelude.Tests.{ltb, leb, nat_eq}

-- `negsuc n` is -(n + 1).
pub data ℤ : Type 0 where
  pos : ℕ → ℤ
  negsuc : ℕ → ℤ

abbrev pub eq_ℤ : ℤ → ℤ → Bool
eq_ℤ (pos a) (pos b) = nat_eq a b
eq_ℤ (negsuc a) (negsuc b) = nat_eq a b
eq_ℤ _ _ = false

abbrev pub negate : ℕ → ℤ
negate zero = pos 0
negate (suc n) = negsuc n

-- `a <= b`
abbrev pub leb_ℤ : ℤ → ℤ → Bool
leb_ℤ (pos a) (pos b) = leb a b
leb_ℤ (pos a) (negsuc b) = false
leb_ℤ (negsuc a) (pos b) = true
leb_ℤ (negsuc a) (negsuc b) = leb b a

-- a * 2^k
abbrev pub scale : ℤ → ℕ → ℤ
scale (pos a) k = pos (a * 2 ^ k)
scale (negsuc a) k = negsuc (suc a * 2 ^ k - 1)

abbrev pub is_zero : ℤ → Bool
is_zero (pos a) = nat_eq a 0
is_zero (negsuc a) = false

-- the range of a signed 64-bit integer
abbrev pub fits_int64 : ℤ → Bool
fits_int64 (pos a) = ltb a (2 ^ 63)
fits_int64 (negsuc a) = ltb a (2 ^ 63)
