-- ===== src/Runtime/Word/Bounds.antt =====
-- Every operation on words gives a 64-bit pattern.
use native.Mathlib.Nat.{div-le_self}
use cem.Prelude.{ℕ, zero, suc, ◌/◌, ◌%◌, ◌^◌, ◌≤◌, ◌<◌, Bool, true, false, arith}
use cem.Runtime.Word.{
  is_negative, magnitude, with_sign, wrapping_add, wrapping_sub, wrapping_mul, wrapping_div,
  wrapping_rem, bnot_i64, checked_shl, checked_shr, ones, zeros_above, zeros_below, count_ones,
  leading_zeros, trailing_zeros, differ,
}

with_sign-lt : (negative : Bool) (m : ℕ) → with_sign negative m < 2 ^ 64
with_sign-lt true m = omega arith
with_sign-lt false m = omega arith

pub wrapping_add-lt : (a b : ℕ) → wrapping_add a b < 2 ^ 64
unfolding wrapping_add
wrapping_add-lt a b = omega arith

pub wrapping_sub-lt : (a b : ℕ) → wrapping_sub a b < 2 ^ 64
unfolding wrapping_sub
wrapping_sub-lt a b = omega arith

pub wrapping_mul-lt : (a b : ℕ) → wrapping_mul a b < 2 ^ 64
unfolding wrapping_mul
wrapping_mul-lt a b = omega arith

pub wrapping_div-lt : (a b : ℕ) → wrapping_div a b < 2 ^ 64
unfolding wrapping_div
wrapping_div-lt a b =
    with_sign-lt (differ (is_negative a) (is_negative b)) (magnitude a / magnitude b)

pub wrapping_rem-lt : (a b : ℕ) → wrapping_rem a b < 2 ^ 64
unfolding wrapping_rem
wrapping_rem-lt a b = with_sign-lt (is_negative a) (magnitude a % magnitude b)

pub bnot_i64-lt : (a : ℕ) → bnot_i64 a < 2 ^ 64
unfolding bnot_i64
bnot_i64-lt a = omega arith

pub checked_shl-lt : (v c : ℕ) → checked_shl v c < 2 ^ 64
unfolding checked_shl
checked_shl-lt v c = ground arith

pub checked_shr-lt : (v c : ℕ) → v < 2 ^ 64 → checked_shr v c < 2 ^ 64
unfolding checked_shr
checked_shr-lt v c h = ground (arith, div-le_self v (2 ^ c))

ones-le : (k v : ℕ) → ones k v ≤ k
unfolding ones
ones-le zero v = omega arith
ones-le (suc k) v = omega (arith, ones-le k (v / 2))

zeros_above-le : (k v : ℕ) → zeros_above k v ≤ k
unfolding zeros_above
zeros_above-le zero v = omega arith
zeros_above-le (suc k) v = ground (arith, zeros_above-le k v)

zeros_below-le : (k v : ℕ) → zeros_below k v ≤ k
unfolding zeros_below
zeros_below-le zero v = omega arith
zeros_below-le (suc k) v = ground (arith, zeros_below-le k (v / 2))

pub count_ones-le : (v : ℕ) → count_ones v ≤ 64
unfolding count_ones
count_ones-le v = ones-le 64 v

pub leading_zeros-le : (v : ℕ) → leading_zeros v ≤ 64
unfolding leading_zeros
leading_zeros-le v = zeros_above-le 64 v

pub trailing_zeros-le : (v : ℕ) → trailing_zeros v ≤ 64
unfolding trailing_zeros
trailing_zeros-le v = zeros_below-le 64 v
