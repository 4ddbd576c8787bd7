-- ===== src/Runtime/Word/Laws.antt =====
-- The operations on words stay within 64 bits and mean what they say on signed integers.
use cem.Prelude.{
  ℕ, zero, suc, ◌+◌, ◌-◌, ◌/◌, ◌%◌, ◌^◌, ◌<◌, ◌≡◌, min, max, refl, leb, arith, Bool-cases, inl, inr,
  leb-false,
}
use native.Mathlib.Nat.{pow-suc, suc-sub-suc, sub-zero}
use cem.Prelude.Int.{pos, negsuc, ◌+ℤ◌, ◌-ℤ◌, ◌≤ℤ◌}
use cem.Runtime.Word.{
  signed, wrapping_add, wrapping_sub, bitwise, bnot_i64, ones, zeros_above, xor_digit, band_i64,
  bor_i64, bxor_i64,
}

-- Where the true sum is an i64, the wrapping sum is it.
pub signed-wrapping_add :
    (a b : ℕ)
    → a < 2 ^ 64
    → b < 2 ^ 64
    → negsuc (2 ^ 63 - 1) ≤ℤ signed a +ℤ signed b
    → signed a +ℤ signed b ≤ℤ pos (2 ^ 63 - 1)
    → signed (wrapping_add a b) ≡ signed a +ℤ signed b
unfolding wrapping_add ◌+ℤ◌
signed-wrapping_add a b ha hb lo hi = ground arith

pub signed-wrapping_sub :
    (a b : ℕ)
    → a < 2 ^ 64
    → b < 2 ^ 64
    → negsuc (2 ^ 63 - 1) ≤ℤ signed a -ℤ signed b
    → signed a -ℤ signed b ≤ℤ pos (2 ^ 63 - 1)
    → signed (wrapping_sub a b) ≡ signed a -ℤ signed b
unfolding wrapping_sub ◌-ℤ◌
signed-wrapping_sub a b ha hb lo hi = ground arith

pub signed-bnot : (a : ℕ) → a < 2 ^ 64 → signed (bnot_i64 a) ≡ negsuc 0 -ℤ signed a
unfolding bnot_i64 ◌-ℤ◌
signed-bnot a h = ground arith

bitwise-lt :
    (k : ℕ) (digit : ℕ → ℕ → ℕ) (a b : ℕ)
    → ((x y : ℕ) → x < 2 → y < 2 → digit x y < 2)
    → bitwise k digit a b < 2 ^ k
unfolding bitwise
bitwise-lt zero digit a b h = omega arith
bitwise-lt (suc k) digit a b h = omega (
  arith,
  pow-suc 2 k,
  h (a % 2) (b % 2) (omega arith) (omega arith),
  bitwise-lt k digit (a / 2) (b / 2) h,
)

pub band_i64-lt : (a b : ℕ) → band_i64 a b < 2 ^ 64
unfolding band_i64
band_i64-lt a b = bitwise-lt 64 min a b (λ x y p q. omega arith)

pub bor_i64-lt : (a b : ℕ) → bor_i64 a b < 2 ^ 64
unfolding bor_i64
bor_i64-lt a b = bitwise-lt 64 max a b (λ x y p q. omega arith)

pub bxor_i64-lt : (a b : ℕ) → bxor_i64 a b < 2 ^ 64
unfolding bxor_i64
bxor_i64-lt a b = bitwise-lt 64 xor_digit a b (λ x y p q. omega arith)

pub ones-complement : (k v : ℕ) → v < 2 ^ k → ones k v + ones k (2 ^ k - 1 - v) ≡ k
unfolding ones
ones-complement zero v h = refl
ones-complement (suc k) v h =
    let halved : (2 ^ suc k - 1 - v) / 2 ≡ 2 ^ k - 1 - v / 2 = omega (arith, pow-suc 2 k) in
    rw halved (omega (arith, pow-suc 2 k, ones-complement k (v / 2) (omega (arith, pow-suc 2 k))))

pub zeros_above-lt : (k v : ℕ) → v < 2 ^ k → v < 2 ^ (k - zeros_above k v)
unfolding zeros_above
zeros_above-lt zero v h = h
zeros_above-lt (suc k) v h = elim (Bool-cases (leb (2 ^ k) v)) [
  | inl top ↦ rw (top, sub-zero) h
  | inr below ↦ rw below (rw suc-sub-suc (zeros_above-lt k v (leb-false (2 ^ k) v below)))
]
