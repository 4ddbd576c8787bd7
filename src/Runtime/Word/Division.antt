-- ===== src/Runtime/Word/Division.antt =====
-- Division towards zero and its remainder, on words.
use native.Mathlib.Nat.{div-add-mod, mod-lt, div-le_self, le_trans}
use native.Mathlib.Decide.{dec_lt}
use cem.Prelude.{
  ℕ, zero, suc, ◌+◌, ◌-◌, ◌*◌, ◌/◌, ◌%◌, ◌^◌, ◌≤◌, ◌<◌, ◌≡◌, ◌≢◌, ◌⊎◌, inl, inr, sym, Bool, true,
  arith,
}
use cem.Runtime.Word.{is_negative, magnitude, with_sign, differ, wrapping_div, wrapping_rem}

-- A magnitude of at most 2 ^ 63 can be read back from either signed pattern, and the sign too,
-- unless the pattern of + 2 ^ 63 was meant.
module _ (m : ℕ) (h : m ≤ 2 ^ 63) where
  magnitude-with_sign : (negative : Bool) → magnitude (with_sign negative m) ≡ m
  magnitude-with_sign negative = ground arith

  is_negative-with_sign :
      (negative : Bool)
      → 0 < m
      → (m < 2 ^ 63) ⊎ (negative ≡ true)
      → is_negative (with_sign negative m) ≡ negative
  is_negative-with_sign negative positive room = ground arith

magnitude-le : (a : ℕ) → a < 2 ^ 64 → magnitude a ≤ 2 ^ 63
magnitude-le a h = ground arith

magnitude_pos : (b : ℕ) → b < 2 ^ 64 → b ≢ 0 → 0 < magnitude b
magnitude_pos b h n = ground arith

full_quotient :
    (x y q r : ℕ) → x ≤ 2 ^ 63 → 0 < y → y * q + r ≡ x → 2 ^ 63 ≤ q → (x ≡ 2 ^ 63) × (y ≡ 1)
full_quotient x zero q r hx hy e hq = absurd (omega arith)
full_quotient x (suc zero) q r hx hy e hq = omega arith
full_quotient x (suc (suc y)) q r hx hy e hq = absurd (grind arith)

signs_differ :
    (a b : ℕ)
    → a < 2 ^ 64
    → b < 2 ^ 64
    → (a ≢ 2 ^ 63) ⊎ (b ≢ 2 ^ 64 - 1)
    → (magnitude a ≡ 2 ^ 63) × (magnitude b ≡ 1)
    → differ (is_negative a) (is_negative b) ≡ true
signs_differ a b ha hb in_range e = ground arith

module _ (a b : ℕ) (ha : a < 2 ^ 64) (hb : b < 2 ^ 64) (nonzero : b ≢ 0) where
  quotient-le : magnitude a / magnitude b ≤ 2 ^ 63
  quotient-le = le_trans (div-le_self (magnitude a) (magnitude b)) (magnitude-le a ha)

  remainder-lt : magnitude a % magnitude b < magnitude b
  remainder-lt = mod-lt (magnitude a) (magnitude_pos b hb nonzero)

  remainder-le : magnitude a % magnitude b ≤ 2 ^ 63
  remainder-le = omega (arith, remainder-lt, magnitude-le b hb)

  divisor_is_one : 2 ^ 63 ≤ magnitude a / magnitude b → (magnitude a ≡ 2 ^ 63) × (magnitude b ≡ 1)
  divisor_is_one large =
      full_quotient (magnitude a) (magnitude b) (magnitude a / magnitude b)
        (magnitude a % magnitude b) (magnitude-le a ha) (magnitude_pos b hb nonzero)
        (div-add-mod (magnitude a) (magnitude b)) large

  quotient_room :
      (a ≢ 2 ^ 63) ⊎ (b ≢ 2 ^ 64 - 1)
      → (magnitude a / magnitude b < 2 ^ 63) ⊎ (differ (is_negative a) (is_negative b) ≡ true)
  quotient_room in_range = elim (dec_lt (magnitude a / magnitude b) (2 ^ 63)) [
    | yes small ↦ inl small
    | no large ↦ inr (signs_differ a b ha hb in_range (divisor_is_one (omega arith)))
  ]

  -- Quotient and remainder make up the dividend, in magnitude, and the remainder is the smaller one.
  pub div_rem_magnitudes :
      (magnitude a ≡ magnitude b * magnitude (wrapping_div a b) + magnitude (wrapping_rem a b))
      × (magnitude (wrapping_rem a b) < magnitude b)
  unfolding wrapping_div wrapping_rem
  div_rem_magnitudes =
      rw
        (
          magnitude-with_sign (magnitude a / magnitude b) quotient-le,
          magnitude-with_sign (magnitude a % magnitude b) remainder-le,
        )
        (sym (div-add-mod (magnitude a) (magnitude b)), remainder-lt)

  -- A remainder that is not 0 has the sign of the dividend.
  pub is_negative-rem :
      0 < magnitude (wrapping_rem a b) → is_negative (wrapping_rem a b) ≡ is_negative a
  unfolding wrapping_rem
  is_negative-rem positive =
      let sign = is_negative-with_sign (magnitude a % magnitude b) remainder-le (is_negative a) in
      sign (rw (magnitude-with_sign (magnitude a % magnitude b) remainder-le) at positive)
        (inl (omega (arith, remainder-lt, magnitude-le b hb)))

  -- A quotient that is not 0 is negative exactly when the signs differ, but for i64::MIN / -1.
  pub is_negative-div :
      (a ≢ 2 ^ 63) ⊎ (b ≢ 2 ^ 64 - 1)
      → 0 < magnitude (wrapping_div a b)
      → is_negative (wrapping_div a b) ≡ differ (is_negative a) (is_negative b)
  unfolding wrapping_div
  is_negative-div in_range positive =
      let sign =
        is_negative-with_sign (magnitude a / magnitude b) quotient-le
          (differ (is_negative a) (is_negative b)) in
      sign (rw (magnitude-with_sign (magnitude a / magnitude b) quotient-le) at positive)
        (quotient_room in_range)
