-- ===== src/Runtime/Arithmetic/Laws.antt =====
-- What the arithmetic operations leave on the stack.
use cem.Prelude.{
  ℕ, ◌+◌, ◌-◌, ◌*◌, ◌^◌, ◌≤◌, ◌<◌, ◌≡◌, ◌≢◌, ◌⊎◌, refl, Bool, true, false, ◌==◌, arith, ◌∷◌,
  if◌then◌else◌,
}
use cem.Prelude.Int.{ltb_ℤ}
use cem.Runtime.Value.{int, bool}
use cem.Runtime.Word.{
  signed, magnitude, is_negative, differ, wrapping_div, wrapping_rem, lt_i64, checked_shl, bnot_i64,
  count_ones, ones,
}
use cem.Runtime.Word.Laws.{ones-complement}
use cem.Runtime.Word.Division.{div_rem_magnitudes, is_negative-rem, is_negative-div}
use cem.Runtime.Stack.{Stack, Run, done}
use cem.Runtime.Arithmetic.{divide, modulo, eq, lt, gt, lte, gte, neq, shl, popcount}

-- Division by zero is a value: 0 and false.
pub divide_by_zero :
    (a : ℕ) (rest : Stack)
    → (divide (int 0 ∷ int a ∷ rest) ≡ done (bool false ∷ int 0 ∷ rest))
      × (modulo (int 0 ∷ int a ∷ rest) ≡ done (bool false ∷ int 0 ∷ rest))
unfolding divide modulo
divide_by_zero a rest = (refl, refl)

-- What `divide` and `modulo` leave for a nonzero divisor: the quotient q truncated towards zero and
-- the remainder r. In magnitude a is b times q and r, and r is below b; r has the sign of a, and q is
-- negative when the signs of a and b differ, but for i64::MIN / -1.
pub record Truncated (a b q r : ℕ) : Type 0 where
  pub product : magnitude a ≡ magnitude b * magnitude q + magnitude r
  pub smaller : magnitude r < magnitude b
  pub sign_of_remainder : 0 < magnitude r → is_negative r ≡ is_negative a
  pub sign_of_quotient :
      (a ≢ 2 ^ 63) ⊎ (b ≢ 2 ^ 64 - 1)
      → 0 < magnitude q
      → is_negative q ≡ differ (is_negative a) (is_negative b)

-- On two 64-bit integers with a nonzero divisor `divide` and `modulo` report success and leave a
-- quotient and a remainder that belong together.
pub divide-modulo_truncate :
    (a b : ℕ) (rest : Stack)
    → a < 2 ^ 64
    → b < 2 ^ 64
    → b ≢ 0
    → (q : ℕ) × (r : ℕ) × (divide (int b ∷ int a ∷ rest) ≡ done (bool true ∷ int q ∷ rest))
      × (modulo (int b ∷ int a ∷ rest) ≡ done (bool true ∷ int r ∷ rest))
      × Truncated a b q r
unfolding divide modulo
divide-modulo_truncate a b rest ha hb nonzero =
    let (product, smaller) = div_rem_magnitudes a b ha hb nonzero in
    (
      wrapping_div a b,
      wrapping_rem a b,
      ground arith,
      ground arith,
      record {
        product = product;
        smaller = smaller;
        sign_of_remainder = is_negative-rem a b ha hb nonzero;
        sign_of_quotient = is_negative-div a b ha hb nonzero;
      },
    )

-- `i64::MIN / -1` wraps to i64::MIN, with remainder 0.
pub divide_min_by_minus_one :
    (rest : Stack)
    → (divide (int (2 ^ 64 - 1) ∷ int (2 ^ 63) ∷ rest) ≡ done (bool true ∷ int (2 ^ 63) ∷ rest))
      × (modulo (int (2 ^ 64 - 1) ∷ int (2 ^ 63) ∷ rest) ≡ done (bool true ∷ int 0 ∷ rest))
unfolding divide modulo wrapping_div wrapping_rem
divide_min_by_minus_one rest = (refl, refl)

-- The six comparisons decide one order.
pub data Order : Type 0 where
  less equal greater : Order

abbrev pub order : ℕ → ℕ → Order
order a b = if a == b then equal else if ltb_ℤ (signed a) (signed b) then less else greater

abbrev pub holds : (Order → Bool) → ℕ → ℕ → Stack → Run Stack
holds test a b rest = done (bool (test (order a b)) ∷ rest)

pub record Comparisons (a b : ℕ) (rest : Stack) : Type 0 where
  pub eq_lem : eq (int b ∷ int a ∷ rest) ≡ holds (elim [ equal ↦ true | _ ↦ false ]) a b rest
  pub neq_lem : neq (int b ∷ int a ∷ rest) ≡ holds (elim [ equal ↦ false | _ ↦ true ]) a b rest
  pub lt_lem : lt (int b ∷ int a ∷ rest) ≡ holds (elim [ less ↦ true | _ ↦ false ]) a b rest
  pub gte_lem : gte (int b ∷ int a ∷ rest) ≡ holds (elim [ less ↦ false | _ ↦ true ]) a b rest
  pub gt_lem : gt (int b ∷ int a ∷ rest) ≡ holds (elim [ greater ↦ true | _ ↦ false ]) a b rest
  pub lte_lem : lte (int b ∷ int a ∷ rest) ≡ holds (elim [ greater ↦ false | _ ↦ true ]) a b rest

-- On two 64-bit integers the six comparisons push what the order of the signed values says: exactly
-- one of less, equal and greater holds.
pub comparisons_lem : (a b : ℕ) (rest : Stack) → a < 2 ^ 64 → b < 2 ^ 64 → Comparisons a b rest
unfolding eq neq lt gte gt lte lt_i64
comparisons_lem a b rest ha hb = record {
  eq_lem = ground arith;
  neq_lem = ground arith;
  lt_lem = ground arith;
  gte_lem = ground arith;
  gt_lem = ground arith;
  lte_lem = ground arith;
}

-- A shift count is cut to 32 bits before it is compared with 64: a count from 64 to 2 ^ 32 gives 0.
pub shl_large :
    (v c : ℕ) (rest : Stack)
    → 64 ≤ c
    → c < 2 ^ 32
    → shl (int c ∷ int v ∷ rest) ≡ done (int 0 ∷ rest)
unfolding shl checked_shl
shl_large v c rest lo hi = ground arith

-- With a positive count that is a multiple of 2 ^ 32, far above 64, `shl` leaves the value as it is.
pub shl_truncates_count :
    (v k : ℕ) (rest : Stack)
    → v < 2 ^ 64
    → k < 2 ^ 31
    → shl (int (k * 2 ^ 32) ∷ int v ∷ rest) ≡ done (int v ∷ rest)
unfolding shl checked_shl
shl_truncates_count v k rest hv hk = ground arith

-- Of the 64 bits of a word, those that `popcount` does not count it counts in the complement.
pub popcount_bnot :
    (v : ℕ) (rest : Stack)
    → v < 2 ^ 64
    → (n : ℕ) × (popcount (int v ∷ rest) ≡ done (int n ∷ rest))
      × (popcount (int (bnot_i64 v) ∷ rest) ≡ done (int (64 - n) ∷ rest))
      × (n ≤ 64)
unfolding popcount count_ones bnot_i64
popcount_bnot v rest h =
    let rest_of_64 : ones 64 (2 ^ 64 - 1 - v) ≡ 64 - ones 64 v =
      omega (arith, ones-complement 64 v h) in
    (ones 64 v, refl, rw rest_of_64 refl, omega (arith, ones-complement 64 v h))
