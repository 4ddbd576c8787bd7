-- ===== src/Runtime/Stack/Roll.antt =====
-- `pick` and `roll` with an index.
use mathlib.Core.List.{Perm}
use mathlib.Core.List.Perm
use cem.Prelude.{
  ℕ, zero, suc, ◌^◌, ◌≤◌, ◌<◌, ◌≡◌, refl, ◌⊎◌, arith, [], ◌∷◌, ◌++◌, some, leb, length, take, drop,
  get_elem?, false,
}
use cem.Runtime.Value.{Value, int}
use cem.Runtime.Word.{is_negative}
use cem.Runtime.Stack.{Stack, done, flagged, undefined, exceeds_depth, swap, rot, pick, roll}

get_elem?-lt : (sp : Stack) (n : ℕ) → n < length sp → (x : Value) × (get_elem? sp n ≡ some x)
get_elem?-lt [] n h = absurd (omega arith)
get_elem?-lt (x ∷ sp) zero h = (x, refl)
get_elem?-lt (x ∷ sp) (suc n) h = get_elem?-lt sp n (omega arith)

-- An index that a stack can hold a value at is not negative.
moved-perm :
    (n : ℕ) (sp : Stack) {x : Value}
    → get_elem? sp n ≡ some x
    → Perm (x ∷ take n sp ++ drop (suc n) sp) sp
moved-perm n [] h = cc
moved-perm zero (a ∷ s) {x} h = let e : a ≡ x = cc in rw e (Perm.refl (x ∷ s))
moved-perm (suc n) (a ∷ s) {x} h =
    Perm.trans (Perm.swap a x (take n s ++ drop (suc n) s)) (Perm.cons a (moved-perm n s h))

module _ (n : ℕ) (sp : Stack) (small : length sp ≤ 2 ^ 63) (inside : n < length sp) where
  not_negative : is_negative n ≡ false
  not_negative = ground arith

  within : leb (length sp) n ≡ false
  within = ground arith

  -- With an index n below the depth of a stack of at most 2 ^ 63 values, `pick` copies the value at
  -- depth n to the top.
  pub pick_lem : (x : Value) × (get_elem? sp n ≡ some x) × (pick (int n ∷ sp) ≡ done (x ∷ sp))
  unfolding pick
  pick_lem =
      let (x, found) = get_elem?-lt sp n inside in (x, found, rw (not_negative, within, found))

roll_general :
    (n : ℕ) (sp : Stack) {x : Value}
    → is_negative n ≡ false
    → leb (length sp) n ≡ false
    → get_elem? sp n ≡ some x
    → roll (int n ∷ sp) ≡ done (x ∷ take n sp ++ drop (suc n) sp)
unfolding roll swap rot
roll_general zero (a ∷ s) pos inside found = ground arith
roll_general (suc zero) (b ∷ a ∷ s) pos inside found = ground arith
roll_general (suc (suc zero)) (c ∷ b ∷ a ∷ s) pos inside found = ground arith
roll_general (suc (suc (suc n))) sp pos inside found = ground arith
roll_general zero [] pos inside found = cc
roll_general (suc zero) [] pos inside found = cc
roll_general (suc zero) (b ∷ []) pos inside found = cc
roll_general (suc (suc zero)) [] pos inside found = cc
roll_general (suc (suc zero)) (c ∷ []) pos inside found = cc
roll_general (suc (suc zero)) (c ∷ b ∷ []) pos inside found = cc

module _ (n : ℕ) (sp : Stack) (small : length sp ≤ 2 ^ 63) (inside : n < length sp) where
  -- With an index n below the depth of a stack of at most 2 ^ 63 values, whether by `swap`, by `rot` or
  -- by the memmove, `roll` takes the value at depth n out and puts it on top; the values above it and
  -- those below keep their order, and none is lost.
  pub roll_lem :
      (x : Value) × (get_elem? sp n ≡ some x)
      × (roll (int n ∷ sp) ≡ done (x ∷ take n sp ++ drop (suc n) sp))
      × Perm (x ∷ take n sp ++ drop (suc n) sp) sp
  roll_lem =
      let (x, found) = get_elem?-lt sp n inside in
      (
        x,
        found,
        roll_general n sp (not_negative n sp small inside) (within n sp small inside) found,
        moved-perm n sp found,
      )

module _ (n : ℕ) (sp : Stack) (positive : n < 2 ^ 63) (outside : length sp ≤ n) where
  pub pick_out_of_range : pick (int n ∷ sp) ≡ flagged (exceeds_depth n (length sp)) sp
  unfolding pick
  pick_out_of_range = ground arith

  -- With an index of at least 3 that is not negative, and not below the depth of the stack, `roll`
  -- records the index and the depth as an error and drops the index only.
  pub roll_out_of_range : 3 ≤ n → roll (int n ∷ sp) ≡ flagged (exceeds_depth n (length sp)) sp
  unfolding roll
  roll_out_of_range h = ground arith

-- With the index 1 or 2 and a stack that is not as deep, `roll` goes below the base: the test of the
-- depth comes after these two cases.
pub roll_below_base :
    (n : ℕ) (sp : Stack) → (n ≡ 1) ⊎ (n ≡ 2) → length sp ≤ n → roll (int n ∷ sp) ≡ undefined
unfolding roll swap rot
roll_below_base n [] h short = ground arith
roll_below_base n (a ∷ []) h short = ground arith
roll_below_base n (b ∷ a ∷ []) h short = ground arith
roll_below_base n (c ∷ b ∷ a ∷ s) h short = absurd (ground arith)
