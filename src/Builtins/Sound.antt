-- ===== src/Builtins/Sound.antt =====
-- The runtime functions of the built-in words against the signatures of the words.
use cem.Prelude.{◌==◌, not, String, ◌≡◌, refl, [], ◌∷◌, arith, if◌then◌else◌}
use cem.Compiler.Types.{inputs, outputs}
use cem.Runtime.Value.{Value}
use cem.Runtime.Word.{
  is_negative, wrapping_add, wrapping_sub, wrapping_mul, wrapping_div, wrapping_rem, lt_i64,
  band_i64, bor_i64, bxor_i64, bnot_i64, as_u32, checked_shl, checked_shr, count_ones,
  leading_zeros, trailing_zeros,
}
use cem.Runtime.Word.Laws.{band_i64-lt, bor_i64-lt, bxor_i64-lt}
use cem.Runtime.Word.Bounds.{
  wrapping_add-lt, wrapping_sub-lt, wrapping_mul-lt, wrapping_div-lt, wrapping_rem-lt, bnot_i64-lt,
  checked_shl-lt, checked_shr-lt, count_ones-le, leading_zeros-le, trailing_zeros-le,
}
use cem.Runtime.Stack
use cem.Runtime.Stack.{Stack, Run, done, panicked}
use cem.Runtime.Arithmetic
use cem.Builtins.{
  Builtin, i_add, i_subtract, i_multiply, i_divide, i_modulo, i_eq, i_lt, i_gt, i_lte, i_gte, i_neq,
  logical_and, logical_or, logical_not, band, bor, bxor, shl, shr, bnot, popcount, clz, ctz,
  int_bits, dup, drop, swap, over, rot, nip, tuck, two_dup, pick, roll, signature, symbol,
}
use cem.Builtins.Semantics.{Valuation, HasStackType, bool_value}
use cem.Builtins.Keeps.{to_int, to_bool, to_int_bool, from_int, shift_in_range}

-- The words whose signature is exact: `pick` and `roll` have approximate ones, and `and`, `or` and
-- `not` are typed on Bool where the runtime functions take Int.
abbrev pub IsExact : Builtin → Type 0
IsExact logical_and = ⊥
IsExact logical_or = ⊥
IsExact logical_not = ⊥
IsExact pick = ⊥
IsExact roll = ⊥
IsExact _ = Unit

abbrev pub IsLogical : Builtin → Type 0
IsLogical logical_and = Unit
IsLogical logical_or = Unit
IsLogical logical_not = Unit
IsLogical _ = ⊥

module _ (ρ : Valuation) where
  -- On every stack of the type that a word's signature asks for, whatever the type variables and the
  -- row variable stand for, the runtime function of the word returns, without a panic, a runtime
  -- error or an access below the base, a stack of the type that the signature promises. `and`, `or`,
  -- `not`, `pick` and `roll` are excepted.
  pub symbol-keeps_signature :
      (w : Builtin) (s : Stack)
      → IsExact w
      → HasStackType ρ (inputs (signature w)) s
      → (s' : Stack) × (symbol w s ≡ done s') × HasStackType ρ (outputs (signature w)) s'
  unfolding signature symbol Arithmetic.add Arithmetic.subtract Arithmetic.multiply
      Arithmetic.divide Arithmetic.modulo Arithmetic.eq Arithmetic.lt Arithmetic.gt Arithmetic.lte
      Arithmetic.gte Arithmetic.neq Arithmetic.band Arithmetic.bor Arithmetic.bxor Arithmetic.bnot
      Arithmetic.shl Arithmetic.shr Arithmetic.popcount Arithmetic.clz Arithmetic.ctz
      Arithmetic.int_bits Stack.dup Stack.drop_op Stack.swap Stack.over Stack.rot Stack.nip
      Stack.tuck Stack.two_dup
  symbol-keeps_signature i_add s _ h =
      to_int ρ "add" wrapping_add (λ a b _ _. wrapping_add-lt a b) s h
  symbol-keeps_signature i_subtract s _ h =
      to_int ρ "subtract" wrapping_sub (λ a b _ _. wrapping_sub-lt a b) s h
  symbol-keeps_signature i_multiply s _ h =
      to_int ρ "multiply" wrapping_mul (λ a b _ _. wrapping_mul-lt a b) s h
  symbol-keeps_signature i_divide s _ h = to_int_bool ρ "divide" wrapping_div wrapping_div-lt s h
  symbol-keeps_signature i_modulo s _ h = to_int_bool ρ "modulo" wrapping_rem wrapping_rem-lt s h
  symbol-keeps_signature i_eq s _ h = to_bool ρ "=" (λ a b. a == b) s h
  symbol-keeps_signature i_lt s _ h = to_bool ρ "<" lt_i64 s h
  symbol-keeps_signature i_gt s _ h = to_bool ρ ">" (λ a b. lt_i64 b a) s h
  symbol-keeps_signature i_lte s _ h = to_bool ρ "<=" (λ a b. not (lt_i64 b a)) s h
  symbol-keeps_signature i_gte s _ h = to_bool ρ ">=" (λ a b. not (lt_i64 a b)) s h
  symbol-keeps_signature i_neq s _ h = to_bool ρ "<>" (λ a b. not (a == b)) s h
  symbol-keeps_signature logical_and s e h = absurd e
  symbol-keeps_signature logical_or s e h = absurd e
  symbol-keeps_signature logical_not s e h = absurd e
  symbol-keeps_signature band s _ h = to_int ρ "band" band_i64 (λ a b _ _. band_i64-lt a b) s h
  symbol-keeps_signature bor s _ h = to_int ρ "bor" bor_i64 (λ a b _ _. bor_i64-lt a b) s h
  symbol-keeps_signature bxor s _ h = to_int ρ "bxor" bxor_i64 (λ a b _ _. bxor_i64-lt a b) s h
  symbol-keeps_signature shl s _ h =
      to_int ρ "shl" (λ x c. if is_negative c then 0 else checked_shl x (as_u32 c))
        (λ x c _ _.
          shift_in_range ρ (is_negative c) (checked_shl x (as_u32 c)) (checked_shl-lt x (as_u32 c)))
        s h
  symbol-keeps_signature shr s _ h =
      to_int ρ "shr" (λ x c. if is_negative c then 0 else checked_shr x (as_u32 c))
        (λ x c hx _.
          shift_in_range ρ (is_negative c) (checked_shr x (as_u32 c))
            (checked_shr-lt x (as_u32 c) hx))
        s h
  symbol-keeps_signature bnot s _ h = from_int ρ "bnot" bnot_i64 bnot_i64-lt s h
  symbol-keeps_signature popcount s _ h =
      from_int ρ "popcount" count_ones (λ a. omega (arith, count_ones-le a)) s h
  symbol-keeps_signature clz s _ h =
      from_int ρ "clz" leading_zeros (λ a. omega (arith, leading_zeros-le a)) s h
  symbol-keeps_signature ctz s _ h =
      from_int ρ "ctz" trailing_zeros (λ a. omega (arith, trailing_zeros-le a)) s h
  symbol-keeps_signature int_bits s _ h = (Value.int 64 ∷ s, refl, (h, omega arith))
  symbol-keeps_signature dup [] _ h = absurd h
  symbol-keeps_signature dup (x ∷ s) _ h = (x ∷ x ∷ s, refl, ((h.0, h.1), h.1))
  symbol-keeps_signature drop [] _ h = absurd h
  symbol-keeps_signature drop (x ∷ s) _ h = (s, refl, h.0)
  symbol-keeps_signature swap [] _ h = absurd h
  symbol-keeps_signature swap (y ∷ []) _ h = absurd h.0
  symbol-keeps_signature swap (y ∷ x ∷ s) _ h = (x ∷ y ∷ s, refl, ((h.0.0, h.1), h.0.1))
  symbol-keeps_signature over [] _ h = absurd h
  symbol-keeps_signature over (y ∷ []) _ h = absurd h.0
  symbol-keeps_signature over (y ∷ x ∷ s) _ h = (x ∷ y ∷ x ∷ s, refl, (h, h.0.1))
  symbol-keeps_signature rot [] _ h = absurd h
  symbol-keeps_signature rot (z ∷ []) _ h = absurd h.0
  symbol-keeps_signature rot (z ∷ y ∷ []) _ h = absurd h.0.0
  symbol-keeps_signature rot (z ∷ y ∷ x ∷ s) _ h =
      (x ∷ z ∷ y ∷ s, refl, (((h.0.0.0, h.0.1), h.1), h.0.0.1))
  symbol-keeps_signature nip [] _ h = absurd h
  symbol-keeps_signature nip (y ∷ []) _ h = absurd h.0
  symbol-keeps_signature nip (y ∷ x ∷ s) _ h = (y ∷ s, refl, (h.0.0, h.1))
  symbol-keeps_signature tuck [] _ h = absurd h
  symbol-keeps_signature tuck (y ∷ []) _ h = absurd h.0
  symbol-keeps_signature tuck (y ∷ x ∷ s) _ h = (y ∷ x ∷ y ∷ s, refl, (((h.0.0, h.1), h.0.1), h.1))
  symbol-keeps_signature two_dup [] _ h = absurd h
  symbol-keeps_signature two_dup (y ∷ []) _ h = absurd h.0
  symbol-keeps_signature two_dup (y ∷ x ∷ s) _ h = (y ∷ x ∷ y ∷ x ∷ s, refl, ((h, h.0.1), h.1))
  symbol-keeps_signature pick s e h = absurd e
  symbol-keeps_signature roll s e h = absurd e

  -- The signatures of `and`, `or` and `not` ask for Bools, and the runtime function of the word, which
  -- takes Ints, panics on every stack of that type.
  pub logical_word-panics :
      (w : Builtin) (s : Stack)
      → IsLogical w
      → HasStackType ρ (inputs (signature w)) s
      → (name : String) × (symbol w s ≡ panicked name)
  unfolding signature symbol Arithmetic.logical_and Arithmetic.logical_or Arithmetic.logical_not
  logical_word-panics logical_and [] _ h = absurd h
  logical_word-panics logical_and (y ∷ []) _ h = absurd h.0
  logical_word-panics logical_and (y ∷ x ∷ s) _ h =
      let (b, e) = bool_value y h.1 in let (a, d) = bool_value x h.0.1 in ("and", rw (e, d))
  logical_word-panics logical_or [] _ h = absurd h
  logical_word-panics logical_or (y ∷ []) _ h = absurd h.0
  logical_word-panics logical_or (y ∷ x ∷ s) _ h =
      let (b, e) = bool_value y h.1 in let (a, d) = bool_value x h.0.1 in ("or", rw (e, d))
  logical_word-panics logical_not [] _ h = absurd h
  logical_word-panics logical_not (x ∷ s) _ h = let (b, e) = bool_value x h.1 in ("not", rw e)
  logical_word-panics i_add s l h = absurd l
  logical_word-panics _ s l h = absurd l
