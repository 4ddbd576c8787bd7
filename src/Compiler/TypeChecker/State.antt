-- ===== src/Compiler/TypeChecker/State.antt =====
-- crates/compiler/src/typechecker.rs: the state of the type checker. What the methods only read is a
-- record of its own, and the cells that they write are another; a line number stands only in messages.
use cem.Prelude.{ℕ, Bool, Option, String, List, ◌≡◌, refl}
use cem.Prelude.Dict.{Dict}
use cem.Compiler.Types.{SeqType, StackType, Effect, SideEffect, SideEffects}
use cem.Compiler.CallGraph.{NameSet}
use cem.Compiler.Unification.Substitution.{Subst}
use cem.Compiler.Unification.Unify.{UnifyError}

pub record VariantFieldInfo : Type 0 where
  pub name : String
  pub field_type : SeqType

pub record VariantInfo : Type 0 where
  pub name : String
  pub fields : List VariantFieldInfo

pub record UnionTypeInfo : Type 0 where
  pub name : String
  pub variants : List VariantInfo

-- `env`, `unions` and the part of the call graph that the checker asks for.
pub record Declarations : Type 0 where
  pub env : Dict Effect
  pub unions : Dict UnionTypeInfo
  pub recursive_sccs : Option (List NameSet)

pub record Cells : Type 0 where
  pub fresh_counter : ℕ
  pub quotation_types : List (ℕ × SeqType)
  pub expected_quotation_type : Option SeqType
  pub current_word : Option String
  pub statement_top_types : List ((String × ℕ) × SeqType)
  pub current_aux_stack : StackType
  pub aux_max_depths : Dict ℕ
  pub in_quotation_scope : Bool

-- What the messages say, without their hints.
pub data TypeError : Type 0 where
  unknown_type : String → TypeError
  unknown_union : String → String → TypeError
  missing_effect : String → TypeError
  -- the panic of `expect` in check_word
  word_must_have_effect : TypeError
  output_mismatch : String → StackType → StackType → UnifyError → TypeError
  undeclared_effect : SideEffect → TypeError
  unproduced_effect : SideEffect → TypeError
  aux_not_empty : StackType → TypeError
  negative_index : String → TypeError
  position_underflow : String → ℕ → ℕ → TypeError
  no_arms : TypeError
  unknown_variant : String → TypeError
  unknown_field : String → String → TypeError
  arms_aux_mismatch : TypeError
  arms_mismatch : StackType → StackType → UnifyError → TypeError
  condition_not_bool : UnifyError → TypeError
  branches_aux_mismatch : StackType → StackType → TypeError
  branches_mismatch : StackType → StackType → UnifyError → TypeError
  quotation_aux_not_empty : StackType → TypeError
  unknown_word : String → TypeError
  aux_in_quotation : TypeError
  aux_empty : TypeError
  call_underflow : TypeError
  call_not_quotation : SeqType → TypeError
  call_yields : TypeError
  effect_underflow : String → ℕ → ℕ → TypeError
  stack_mismatch : String → StackType → StackType → UnifyError → TypeError
  captures_missing : ℕ → TypeError
  too_many_inputs : ℕ → ℕ → TypeError
  quotation_mismatch : UnifyError → TypeError
  pop_underflow : String → TypeError
  pop_row_variable : String → TypeError

pub data Checked {ℓ} (A : Type ℓ) : Type ℓ where
  ok : A → Cells → Checked A
  err : TypeError → Checked A
  -- the fuel given to the unification is used up
  out_of_fuel : Checked A

abbrev pub M : Type 0 → Type 0
M A = Cells → Checked A

abbrev pub continue : {A B : Type 0} → Checked A → (A → M B) → Checked B
continue (ok a cells) f = f a cells
continue (err e) f = err e
continue out_of_fuel f = out_of_fuel

infixl 5 ◌>>=◌ ◌>>◌
abbrev pub ◌>>=◌ : {A B : Type 0} → M A → (A → M B) → M B
◌>>=◌ m f cells = continue (m cells) f

abbrev pub ◌>>◌ : {A B : Type 0} → M A → M B → M B
m >> k = m >>= λ _. k

abbrev pub pure : {A : Type 0} → A → M A
pure a cells = ok a cells

abbrev pub fail : {A : Type 0} → TypeError → M A
fail e cells = err e

abbrev pub get : M Cells
get cells = ok cells cells

abbrev pub modify : (Cells → Cells) → M (Unit {0})
modify f cells = ok tt (f cells)

-- The stack after a piece of code, the substitution and the side effects that checking it found.
pub record Inferred : Type 0 where
  pub stack : StackType
  pub subst : Subst
  pub effects : SideEffects

-- A chain that succeeds has a first part that succeeds, and goes on from there.
pub continue-eq-ok :
    {A B : Type 0} (r : Checked A) (f : A → M B) {b : B} {cells' : Cells}
    → continue r f ≡ ok b cells'
    → (a : A) × (middle : Cells) × (r ≡ ok a middle) × (f a middle ≡ ok b cells')
continue-eq-ok (ok a middle) f h = (a, middle, refl, h)
continue-eq-ok (err e) f h = cc
continue-eq-ok out_of_fuel f h = cc
