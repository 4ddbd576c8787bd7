-- ===== src/Compiler/Unification/Flat.antt =====
-- Stacks of types without quotations and closures, and substitutions whose values are such.
use cem.Prelude.{String, ◌≡◌, some, inl, inr, Option-cases}
use cem.Prelude.Dict.{lookup}
use cem.Compiler.Types.{SeqType, int, quotation, closure, var, StackType, empty, cons, row_var}
use cem.Compiler.Unification.Substitution.{Subst, apply_type, apply_stack}
use cem.Compiler.Unification.Compose.{FreshType, FreshStack}

abbrev pub FlatType : SeqType → Type 0
FlatType (quotation _) = ⊥
FlatType (closure _ _) = ⊥
FlatType _ = Unit

abbrev pub FlatStack : StackType → Type 0
FlatStack empty = Unit
FlatStack (row_var _) = Unit
FlatStack (cons rest top) = FlatStack rest × FlatType top

-- The values of `t` are flat, and name no variable that `t` binds.
pub record IsSolved (t : Subst) : Type 0 where
  pub types_solved :
      (name : String) (ty : SeqType) → lookup name t.types ≡ some ty → FlatType ty × FreshType t ty
  pub rows_solved :
      (name : String) (st : StackType)
      → lookup name t.rows ≡ some st
      → FlatStack st × FreshStack t st

module _ {t : Subst} (solved : IsSolved t) where
  pub apply_type-FlatType : (ty : SeqType) → FlatType ty → FlatType (apply_type t ty)
  unfolding apply_type
  apply_type-FlatType (var name) h = elim (Option-cases (lookup name t.types)) [
    | inl unbound ↦ rw unbound tt
    | inr (ty, bound) ↦ rw bound (solved.types_solved name ty bound).0
  ]
  apply_type-FlatType int h = h
  apply_type-FlatType _ h = h

  pub apply_stack-FlatStack : (st : StackType) → FlatStack st → FlatStack (apply_stack t st)
  unfolding apply_stack
  apply_stack-FlatStack empty h = tt
  apply_stack-FlatStack (row_var name) h = elim (Option-cases (lookup name t.rows)) [
    | inl unbound ↦ rw unbound tt
    | inr (st, bound) ↦ rw bound (solved.rows_solved name st bound).0
  ]
  apply_stack-FlatStack (cons rest top) h =
      (apply_stack-FlatStack rest h.0, apply_type-FlatType top h.1)

  -- What a solved substitution has been applied to names none of its variables.
  pub apply_type-FreshType_self : (ty : SeqType) → FreshType t (apply_type t ty)
  unfolding apply_type
  apply_type-FreshType_self (var name) = elim (Option-cases (lookup name t.types)) [
    | inl unbound ↦ rw unbound unbound
    | inr (ty, bound) ↦ rw bound (solved.types_solved name ty bound).1
  ]
  apply_type-FreshType_self int = tt
  apply_type-FreshType_self _ = tt

  pub apply_stack-FreshStack_self : (st : StackType) → FreshStack t (apply_stack t st)
  unfolding apply_stack
  apply_stack-FreshStack_self empty = tt
  apply_stack-FreshStack_self (row_var name) = elim (Option-cases (lookup name t.rows)) [
    | inl unbound ↦ rw unbound unbound
    | inr (st, bound) ↦ rw bound (solved.rows_solved name st bound).1
  ]
  apply_stack-FreshStack_self (cons rest top) =
      (apply_stack-FreshStack_self rest, apply_type-FreshType_self top)
