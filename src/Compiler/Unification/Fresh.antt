-- ===== src/Compiler/Unification/Fresh.antt =====
-- The variables of what `unify_stacks` returns: those of its arguments, each bound once and for all.
use cem.Prelude.{String, ◌≡◌, none, some, inl, inr, Option-cases}
use cem.Prelude.Dict.{lookup}
use cem.Compiler.Types.{SeqType, int, var, StackType, empty, cons, row_var}
use cem.Compiler.Unification.Substitution.{Subst, apply_type, apply_stack, compose}
use cem.Compiler.Unification.Compose.{
  FreshType, FreshStack, FreshSubst, lookup-compose_types, lookup-compose_rows, overlay_cases,
}

-- Applying `t` to what is fresh for `s`, and is so under `t` too, stays fresh for `s`.
module _ (s t : Subst) (fresh : FreshSubst s t) where
  pub apply_type-FreshType : (ty : SeqType) → FreshType s ty → FreshType s (apply_type t ty)
  unfolding apply_type
  apply_type-FreshType (var name) h = elim (Option-cases (lookup name t.types)) [
    | inl unbound ↦ rw unbound h
    | inr (ty, bound) ↦ rw bound ((fresh.types_avoid name ty bound).1)
  ]
  apply_type-FreshType int h = tt
  apply_type-FreshType _ h = tt

  pub apply_stack-FreshStack : (st : StackType) → FreshStack s st → FreshStack s (apply_stack t st)
  unfolding apply_stack
  apply_stack-FreshStack empty h = tt
  apply_stack-FreshStack (row_var name) h = elim (Option-cases (lookup name t.rows)) [
    | inl unbound ↦ rw unbound h
    | inr (st, bound) ↦ rw bound ((fresh.rows_avoid name st bound).1)
  ]
  apply_stack-FreshStack (cons rest top) h =
      (apply_stack-FreshStack rest h.0, apply_type-FreshType top h.1)

-- What two substitutions avoid, their composition avoids.
module _ (u s t : Subst) (fresh_s : FreshSubst u s) (fresh_t : FreshSubst u t) where
  types_avoid :
      (name : String) (ty : SeqType)
      → lookup name (compose s t).types ≡ some ty
      → (lookup name u.types ≡ none) × FreshType u ty
  types_avoid name ty bound =
      elim (overlay_cases _ _ (lookup name t.types) (lookup name s.types)
        (rw lookup-compose_types at bound)) [
          | inl (x, found, e) ↦
              let (free, kept) = fresh_t.types_avoid name x found in
              (free, rw (← e) (apply_type-FreshType u s fresh_s x kept))
          | inr (x, found, e) ↦
              let (free, kept) = fresh_s.types_avoid name x found in
              (free, rw (← e) (apply_type-FreshType u t fresh_t x kept))
        ]

  rows_avoid :
      (name : String) (st : StackType)
      → lookup name (compose s t).rows ≡ some st
      → (lookup name u.rows ≡ none) × FreshStack u st
  rows_avoid name st bound =
      elim (overlay_cases _ _ (lookup name t.rows) (lookup name s.rows)
        (rw lookup-compose_rows at bound)) [
          | inl (x, found, e) ↦
              let (free, kept) = fresh_t.rows_avoid name x found in
              (free, rw (← e) (apply_stack-FreshStack u s fresh_s x kept))
          | inr (x, found, e) ↦
              let (free, kept) = fresh_s.rows_avoid name x found in
              (free, rw (← e) (apply_stack-FreshStack u t fresh_t x kept))
        ]

  pub compose-FreshSubst : FreshSubst u (compose s t)
  compose-FreshSubst = record { types_avoid = types_avoid; rows_avoid = rows_avoid }

-- A variable that neither of two substitutions binds, their composition does not bind.
module _ (s t : Subst) where
  pub FreshType-compose :
      (ty : SeqType) → FreshType s ty → FreshType t ty → FreshType (compose s t) ty
  FreshType-compose (var name) hs ht = rw (lookup-compose_types, ht, hs)
  FreshType-compose int hs ht = tt
  FreshType-compose _ hs ht = tt

  pub FreshStack-compose :
      (st : StackType) → FreshStack s st → FreshStack t st → FreshStack (compose s t) st
  FreshStack-compose empty hs ht = tt
  FreshStack-compose (row_var name) hs ht = rw (lookup-compose_rows, ht, hs)
  FreshStack-compose (cons rest top) hs ht =
      (FreshStack-compose rest hs.0 ht.0, FreshType-compose top hs.1 ht.1)
