-- ===== src/Compiler/Unification/Sound.antt =====
-- What `unify_stacks` returns on flat stacks, as a unifier.
use cem.Prelude.{ℕ, zero, suc, String, ◌≡◌, some, inl, inr, ap, ap₂, sym}
use cem.Prelude.Dict.{lookup}
use cem.Compiler.Types.{SeqType, StackType, empty, cons, row_var}
use cem.Compiler.Unification.Substitution.{Subst, apply_type, apply_stack, compose}
use cem.Compiler.Unification.Unify.{ok, >>=-eq-ok, ok-injective, bind_row, unify_stacks}
use cem.Compiler.Unification.Compose.{
  FreshType, FreshStack, FreshSubst, apply_type-fresh, apply_stack-fresh, overlay_cases,
  lookup-compose_types, lookup-compose_rows, apply_stack-compose,
}
use cem.Compiler.Unification.Fresh.{
  apply_type-FreshType, apply_stack-FreshStack, compose-FreshSubst, FreshType-compose,
  FreshStack-compose,
}
use cem.Compiler.Unification.Flat.{
  FlatType, FlatStack, IsSolved, apply_type-FlatType, apply_stack-FlatStack,
  apply_type-FreshType_self, apply_stack-FreshStack_self,
}
use cem.Compiler.Unification.Steps.{TypeStep, same, left, right, bind_row_cases, unify_types-step}
use cem.Compiler.Unification.Single.{
  UnifiesTypes, UnifiesStacks, type_subst-UnifiesTypes, row_subst-UnifiesStacks,
  no_subst-UnifiesTypes, no_subst-UnifiesStacks, flip_types, flip_stacks,
}

pub TypeStep-UnifiesTypes :
    {t1 t2 : SeqType} {t : Subst}
    → FlatType t1
    → FlatType t2
    → TypeStep t1 t2 t
    → UnifiesTypes t1 t2 t
TypeStep-UnifiesTypes {t1} f1 f2 (same e d) = rw (d, ← e) (no_subst-UnifiesTypes t1)
TypeStep-UnifiesTypes {t2} f1 f2 (left name e free d) =
    rw (d, e) (type_subst-UnifiesTypes name t2 f2 free)
TypeStep-UnifiesTypes {t1} f1 f2 (right name e free d) =
    rw (d, e) (flip_types (type_subst-UnifiesTypes name t1 f1 free))

bind_row-UnifiesStacks :
    (name : String) (st : StackType) {t : Subst}
    → FlatStack st
    → bind_row name st ≡ ok t
    → UnifiesStacks (row_var name) st t
bind_row-UnifiesStacks name st f h = elim (bind_row_cases name st h) [
  | inl (e, d) ↦ rw (d, e) (no_subst-UnifiesStacks (row_var name))
  | inr (free, d) ↦ rw d (row_subst-UnifiesStacks name st f free)
]

-- The composition of two solved substitutions, when the first leaves the second alone.
module _ (s t : Subst) (apart : FreshSubst s t) (solved_s : IsSolved s)
    (solved_t : IsSolved t) where
  types_solved :
      (name : String) (ty : SeqType)
      → lookup name (compose s t).types ≡ some ty
      → FlatType ty × FreshType (compose s t) ty
  types_solved name ty bound =
      elim (overlay_cases _ _ (lookup name t.types) (lookup name s.types)
        (rw lookup-compose_types at bound)) [
          | inl (x, found, e) ↦
              let (flat, fresh_t) = solved_t.types_solved name x found in
              let fresh_s = (apart.types_avoid name x found).1 in
              rw (← e, apply_type-fresh s x fresh_s) (flat, FreshType-compose s t x fresh_s fresh_t)
          | inr (x, found, e) ↦
              let (flat, fresh_s) = solved_s.types_solved name x found in
              rw (← e) (
                apply_type-FlatType solved_t x flat,
                FreshType-compose s t (apply_type t x) (apply_type-FreshType s t apart x fresh_s)
                    (apply_type-FreshType_self solved_t x),
              )
        ]

  rows_solved :
      (name : String) (st : StackType)
      → lookup name (compose s t).rows ≡ some st
      → FlatStack st × FreshStack (compose s t) st
  rows_solved name st bound =
      elim (overlay_cases _ _ (lookup name t.rows) (lookup name s.rows)
        (rw lookup-compose_rows at bound)) [
          | inl (x, found, e) ↦
              let (flat, fresh_t) = solved_t.rows_solved name x found in
              let fresh_s = (apart.rows_avoid name x found).1 in
              rw (← e, apply_stack-fresh s x fresh_s)
                (flat, FreshStack-compose s t x fresh_s fresh_t)
          | inr (x, found, e) ↦
              let (flat, fresh_s) = solved_s.rows_solved name x found in
              rw (← e) (
                apply_stack-FlatStack solved_t x flat,
                FreshStack-compose s t (apply_stack t x)
                    (apply_stack-FreshStack s t apart x fresh_s)
                    (apply_stack-FreshStack_self solved_t x),
              )
        ]

  compose-IsSolved : IsSolved (compose s t)
  compose-IsSolved = record { types_solved = types_solved; rows_solved = rows_solved }

-- The tops are unified by `s`, then the rests under `s` by `t`.
module _ (top1 top2 : SeqType) (rest1 rest2 : StackType) {s t : Subst}
    (tops : UnifiesTypes top1 top2 s)
    (rests : UnifiesStacks (apply_stack s rest1) (apply_stack s rest2) t) where
  apart : FreshSubst s t
  apart =
      rests.avoids s (apply_stack-FreshStack_self tops.solved rest1)
        (apply_stack-FreshStack_self tops.solved rest2)

  cons_solves :
      apply_stack (compose s t) (cons rest1 top1) ≡ apply_stack (compose s t) (cons rest2 top2)
  unfolding apply_stack
  cons_solves =
      simp (apply_stack-compose s t apart) (ap₂ cons rests.solves (ap (apply_type t) tops.solves))

  cons-IsSolved : IsSolved (compose s t)
  cons-IsSolved = compose-IsSolved s t apart tops.solved rests.solved

  cons_avoids :
      (u : Subst)
      → FreshStack u (cons rest1 top1)
      → FreshStack u (cons rest2 top2)
      → FreshSubst u (compose s t)
  cons_avoids u h1 h2 =
      let fresh_s = tops.avoids u h1.1 h2.1 in
      let fresh_t =
        rests.avoids u (apply_stack-FreshStack u s fresh_s rest1 h1.0)
          (apply_stack-FreshStack u s fresh_s rest2 h2.0) in
      compose-FreshSubst u s t fresh_s fresh_t

  cons-UnifiesStacks : UnifiesStacks (cons rest1 top1) (cons rest2 top2) (compose s t)
  cons-UnifiesStacks = record { solves = cons_solves; solved = cons-IsSolved; avoids = cons_avoids }

-- Every successful run on flat stacks.
pub unify_stacks-UnifiesStacks :
    (fuel : ℕ) (s1 s2 : StackType) {t : Subst}
    → FlatStack s1
    → FlatStack s2
    → unify_stacks fuel s1 s2 ≡ ok t
    → UnifiesStacks s1 s2 t
unfolding unify_stacks
unify_stacks-UnifiesStacks zero s1 s2 f1 f2 h = cc
unify_stacks-UnifiesStacks (suc fuel) (row_var name) s2 f1 f2 h =
    bind_row-UnifiesStacks name s2 f2 h
unify_stacks-UnifiesStacks (suc fuel) empty (row_var name) f1 f2 h =
    flip_stacks (bind_row-UnifiesStacks name empty f1 h)
unify_stacks-UnifiesStacks (suc fuel) (cons rest1 top1) (row_var name) f1 f2 h =
    flip_stacks (bind_row-UnifiesStacks name (cons rest1 top1) f1 h)
unify_stacks-UnifiesStacks (suc fuel) empty empty f1 f2 h =
    rw (sym (ok-injective h)) (no_subst-UnifiesStacks empty)
unify_stacks-UnifiesStacks (suc fuel) (cons rest1 top1) (cons rest2 top2) f1 f2 h =
    let (s_top, tops, h1) = >>=-eq-ok _ _ h in
    let (s_rest, rests, h2) = >>=-eq-ok _ _ h1 in
    let tops_unified =
      TypeStep-UnifiesTypes f1.1 f2.1
        (unify_types-step (unify_stacks fuel) top1 top2 f1.1 f2.1 tops) in
    let rests_unified =
      unify_stacks-UnifiesStacks fuel (apply_stack s_top rest1) (apply_stack s_top rest2)
        (apply_stack-FlatStack tops_unified.solved rest1 f1.0)
        (apply_stack-FlatStack tops_unified.solved rest2 f2.0) rests in
    rw (sym (ok-injective h2)) (cons-UnifiesStacks top1 top2 rest1 rest2 tops_unified rests_unified)
unify_stacks-UnifiesStacks (suc fuel) empty (cons rest2 top2) f1 f2 h = cc
unify_stacks-UnifiesStacks (suc fuel) (cons rest1 top1) empty f1 f2 h = cc

-- On stacks without quotations and closures, whatever fuel a successful `unify_stacks` has used, the
-- substitution that it returns makes the two stacks equal.
pub unify_stacks-unifies :
    (fuel : ℕ) (s1 s2 : StackType) {t : Subst}
    → FlatStack s1
    → FlatStack s2
    → unify_stacks fuel s1 s2 ≡ ok t
    → apply_stack t s1 ≡ apply_stack t s2
unify_stacks-unifies fuel s1 s2 f1 f2 h = (unify_stacks-UnifiesStacks fuel s1 s2 f1 f2 h).solves
