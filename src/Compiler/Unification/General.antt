-- ===== src/Compiler/Unification/General.antt =====
-- `unify_stacks` against all unifiers of two flat stacks.
use cem.Prelude.{ℕ, zero, suc, ◌<◌, ◌≡◌, refl, ap, arith, ◌∙◌, sym}
use cem.Compiler.Types.{SeqType, int, StackType, empty, cons, row_var, depth}
use cem.Compiler.Unification.Substitution.{Subst, no_subst, apply_stack, compose}
use cem.Compiler.Unification.Unify.{ok, unify_stacks}
use cem.Compiler.Unification.Compose.{apply_type-compose, apply_stack-compose}
use cem.Compiler.Unification.Flat.{FlatStack, apply_stack-FlatStack, apply_stack-FreshStack_self}
use cem.Compiler.Unification.Steps.{unify_types-step}
use cem.Compiler.Unification.Sound.{TypeStep-UnifiesTypes, unify_stacks-UnifiesStacks}
use cem.Compiler.Unification.Fuel.{depth-apply_stack, TypeStep-rows}
use cem.Compiler.Unification.Complete.{
  Absorbs, Absorbs-no_subst, Absorbs-compose, unify_types_complete, bind_row_complete,
}

cons_rest : StackType → StackType
cons_rest (cons rest _) = rest
cons_rest st = st

unfoldable pub cons_top : StackType → SeqType
cons_top (cons _ top) = top
cons_top st = int

cons-injective :
    {r1 r2 : StackType} {t1 t2 : SeqType} → cons r1 t1 ≡ cons r2 t2 → (r1 ≡ r2) × (t1 ≡ t2)
unfolding cons_rest cons_top
cons-injective h = (ap cons_rest h, ap cons_top h)

-- If some substitution `u` makes two stacks without quotations and closures equal, `unify_stacks`
-- succeeds on them at any fuel above the depth of the first, and `u` goes through its result:
-- applying the result first changes nothing of what `u` gives.
pub unify_stacks-most_general :
    (u : Subst) (fuel : ℕ) (s1 s2 : StackType)
    → FlatStack s1
    → FlatStack s2
    → depth s1 < fuel
    → apply_stack u s1 ≡ apply_stack u s2
    → (t : Subst) × (unify_stacks fuel s1 s2 ≡ ok t) × Absorbs u t
unfolding unify_stacks depth apply_stack
unify_stacks-most_general u zero s1 s2 f1 f2 lt h = absurd (omega arith)
unify_stacks-most_general u (suc fuel) (row_var name) s2 f1 f2 lt h = bind_row_complete u name s2 h
unify_stacks-most_general u (suc fuel) empty (row_var name) f1 f2 lt h =
    bind_row_complete u name empty (sym h)
unify_stacks-most_general u (suc fuel) (cons rest1 top1) (row_var name) f1 f2 lt h =
    bind_row_complete u name (cons rest1 top1) (sym h)
unify_stacks-most_general u (suc fuel) empty empty f1 f2 lt h = (no_subst, refl, Absorbs-no_subst u)
unify_stacks-most_general u (suc fuel) empty (cons rest2 top2) f1 f2 lt h = absurd (ground arith)
unify_stacks-most_general u (suc fuel) (cons rest1 top1) empty f1 f2 lt h = absurd (ground arith)
unify_stacks-most_general u (suc fuel) (cons rest1 top1) (cons rest2 top2) f1 f2 lt h =
    let (rests_eq, tops_eq) = cons-injective h in
    let (s, tops, abs_s) = unify_types_complete u (unify_stacks fuel) top1 top2 f1.1 f2.1 tops_eq in
    let step = unify_types-step (unify_stacks fuel) top1 top2 f1.1 f2.1 tops in
    let solved = (TypeStep-UnifiesTypes f1.1 f2.1 step).solved in
    let flat1 = apply_stack-FlatStack solved rest1 f1.0 in
    let flat2 = apply_stack-FlatStack solved rest2 f2.0 in
    let (t, rests, abs_t) =
      unify_stacks-most_general u fuel (apply_stack s rest1) (apply_stack s rest2) flat1 flat2
        (omega (arith, depth-apply_stack s rest1 (TypeStep-rows step)))
        (abs_s.on_stack rest1 ∙ rests_eq ∙ sym (abs_s.on_stack rest2)) in
    let apart =
      (unify_stacks-UnifiesStacks fuel (apply_stack s rest1) (apply_stack s rest2) flat1 flat2
          rests).avoids
        s (apply_stack-FreshStack_self solved rest1) (apply_stack-FreshStack_self solved rest2) in
    (
      compose s t,
      rw (tops, rests),
      Absorbs-compose u s t (apply_type-compose s t apart) (apply_stack-compose s t apart) abs_s
          abs_t,
    )
