-- ===== src/Compiler/TypeChecker/Apply/Rigid.antt =====
-- Applying an effect to a stack type over the rigid row variable of a declared effect.
use cem.Prelude.{
  ℕ, ◌≤◌, String, Bool-cases, false, ◌≡◌, sym, subst, ap, inl, inr, some, arith, ltb, ltb-false,
  ◌∙◌,
}
use cem.Compiler.Types.{StackType, empty, cons, row_var, Effect, inputs, outputs, depth}
use cem.Compiler.Unification.Substitution.{Subst, apply_stack}
use cem.Compiler.Unification.Unify
use cem.Compiler.Unification.Unify.{Outcome, UnifyError, unify_stacks}
use cem.Compiler.Unification.Compose.{apply_stack-fresh}
use cem.Compiler.Unification.Sound.{unify_stacks-unifies}
use cem.Compiler.TypeChecker.State.{Cells, ok, continue, TypeError, stack_mismatch}
use cem.Compiler.TypeChecker.Positions.{count_concrete_types, get_row_var_base}
use cem.Compiler.TypeChecker.Positions.Counts.{count_concrete_types-eq-depth}
use cem.Compiler.TypeChecker.Apply.{unified, underflows, apply_effect}
use cem.Compiler.TypeChecker.Ground.{Over, Simple, Over-Simple, Simple-FlatStack}
use cem.Compiler.TypeChecker.Ground.Agree.{unify_stacks-FreshStack}
use cem.Compiler.TypeChecker.Ground.Instance.{
  Names, rename, Simple-rename, instance_at, HasStackType-instance, Admits, BecomesConcrete,
  BecomesOver, stack_admitted, stack_over,
}
use cem.Compiler.TypeChecker.Freshen.Renames.{Renamed}
use cem.Runtime.Stack.{Stack}
use cem.Builtins.Semantics.{Valuation, HasStackType}

-- An effect on concrete types and variables over a row variable, whose outputs mention no variable that
-- the inputs do not.
pub record IsSimple (e : Effect) : Type 1 where
  pub simple_inputs : Simple (inputs e)
  pub simple_outputs : Simple (outputs e)
  pub covers : (P R : String → Type 0) → Admits P R (inputs e) → Admits P R (outputs e)

pub unified-eq-ok :
    (message : UnifyError → TypeError) (o : Outcome Subst) (cells : Cells) {t : Subst}
    {cells' : Cells}
    → unified message o cells ≡ ok t cells'
    → (o ≡ Unify.ok t) × (cells' ≡ cells)
unfolding unified
unified-eq-ok message (Unify.ok t) cells h = (cc, cc)
unified-eq-ok message (Unify.err e) cells h = absurd (cc)
unified-eq-ok message Unify.out_of_fuel cells h = absurd (cc)

get_row_var_base-Over :
    (name : String) (st : StackType) → Over name st → get_row_var_base st ≡ some name
unfolding get_row_var_base
get_row_var_base-Over name empty h = absurd h
get_row_var_base-Over name (row_var n) h = ap some h
get_row_var_base-Over name (cons rest top) h = get_row_var_base-Over name rest h.0

-- The test for an underflow, on a stack over "rest".
underflows-false :
    (e : Effect) (st : StackType)
    → Over "rest" st
    → underflows e st ≡ false
    → depth (inputs e) ≤ depth st
unfolding underflows
underflows-false e st h u =
    let enough : ltb (count_concrete_types st) (count_concrete_types (inputs e)) ≡ false =
      rw (get_row_var_base-Over "rest" st h) at u in
    omega (
      arith,
      ltb-false (count_concrete_types st) (count_concrete_types (inputs e)) enough,
      count_concrete_types-eq-depth st,
      count_concrete_types-eq-depth (inputs e),
    )

pub applied :
    (message : UnifyError → TypeError) (o : Outcome Subst) (out : StackType) (cells : Cells)
    {st' : StackType} {t : Subst} {cells' : Cells}
    → continue {B = StackType × Subst}
        (unified message o cells)
        (λ u cells. ok (apply_stack u out, u) cells)
      ≡ ok (st', t) cells'
    → (o ≡ Unify.ok t) × (st' ≡ apply_stack t out) × (cells' ≡ cells)
unfolding unified
applied message (Unify.ok u) out cells h = ground arith
applied message (Unify.err e) out cells h = absurd (cc)
applied message Unify.out_of_fuel out cells h = absurd (cc)

-- How `apply_effect` succeeds.
apply_effect-eq-ok :
    (fuel : ℕ) (e : Effect) (st : StackType) (operation : String) (cells : Cells) {st' : StackType}
    {t : Subst} {cells' : Cells}
    → apply_effect fuel e st operation cells ≡ ok (st', t) cells'
    → (underflows e st ≡ false)
      × (unify_stacks fuel (inputs e) st ≡ Unify.ok t)
      × (st' ≡ apply_stack t (outputs e))
      × (cells' ≡ cells)
unfolding apply_effect
apply_effect-eq-ok fuel e st operation cells h = elim (Bool-cases (underflows e st)) [
  | inl under ↦ absurd (ground (arith, under))
  | inr over ↦
      let (u, r, c) =
        applied (stack_mismatch operation (inputs e) st) (unify_stacks fuel (inputs e) st)
          (outputs e) cells (rw over at h) in
      (over, u, r, c)
]

-- An instance of a simple effect on a stack over "rest": the stack meets the inputs of the instance, and
-- what meets its outputs meets the resulting stack type, which is again over "rest".
pub record Fits (names : Names) (e : Effect) (st st' : StackType) (t : Subst) : Type 1 where
  pub stays_over : Over "rest" st'
  pub meets_inputs :
      (ρ : Valuation) (s : Stack)
      → HasStackType ρ st s
      → HasStackType (instance_at names t ρ) (inputs e) s
  pub meets_outputs :
      (ρ : Valuation) (s : Stack)
      → HasStackType (instance_at names t ρ) (outputs e) s
      → HasStackType ρ st' s

module _ (names : Names) (e e' : Effect) (simple : IsSimple e) (renamed : Renamed names e e') where
  -- The substitution makes the inputs the stack that is there.
  inputs-eq :
      (fuel : ℕ) (st : StackType) {t : Subst}
      → Over "rest" st
      → underflows e' st ≡ false
      → unify_stacks fuel (inputs e') st ≡ Unify.ok t
      → apply_stack t (rename names (inputs e)) ≡ st
  inputs-eq fuel st {t} h over u =
      let simple' : Simple (inputs e') =
        rw (renamed.renamed_inputs) (Simple-rename names (inputs e) simple.simple_inputs) in
      let fresh =
        unify_stacks-FreshStack "rest" fuel (inputs e') st simple' h (underflows-false e' st h over)
          u in
      ap (apply_stack t) (sym renamed.renamed_inputs)
      ∙ unify_stacks-unifies fuel (inputs e') st (Simple-FlatStack (inputs e') simple')
          (Simple-FlatStack st (Over-Simple "rest" st h)) u
      ∙ apply_stack-fresh t st fresh

  pub apply_effect-Fits :
      (fuel : ℕ) (st : StackType) (operation : String) (cells : Cells) {st' : StackType} {t : Subst}
      {cells' : Cells}
      → Over "rest" st
      → apply_effect fuel e' st operation cells ≡ ok (st', t) cells'
      → (cells' ≡ cells) × Fits names e st st' t
  apply_effect-Fits fuel st operation cells {st'} {t} h ran =
      let (over, u, r, c) = apply_effect-eq-ok fuel e' st operation cells ran in
      let ins : apply_stack t (rename names (inputs e)) ≡ st = inputs-eq fuel st h over u in
      let outs : st' ≡ apply_stack t (rename names (outputs e)) =
        r ∙ ap (apply_stack t) renamed.renamed_outputs in
      let admitted =
        stack_admitted "rest" names t (inputs e) simple.simple_inputs
          (subst (Over "rest") (sym ins) h) in
      (
        c,
        record {
          stays_over = subst (Over "rest") (sym outs) (
              stack_over "rest" names t (outputs e) (
                simple.covers (BecomesConcrete "rest" names t) (BecomesOver "rest" names t)
                  admitted));
          meets_inputs = λ ρ s typed.
              subst (λ (X : Type 0). X) (HasStackType-instance names t ρ (inputs e) s)
                (subst (λ st. HasStackType ρ st s) (sym ins) typed);
          meets_outputs = λ ρ s typed.
              subst (λ st. HasStackType ρ st s) (sym outs)
                (subst (λ (X : Type 0). X) (sym (HasStackType-instance names t ρ (outputs e) s))
                  typed);
        },
      )
