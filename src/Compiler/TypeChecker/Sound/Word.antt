-- ===== src/Compiler/TypeChecker/Sound/Word.antt =====
-- A word that checks against its declared effect keeps it.
use cem.Prelude.{
  ℕ, String, Bool-cases, true, Option, none, some, List, ◌≡◌, refl, sym, subst, inl, inr,
}
use cem.Compiler.Types.{SeqType, StackType, Effect, inputs, outputs, pop, no_effects}
use cem.Compiler.CallGraph.{Statements}
use cem.Compiler.Unification.Substitution.{no_subst}
use cem.Compiler.Unification.Unify.{unify_stacks}
use cem.Compiler.TypeChecker.State.{
  Declarations, Cells, ok, continue-eq-ok, Inferred, output_mismatch,
}
use cem.Compiler.TypeChecker.Apply.{unified}
use cem.Compiler.TypeChecker.Apply.Rigid.{unified-eq-ok}
use cem.Compiler.TypeChecker.Infer.{infer_statements_from}
use cem.Compiler.TypeChecker.Check.{
  check_body, enter_word, expect_output, clear_expected, is_quotation_type,
}
use cem.Compiler.TypeChecker.Ground.{Over}
use cem.Compiler.TypeChecker.Ground.Agree.{unify_stacks-Over}
use cem.Compiler.TypeChecker.Sound.{Ending, IsCore, run_statements}
use cem.Compiler.TypeChecker.Sound.Call.{Safe, IsSafeCall, IsMonomorphic}
use cem.Compiler.TypeChecker.Sound.Body.{body-IsSafe}
use cem.Builtins.Semantics.{Valuation, HasStackType}
use cem.Runtime.Stack.{Stack}

expect_output-word :
    (o : Option (StackType × SeqType)) (cells : Cells)
    → (expect_output o cells).current_word ≡ cells.current_word
unfolding expect_output
expect_output-word none cells = refl
expect_output-word (some (_, top)) cells = elim (Bool-cases (is_quotation_type top)) [
  | inl yes_q ↦ rw yes_q refl
  | inr no_q ↦ rw no_q refl
]

module _ (checker : Declarations) (fuel : ℕ) (name : String) (e : Effect) (body : Statements) where
  -- When `check_body` accepts, the declared outputs are the stack type that the body leaves.
  check_body-eq-ok :
      (cells : Cells) {u : Unit {0}} {cells' : Cells}
      → IsMonomorphic e
      → check_body checker fuel name e body cells ≡ ok u cells'
      → (start after : Cells) × (r : Inferred) × (infer_statements_from checker fuel body 0 true
            no_subst no_effects
            (inputs e)
            start
          ≡ ok r after)
        × (start.current_word ≡ some name)
        × (Over "rest" r.stack → outputs e ≡ r.stack)
  unfolding check_body enter_word clear_expected
  check_body-eq-ok cells mono h =
      let entered : Cells = enter_word name cells in
      let start : Cells = expect_output (pop (outputs e)) entered in
      let (r, after, ran, h1) =
        continue-eq-ok
          (infer_statements_from checker fuel body 0 true no_subst no_effects (inputs e) start) _
          h in
      let (t, middle, agreed, h2) =
        continue-eq-ok
          (unified (output_mismatch name (outputs e) r.stack)
            (unify_stacks fuel (outputs e) r.stack) (clear_expected after))
          _ h1 in
      let (u, same) =
        unified-eq-ok (output_mismatch name (outputs e) r.stack)
          (unify_stacks fuel (outputs e) r.stack) (clear_expected after) agreed in
      (
        start,
        after,
        r,
        ran,
        expect_output-word (pop (outputs e)) entered,
        λ over. (unify_stacks-Over "rest" fuel (outputs e) r.stack mono.1 over u).0,
      )

  pub check_body-Safe :
      (utf8 : String → List ℕ) (call : String → Stack → Ending) (cells : Cells) {u : Unit {0}}
      {cells' : Cells}
      → IsSafeCall checker call
      → IsMonomorphic e
      → IsCore checker name body
      → check_body checker fuel name e body cells ≡ ok u cells'
      → (ρ : Valuation) (s : Stack) → HasStackType ρ (inputs e) s
      → Safe ρ (outputs e) (run_statements utf8 call body s)
  check_body-Safe utf8 call cells calls mono core h ρ s typed =
      let (start, after, r, ran, word, agree) = check_body-eq-ok cells mono h in
      let done =
        body-IsSafe checker fuel name utf8 call calls body 0 true no_subst no_effects (inputs e)
          start r after core word mono.0 ran in
      subst (λ st. Safe ρ st (run_statements utf8 call body s)) (sym (agree done.over))
        (done.safe ρ s typed)
