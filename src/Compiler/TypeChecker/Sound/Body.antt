-- ===== src/Compiler/TypeChecker/Sound/Body.antt =====
-- A body of the fragment that checks runs safely.
use cem.Prelude.{ℕ, ◌+◌, String, Bool, false, some, List, ◌≡◌, refl, sym, ◌∙◌, ap, subst}
use cem.Compiler.Types.{int, float, bool, string, symbol, StackType, SideEffects, no_effects}
use cem.Compiler.CallGraph
use cem.Compiler.CallGraph.{
  Statement, int_literal, float_literal, bool_literal, string_literal, word_call, if_else,
  match_arms, Statements, no_statements, and_then, ElseBranch, no_else, else_of,
}
use cem.Compiler.Unification.Substitution.{Subst, no_subst, compose}
use cem.Compiler.TypeChecker.State.{
  Declarations, Cells, Checked, ok, continue, continue-eq-ok, Inferred,
}
use cem.Compiler.TypeChecker.Branches.{merge_effects, is_divergent_branch, is_divergent_else}
use cem.Compiler.TypeChecker.Infer.{infer_round, infer_statement, infer_statements_from, infer_else}
use cem.Compiler.TypeChecker.Ground.{Over}
use cem.Compiler.TypeChecker.Sound.{
  Ending, finished, IsCoreStatement, IsCore, IsCoreElse, run_statement, run_statements, run_else,
}
use cem.Compiler.TypeChecker.Sound.Call.{Safe, IsSafe, IsSafeCall, ok-parts}
use cem.Compiler.TypeChecker.Sound.WordCall.{infer_word_call-IsSafe}
use cem.Compiler.TypeChecker.Sound.If.{infer_if-IsSafe}
use cem.Compiler.TypeChecker.Sound.Round.{
  infer_round-IsSafe, fused-none, literal-IsSafe, then-IsSafe,
}
use cem.Runtime.Value.{Value}
use cem.Runtime.Stack.{Stack}

-- The code that does nothing.
nothing-IsSafe :
    (st : StackType) (cells : Cells) {t : Subst} {es : SideEffects} {r : Inferred} {cells' : Cells}
    → Over "rest" st
    → Checked.ok (record { stack = st; subst = t; effects = es }) cells ≡ ok r cells'
    → IsSafe cells cells' st r.stack (λ s. finished s)
nothing-IsSafe st cells over h =
    let (same_stack, same_end) = ok-parts h in
    record {
      same_word = ap (λ c. c.current_word) (sym same_end);
      over = subst (Over "rest") same_stack over;
      safe = λ ρ s typed. subst (λ st'. Safe ρ st' (finished s)) same_stack typed;
    }

-- The test for divergence of the else branch, in the word itself.
else_stays :
    (checker : Declarations) (current : String) (else_branch : ElseBranch) (cells : Cells)
    → cells.current_word ≡ some current
    → IsCoreElse checker current else_branch
    → is_divergent_else checker else_branch cells ≡ false
unfolding IsCoreElse is_divergent_branch is_divergent_else
else_stays checker current no_else cells word core = refl
else_stays checker current (else_of body) cells word core = rw word core.1

module _ (checker : Declarations) (fuel : ℕ) (current : String) (utf8 : String → List ℕ)
    (call : String → Stack → Ending) (calls : IsSafeCall checker call) where
  mutual
    unfolding infer_statement infer_statements_from infer_else run_statement run_statements run_else
        IsCoreStatement IsCore IsCoreElse is_divergent_branch is_divergent_else

    pub infer_statement-IsSafe :
        (stmt : Statement) (st : StackType) (cells : Cells) (r : Inferred) (cells' : Cells)
        → IsCoreStatement checker current stmt
        → cells.current_word ≡ some current
        → Over "rest" st
        → infer_statement checker fuel stmt st cells ≡ ok r cells'
        → IsSafe cells cells' st r.stack (run_statement utf8 call stmt)
    infer_statement-IsSafe (int_literal n) st cells r cells' core word over h =
        literal-IsSafe st int (Value.int n) cells tt (λ ρ. core) over h
    infer_statement-IsSafe (float_literal n) st cells r cells' core word over h =
        literal-IsSafe st float (Value.float n) cells tt (λ ρ. tt) over h
    infer_statement-IsSafe (bool_literal b) st cells r cells' core word over h =
        literal-IsSafe st bool (Value.bool b) cells tt (λ ρ. tt) over h
    infer_statement-IsSafe (string_literal t) st cells r cells' core word over h =
        literal-IsSafe st string (Value.string (utf8 t)) cells tt (λ ρ. tt) over h
    infer_statement-IsSafe (CallGraph.symbol t) st cells r cells' core word over h =
        literal-IsSafe st symbol (Value.symbol (utf8 t)) cells tt (λ ρ. tt) over h
    infer_statement-IsSafe (word_call name) st cells r cells' core word over h =
        infer_word_call-IsSafe checker fuel call name st cells core calls over h
    infer_statement-IsSafe (if_else then_branch else_branch) st cells r cells' core word over h =
        infer_if-IsSafe checker fuel current then_branch else_branch _ _ _ _ st cells
          (λ st c r c' w o.
            body-IsSafe then_branch 0 false no_subst no_effects st c r c' core.0 w o)
          (λ st c r c' w o. infer_else-IsSafe else_branch st c r c' core.2 w o) (rw word core.1)
          (else_stays checker current else_branch cells word core.2) word over h
    infer_statement-IsSafe (CallGraph.quotation _ _) st cells r cells' core word over h =
        absurd core
    infer_statement-IsSafe (match_arms _) st cells r cells' core word over h = absurd core

    pub body-IsSafe :
        (body : Statements) (i : ℕ) (capture : Bool) (t : Subst) (es : SideEffects) (st : StackType)
        (cells : Cells) (r : Inferred) (cells' : Cells)
        → IsCore checker current body
        → cells.current_word ≡ some current
        → Over "rest" st
        → infer_statements_from checker fuel body i capture t es st cells ≡ ok r cells'
        → IsSafe cells cells' st r.stack (run_statements utf8 call body)
    body-IsSafe no_statements i capture t es st cells r cells' core word over h =
        nothing-IsSafe st cells over h
    body-IsSafe (and_then stmt rest) i capture t es st cells r cells' core word over h =
        let h' : continue {A = Inferred}
              (infer_round checker stmt rest i capture (infer_statement checker fuel stmt) st cells)
              (λ result.
                infer_statements_from checker fuel rest (i + 1) capture (compose t result.subst)
                  (merge_effects es result.effects) result.stack)
            ≡ ok r cells' =
          rw (fused-none checker current stmt rest core.1, infer_statements_from) at h in
        let (first, middle, ran, after) = continue-eq-ok _ _ h' in
        let one =
          infer_round-IsSafe checker current stmt rest i capture (infer_statement checker fuel stmt)
            (run_statement utf8 call stmt) st cells first middle
            (λ st c r c' w o. infer_statement-IsSafe stmt st c r c' core.0 w o) word over ran in
        then-IsSafe st first.stack r.stack (run_statement utf8 call stmt)
          (run_statements utf8 call rest) one
          (body-IsSafe rest (i + 1) capture (compose t first.subst) (merge_effects es first.effects)
            first.stack middle r cells' core.1 (one.same_word ∙ word) one.over after)

    infer_else-IsSafe :
        (else_branch : ElseBranch) (st : StackType) (cells : Cells) (r : Inferred) (cells' : Cells)
        → IsCoreElse checker current else_branch
        → cells.current_word ≡ some current
        → Over "rest" st
        → infer_else checker fuel else_branch st cells ≡ ok r cells'
        → IsSafe cells cells' st r.stack (run_else utf8 call else_branch)
    infer_else-IsSafe no_else st cells r cells' core word over h = nothing-IsSafe st cells over h
    infer_else-IsSafe (else_of body) st cells r cells' core word over h =
        body-IsSafe body 0 false no_subst no_effects st cells r cells' core.0 word over h
