-- ===== src/Compiler/TypeChecker/Sound/Round.antt =====
-- One statement of the loop over a body: what surrounds its inference keeps the word that is checked.
use cem.Prelude.{
  ℕ, String, Bool, Bool-cases, true, false, Option, none, some, ◌≡◌, refl, sym, ◌∙◌, ap, subst, inl,
  inr, ◌∷◌, str_eq, eq_iff,
}
use cem.Compiler.Types.{SeqType, int, quotation, StackType, Effect, inputs, pop, push}
use cem.Compiler.CallGraph
use cem.Compiler.CallGraph.{
  Statement, int_literal, float_literal, bool_literal, string_literal, word_call, if_else,
  match_arms, Statements, no_statements, and_then,
}
use cem.Compiler.TypeChecker.State.{Declarations, Cells, M, ok, continue-eq-ok, Inferred}
use cem.Compiler.TypeChecker.Positions.{
  capture_statement_type, capture_top, get_trivially_copyable_top,
}
use cem.Compiler.TypeChecker.Apply.{lookup_word_effect}
use cem.Compiler.TypeChecker.Infer.{
  fused, fused_word, look_ahead, restore_expected, capture_for, capture_if, infer_round,
  push_literal, expected_by, expected_top,
}
use cem.Compiler.TypeChecker.Ground.{Over, Concrete}
use cem.Compiler.TypeChecker.Sound.{
  Ending, finished, wrong, out_of_fuel, then, IsCallable, IsCoreStatement, IsCore,
}
use cem.Compiler.TypeChecker.Sound.Call.{Safe, IsSafe, ok-parts}
use cem.Compiler.TypeChecker.Sound.If.{IsSafeBranch}
use cem.Builtins.Names.{builtin_named}
use cem.Builtins.Semantics.{Valuation, HasType, HasStackType}
use cem.Runtime.Value.{Value}
use cem.Runtime.Stack.{Stack}

expected_by-word :
    (o : Option Effect) (cells : Cells) → (expected_by o cells).current_word ≡ cells.current_word
unfolding pop
expected_by-word none cells = refl
expected_by-word (some e) cells = top (pop (inputs e))
  where
    top :
        (o : Option (StackType × SeqType))
        → (expected_top o cells).current_word ≡ cells.current_word
    top none = refl
    top (some (_, quotation e)) = refl
    top (some (_, int)) = refl
    top (some (_, _)) = refl

look_ahead-word :
    (checker : Declarations) (stmt : Statement) (rest : Statements) (cells : Cells)
    → (look_ahead checker stmt rest cells).current_word ≡ cells.current_word
unfolding look_ahead
look_ahead-word checker (CallGraph.quotation _ _) (and_then (word_call name) _) cells =
    expected_by-word (lookup_word_effect checker name) cells
look_ahead-word checker (CallGraph.quotation _ _) no_statements cells = refl
look_ahead-word checker (int_literal _) rest cells = refl
look_ahead-word checker _ _ cells = refl

restore_expected-word :
    (stmt : Statement) (saved cells : Cells)
    → (restore_expected stmt saved cells).current_word ≡ cells.current_word
unfolding restore_expected
restore_expected-word (CallGraph.quotation _ _) saved cells = refl
restore_expected-word (int_literal _) saved cells = refl
restore_expected-word _ saved cells = refl

capture_top-word :
    (word : String) (i : ℕ) (o : Option SeqType) (cells : Cells)
    → (capture_top word i o cells).current_word ≡ cells.current_word
unfolding capture_top
capture_top-word word i none cells = refl
capture_top-word word i (some ty) cells = refl

capture_for-word :
    (o : Option String) (i : ℕ) (st : StackType) (cells : Cells)
    → (capture_for o i st cells).current_word ≡ cells.current_word
unfolding capture_for capture_statement_type
capture_for-word none i st cells = refl
capture_for-word (some word) i st cells =
    capture_top-word word i (get_trivially_copyable_top st) cells

capture_if-word :
    (capture : Bool) (i : ℕ) (st : StackType) (cells : Cells)
    → (capture_if capture i st cells).current_word ≡ cells.current_word
unfolding capture_if
capture_if-word true i st cells = capture_for-word cells.current_word i st cells
capture_if-word false i st cells = refl

-- A statement of the fragment in its round.
module _ (checker : Declarations) (current : String) where
  pub infer_round-IsSafe :
      (stmt : Statement) (rest : Statements) (i : ℕ) (capture : Bool)
      (infer : StackType → M Inferred) (run : Stack → Ending) (st : StackType) (cells : Cells)
      (r : Inferred) (cells' : Cells)
      → IsSafeBranch current infer run
      → cells.current_word ≡ some current
      → Over "rest" st
      → infer_round checker stmt rest i capture infer st cells ≡ ok r cells'
      → IsSafe cells cells' st r.stack run
  unfolding infer_round
  infer_round-IsSafe stmt rest i capture infer run st cells r cells' branch word over h =
      let ahead : Cells = look_ahead checker stmt rest cells in
      let captured : Cells = capture_if capture i st ahead in
      let kept : captured.current_word ≡ cells.current_word =
        capture_if-word capture i st ahead ∙ look_ahead-word checker stmt rest cells in
      let (result, after, ran, last) = continue-eq-ok (infer st captured) _ h in
      let done = branch st captured result after (kept ∙ word) over ran in
      let (same_stack, same_end) = ok-parts last in
      record {
        same_word =
            ap (λ c. c.current_word) (sym same_end)
            ∙ restore_expected-word stmt cells after
            ∙ done.same_word
            ∙ kept;
        over = subst (Over "rest") same_stack done.over;
        safe = λ ρ s typed. subst (λ st'. Safe ρ st' (run s)) same_stack (done.safe ρ s typed);
      }

  -- A word of the fragment after a literal is neither `pick` nor `roll`.
  fused_word-none :
      (n : ℕ) (name : String) → IsCallable (builtin_named name) name → fused_word n name ≡ none
  unfolding fused_word builtin_named
  fused_word-none n name callable = elim (Bool-cases (str_eq name "pick")) [
    | inl is_pick ↦
        absurd
          (subst (λ x. IsCallable (builtin_named x) x) ((eq_iff name "pick").0 is_pick) callable)
    | inr not_pick ↦ elim (Bool-cases (str_eq name "roll")) [
      | inl is_roll ↦
          absurd
            (subst (λ x. IsCallable (builtin_named x) x) ((eq_iff name "roll").0 is_roll) callable)
      | inr not_roll ↦ rw (not_pick, not_roll) refl
    ]
  ]

  pub fused-none :
      (stmt : Statement) (rest : Statements) → IsCore checker current rest → fused stmt rest ≡ none
  unfolding fused IsCore IsCoreStatement
  fused-none (int_literal n) (and_then (word_call name) rest) core = fused_word-none n name core.0
  fused-none (int_literal n) no_statements core = refl
  fused-none (int_literal n) (and_then _ rest) core = refl
  fused-none (float_literal _) rest core = refl
  fused-none _ rest core = refl

pub literal-IsSafe :
    (st : StackType) (ty : SeqType) (v : Value) (cells : Cells) {r : Inferred} {cells' : Cells}
    → Concrete ty
    → ((ρ : Valuation) → HasType ρ ty v)
    → Over "rest" st
    → push_literal st ty cells ≡ ok r cells'
    → IsSafe cells cells' st r.stack (λ s. finished (v ∷ s))
unfolding push_literal push
literal-IsSafe st ty v cells {r} concrete typed over h =
    let (same_stack, same_end) = ok-parts h in
    record {
      same_word = ap (λ c. c.current_word) (sym same_end);
      over = subst (Over "rest") same_stack (over, concrete);
      safe = λ ρ s below. subst (λ st'. HasStackType ρ st' (v ∷ s)) same_stack (below, typed ρ);
    }

-- One piece of code after another.
then-Safe :
    (ρ : Valuation) (st st' : StackType) (end : Ending) (k : Stack → Ending)
    → Safe ρ st end
    → ((s : Stack) → HasStackType ρ st s → Safe ρ st' (k s))
    → Safe ρ st' (then end k)
then-Safe ρ st st' (finished s) k h hk = hk s h
then-Safe ρ st st' wrong k h hk = h
then-Safe ρ st st' out_of_fuel k h hk = tt

pub then-IsSafe :
    {c1 c2 c3 : Cells} (st1 st2 st3 : StackType) (run k : Stack → Ending)
    → IsSafe c1 c2 st1 st2 run
    → IsSafe c2 c3 st2 st3 k
    → IsSafe c1 c3 st1 st3 (λ s. then (run s) k)
then-IsSafe st1 st2 st3 run k first rest = record {
  same_word = rest.same_word ∙ first.same_word;
  over = rest.over;
  safe = λ ρ s typed. then-Safe ρ st2 st3 (run s) k (first.safe ρ s typed) (rest.safe ρ);
}
