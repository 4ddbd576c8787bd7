-- ===== src/Compiler/TypeChecker/Infer.antt =====
-- crates/compiler/src/typechecker.rs: `infer_statement` and `infer_statements_from`, with the loops
-- over the arms of a match.
use cem.Prelude.{
  ℕ, ◌+◌, String, Bool, true, false, Option, none, some, List, [], ◌∷◌, str_eq, if◌then◌else◌,
}
use cem.Compiler.Types.{
  SeqType, int, float, bool, string, symbol, quotation, StackType, push, pop, Effect, inputs,
  SideEffects, no_effects,
}
use cem.Compiler.CallGraph
use cem.Compiler.CallGraph.{
  Statement, int_literal, float_literal, bool_literal, string_literal, word_call, if_else,
  match_arms, Statements, no_statements, and_then, ElseBranch, no_else, else_of, Arms, no_arms,
  and_arm,
}
use cem.Compiler.Unification.Substitution.{Subst, no_subst, compose}
use cem.Compiler.TypeChecker.State.{
  Declarations, Cells, M, ◌>>=◌, ◌>>◌, pure, get, modify, Inferred,
}
use cem.Compiler.TypeChecker.Positions.{
  handle_literal_pick, handle_literal_roll, capture_statement_type,
}
use cem.Compiler.TypeChecker.Apply.{lookup_word_effect}
use cem.Compiler.TypeChecker.Branches.{infer_word_call, infer_if, merge_effects}
use cem.Compiler.TypeChecker.Matching.{ArmResult, infer_arm, infer_match, infer_quotation}

-- `n pick` and `n roll`
pub data Fused : Type 0 where
  literal_pick literal_roll : ℕ → Fused

unfoldable pub fused_word : ℕ → String → Option Fused
fused_word n name =
    if str_eq name "pick"
    then some (literal_pick n)
    else if str_eq name "roll"
    then some (literal_roll n)
    else none

unfoldable pub fused : Statement → Statements → Option Fused
unfolding fused_word
fused (int_literal n) (and_then (word_call name) _) = fused_word n name
fused _ _ = none

unfoldable pub infer_fused : Fused → StackType → M (StackType × Subst)
infer_fused (literal_pick n) stack = handle_literal_pick n stack
infer_fused (literal_roll n) stack = handle_literal_roll n stack

-- The word after a quotation, if there is one, says which type it expects.
abbrev pub expected_top : Option (StackType × SeqType) → Cells → Cells
expected_top (some (_, quotation e)) cells = record cells {
  expected_quotation_type = some (quotation e);
}
expected_top _ cells = cells

abbrev pub expected_by : Option Effect → Cells → Cells
unfolding pop
expected_by none cells = cells
expected_by (some e) cells = expected_top (pop (inputs e)) cells

unfoldable pub look_ahead : Declarations → Statement → Statements → Cells → Cells
unfolding pop
look_ahead checker (CallGraph.quotation _ _) (and_then (word_call name) _) cells =
    expected_by (lookup_word_effect checker name) cells
look_ahead checker _ _ cells = cells

unfoldable pub restore_expected : Statement → Cells → Cells → Cells
restore_expected (CallGraph.quotation _ _) saved cells = record cells {
  expected_quotation_type = saved.expected_quotation_type;
}
restore_expected _ saved cells = cells

unfoldable pub capture_for : Option String → ℕ → StackType → Cells → Cells
capture_for none i stack cells = cells
capture_for (some word) i stack cells = capture_statement_type word i stack cells

unfoldable pub capture_if : Bool → ℕ → StackType → Cells → Cells
unfolding capture_for
capture_if capture i stack cells =
    if capture then capture_for cells.current_word i stack cells else cells

-- One statement of the loop that is not fused, over its inference.
unfoldable pub infer_round :
    Declarations
    → Statement
    → Statements
    → ℕ
    → Bool
    → (StackType → M Inferred)
    → StackType
    → M Inferred
unfolding look_ahead restore_expected capture_if
infer_round checker stmt rest i capture infer stack = do
  saved ← get
  modify (look_ahead checker stmt rest)
  modify (capture_if capture i stack)
  result ← infer stack
  modify (restore_expected stmt saved)
  pure result

abbrev pub is_no_arms : Arms → Bool
is_no_arms no_arms = true
is_no_arms (and_arm _ _ _) = false

unfoldable pub push_literal : StackType → SeqType → M Inferred
unfolding push
push_literal stack ty =
    pure (record { stack = push stack ty; subst = no_subst; effects = no_effects })

module _ (checker : Declarations) (fuel : ℕ) where
  unfoldable mutual
    unfolding push_literal

    pub infer_statement : Statement → StackType → M Inferred
    infer_statement (int_literal _) stack = push_literal stack int
    infer_statement (bool_literal _) stack = push_literal stack bool
    infer_statement (string_literal _) stack = push_literal stack string
    infer_statement (float_literal _) stack = push_literal stack float
    infer_statement (CallGraph.symbol _) stack = push_literal stack symbol
    infer_statement (match_arms arms) stack =
        infer_match fuel (is_no_arms arms) (infer_arms arms) stack
    infer_statement (word_call name) stack = infer_word_call checker fuel name stack
    infer_statement (if_else then_branch else_branch) stack =
        infer_if checker fuel then_branch else_branch
          (infer_statements_from then_branch 0 false no_subst no_effects) (infer_else else_branch)
          stack
    infer_statement (CallGraph.quotation id body) stack =
        infer_quotation fuel id (infer_statements_from body 0 false no_subst no_effects) stack

    -- The loop from statement `i` on, with what it has accumulated. After a fused pair the next
    -- statement, which is the word, is skipped.
    pub infer_statements_from : Statements → ℕ → Bool → Subst → SideEffects → StackType → M Inferred
    infer_statements_from no_statements i capture t es stack =
        pure (record { stack = stack; subst = t; effects = es })
    infer_statements_from (and_then stmt rest) i capture t es stack = elim (fused stmt rest) [
      | some pair ↦ (do
        (result, t') ← infer_fused pair stack
        infer_after_word rest (i + 1) capture (compose t t') es result)
      | none ↦ (do
        result ← infer_round checker stmt rest i capture (infer_statement stmt) stack
        infer_statements_from rest (i + 1) capture (compose t result.subst)
            (merge_effects es result.effects) result.stack)
    ]

    pub infer_after_word : Statements → ℕ → Bool → Subst → SideEffects → StackType → M Inferred
    infer_after_word no_statements i capture t es stack =
        pure (record { stack = stack; subst = t; effects = es })
    infer_after_word (and_then word rest) i capture t es stack =
        infer_statements_from rest (i + 1) capture t es stack

    pub infer_else : ElseBranch → StackType → M Inferred
    infer_else no_else stack =
        pure (record { stack = stack; subst = no_subst; effects = no_effects })
    infer_else (else_of statements) stack =
        infer_statements_from statements 0 false no_subst no_effects stack

    pub infer_arms : Arms → StackType → StackType → M (List ArmResult)
    infer_arms no_arms aux_before stack = pure []
    infer_arms (and_arm pattern body arms) aux_before stack = do
      result ←
          infer_arm checker pattern (infer_statements_from body 0 false no_subst no_effects)
            aux_before stack
      results ← infer_arms arms aux_before stack
      pure (result ∷ results)
