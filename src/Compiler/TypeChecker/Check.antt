-- ===== src/Compiler/TypeChecker/Check.antt =====
-- crates/compiler/src/typechecker.rs: `check_word`. A word of crates/compiler/src/ast.rs is its name, effect
-- and body.
use cem.Prelude.{ℕ, String, Bool, true, false, Option, none, some, List, [], ◌∷◌, if◌then◌else◌}
use cem.Compiler.Types.{
  SeqType, quotation, closure, StackType, empty, pop, Effect, inputs, outputs, effects, SideEffect,
  yields, SideEffects, no_effects, and_effect,
}
use cem.Compiler.Types.Equality.{eq_stack}
use cem.Compiler.CallGraph.{Statements}
use cem.Compiler.Unification.Substitution.{no_subst}
use cem.Compiler.Unification.Unify.{unify_stacks}
use cem.Compiler.TypeChecker.State.{
  Declarations, Cells, M, ◌>>=◌, ◌>>◌, pure, fail, get, modify, TypeError, word_must_have_effect,
  output_mismatch, undeclared_effect, unproduced_effect, aux_not_empty,
}
use cem.Compiler.TypeChecker.Apply.{unified}
use cem.Compiler.TypeChecker.Infer.{infer_statements_from}

pub record WordDef : Type 0 where
  pub name : String
  pub effect : Option Effect
  pub body : Statements

abbrev pub is_quotation_type : SeqType → Bool
is_quotation_type (quotation _) = true
is_quotation_type (closure _ _) = true
is_quotation_type _ = false

unfoldable pub expect_output : Option (StackType × SeqType) → Cells → Cells
expect_output none cells = cells
expect_output (some (_, top)) cells =
    if is_quotation_type top then record cells { expected_quotation_type = some top } else cells

unfoldable pub enter_word : String → Cells → Cells
enter_word name cells = record cells { current_word = some name; current_aux_stack = empty }

unfoldable pub clear_expected : Cells → Cells
clear_expected cells = record cells { expected_quotation_type = none }

unfoldable pub leave_word : Cells → Cells
leave_word cells = record cells { current_word = none }

unfoldable pub effect_matches_any : SideEffect → SideEffects → Bool
effect_matches_any e no_effects = false
effect_matches_any (yields t) (and_effect (yields u) rest) = true

-- The two loops over side effects.
unfoldable pub all_match : (SideEffect → TypeError) → SideEffects → SideEffects → M (Unit {0})
unfolding effect_matches_any
all_match message no_effects others = pure tt
all_match message (and_effect e rest) others =
    if effect_matches_any e others then all_match message rest others else fail (message e)

module _ (checker : Declarations) (fuel : ℕ) where
  -- The body of a word against its declared effect.
  unfoldable pub check_body : String → Effect → Statements → M (Unit {0})
  unfolding expect_output enter_word clear_expected leave_word unified all_match pop
  check_body name declared body = do
    modify (enter_word name)
    modify (expect_output (pop (outputs declared)))
    result ← infer_statements_from checker fuel body 0 true no_subst no_effects (inputs declared)
    modify clear_expected
    _ ←
        unified (output_mismatch name (outputs declared) result.stack)
          (unify_stacks fuel (outputs declared) result.stack)
    all_match undeclared_effect result.effects (effects declared)
    all_match unproduced_effect (effects declared) result.effects
    cells ← get
    (if eq_stack cells.current_aux_stack empty
        then pure tt
        else fail (aux_not_empty cells.current_aux_stack))
    modify leave_word

  unfoldable pub declared_effect : WordDef → Option Effect → M (Unit {0})
  unfolding check_body
  declared_effect word none = fail word_must_have_effect
  declared_effect word (some e) = check_body word.name e word.body

  unfoldable pub check_word : WordDef → M (Unit {0})
  unfolding declared_effect
  check_word word = declared_effect word word.effect

  unfoldable pub check_words : List WordDef → M (Unit {0})
  check_words [] = pure tt
  check_words (word ∷ words) = do check_word word; check_words words
