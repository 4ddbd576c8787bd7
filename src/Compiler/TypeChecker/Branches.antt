-- ===== src/Compiler/TypeChecker/Branches.antt =====
-- crates/compiler/src/typechecker.rs: `infer_word_call`, and `infer_if` over the functions that infer
-- its two branches.
use cem.Prelude.{
  ℕ, String, Bool, false, Option, none, some, List, ◌&&◌, ◌||◌, str_eq, not, if◌then◌else◌,
}
use cem.Compiler.Types.{
  bool, StackType, push, singleton, effects, SideEffect, SideEffects, no_effects, and_effect,
}
use cem.Compiler.Types.Equality.{eq_stack, eq_side_effect}
use cem.Compiler.CallGraph.{
  word_call, Statements, no_statements, and_then, ElseBranch, no_else, else_of, NameSet,
  are_mutually_recursive,
}
use cem.Compiler.Unification.Substitution.{Subst, no_subst, apply_stack, compose}
use cem.Compiler.Unification.Unify.{unify_stacks}
use cem.Compiler.TypeChecker.State.{
  Declarations, Cells, M, ok, ◌>>=◌, ◌>>◌, pure, fail, get, Inferred, unknown_word,
  condition_not_bool, branches_aux_mismatch, branches_mismatch,
}
use cem.Compiler.TypeChecker.Freshen.{freshen_effect}
use cem.Compiler.TypeChecker.Positions.{pop_type}
use cem.Compiler.TypeChecker.Apply.{
  unified, apply_effect, lookup_word_effect, or_fail, infer_to_aux, infer_from_aux, infer_call,
  adjust_stack_for_spawn,
}

-- `if !effects.contains(&effect) { effects.push(effect) }`
unfoldable pub push_effect : SideEffect → SideEffects → SideEffects
unfolding eq_side_effect
push_effect e no_effects = and_effect e no_effects
push_effect e (and_effect old rest) =
    let pushed = push_effect e rest in
    if eq_side_effect old e then and_effect old rest else and_effect old pushed

unfoldable pub merge_effects : SideEffects → SideEffects → SideEffects
unfolding push_effect
merge_effects merged no_effects = merged
merge_effects merged (and_effect e rest) = merge_effects (push_effect e merged) rest

unfoldable pub restore_aux : StackType → M (Unit {0})
restore_aux aux cells = ok tt (record cells { current_aux_stack = aux })

unfoldable pub last_word : Statements → Option String
last_word no_statements = none
last_word (and_then (word_call name) no_statements) = some name
last_word (and_then _ no_statements) = none
last_word (and_then _ (and_then s rest)) = last_word (and_then s rest)

-- No call graph, no cycles.
abbrev pub in_one_cycle : Option (List NameSet) → String → String → Bool
in_one_cycle none word name = false
in_one_cycle (some sccs) word name = are_mutually_recursive sccs word name

module _ (checker : Declarations) where
  -- The two tests on the word at the end of a branch.
  abbrev pub calls_back : Option String → Option String → Bool
  calls_back none last = false
  calls_back (some word) none = false
  calls_back (some word) (some name) =
      str_eq name word || in_one_cycle checker.recursive_sccs word name

  unfoldable pub is_divergent_branch : Statements → Cells → Bool
  unfolding last_word
  is_divergent_branch statements cells = calls_back cells.current_word (last_word statements)

  unfoldable pub is_divergent_else : ElseBranch → Cells → Bool
  unfolding is_divergent_branch
  is_divergent_else no_else cells = false
  is_divergent_else (else_of statements) cells = is_divergent_branch statements cells

module _ (checker : Declarations) (fuel : ℕ) where
  unfoldable pub apply_word : String → StackType → M Inferred
  apply_word name stack = do
    e ← or_fail (lookup_word_effect checker name) (unknown_word name)
    fresh ← freshen_effect e
    adjusted ←
        (if str_eq name "strand.spawn" then adjust_stack_for_spawn stack fresh else pure stack)
    (result, t) ← apply_effect fuel fresh adjusted name
    pure (record { stack = result; subst = t; effects = effects fresh })

  unfoldable pub infer_word_call : String → StackType → M Inferred
  unfolding apply_word
  infer_word_call name stack =
      if str_eq name ">aux"
      then infer_to_aux stack
      else if str_eq name "aux>"
      then infer_from_aux stack
      else if str_eq name "call"
      then infer_call checker fuel stack
      else apply_word name stack

  -- The result of two branches, with the substitution that makes them agree.
  unfoldable pub join_branches : Bool → Bool → StackType → StackType → M (StackType × Subst)
  join_branches then_diverges else_diverges then_result else_result =
      if then_diverges && not else_diverges
      then pure (else_result, no_subst)
      else if else_diverges && not then_diverges
      then pure (then_result, no_subst)
      else (do
        t ←
            unified (branches_mismatch then_result else_result)
              (unify_stacks fuel then_result else_result)
        pure (apply_stack t then_result, t))

  unfoldable pub check_aux : Bool → Bool → StackType → StackType → M (Unit {0})
  check_aux then_diverges else_diverges after_then after_else =
      if not then_diverges && not else_diverges && not (eq_stack after_then after_else)
      then fail (branches_aux_mismatch after_then after_else)
      else restore_aux (if then_diverges && not else_diverges then after_else else after_then)

  -- The branches, from the stack below the condition.
  unfoldable pub infer_branches :
      Bool
      → Bool
      → (StackType → M Inferred)
      → (StackType → M Inferred)
      → Subst
      → StackType
      → M Inferred
  unfolding join_branches check_aux restore_aux
  infer_branches then_diverges else_diverges infer_then infer_else cond_subst stack = do
    before ← get
    then_result ← infer_then stack
    after_then ← get
    restore_aux before.current_aux_stack
    else_result ← infer_else stack
    after_else ← get
    check_aux then_diverges else_diverges after_then.current_aux_stack after_else.current_aux_stack
    (result, branch_subst) ←
        join_branches then_diverges else_diverges then_result.stack else_result.stack
    pure (record {
      stack = result;
      subst =
          compose (compose (compose cond_subst then_result.subst) else_result.subst) branch_subst;
      effects = merge_effects then_result.effects else_result.effects;
    })

  unfoldable pub infer_if :
      Statements
      → ElseBranch
      → (StackType → M Inferred)
      → (StackType → M Inferred)
      → StackType
      → M Inferred
  unfolding infer_branches unified singleton push
  infer_if then_branch else_branch infer_then infer_else stack = do
    (below, cond_type) ← pop_type stack "if condition"
    cond_subst ←
        unified condition_not_bool (unify_stacks fuel (singleton bool) (singleton cond_type))
    cells ← get
    infer_branches (is_divergent_branch checker then_branch cells)
        (is_divergent_else checker else_branch cells) infer_then infer_else cond_subst
        (apply_stack cond_subst below)
