-- ===== src/Compiler/TypeChecker/Apply.antt =====
-- crates/compiler/src/typechecker.rs: `apply_effect`, `call`, the auxiliary stack and the captures of
-- quotations. `fuel` bounds the calls of a unification.
pub mod Rigid
use cem.Prelude.{
  ℕ, zero, suc, ◌+◌, String, Bool, true, false, Option, none, some, List, [], ◌∷◌, ◌&&◌, str_eq,
  if◌then◌else◌, ltb, length,
}
use cem.Prelude.Dict.{Dict, lookup, insert}
use cem.Compiler.Types.{
  SeqType, quotation, closure, var, StackType, empty, cons, row_var, push, pop, Effect, effect,
  inputs, outputs, effects, has_yield, SideEffects, no_effects, Captures, no_captures, and_capture,
}
use cem.Compiler.Unification.Substitution.{Subst, no_subst, apply_stack}
use cem.Compiler.Unification.Unify
use cem.Compiler.Unification.Unify.{Outcome, UnifyError, unify_stacks, unify_types}
use cem.Compiler.CaptureAnalysis.{CaptureResult, captures, too_many, calculate_captures}
use cem.Compiler.BuiltinTable.{builtin_signature}
use cem.Compiler.TypeChecker.State.{
  Declarations, Cells, M, Checked, ok, err, out_of_fuel, ◌>>=◌, ◌>>◌, pure, fail, get, modify,
  TypeError, Inferred, unknown_word, aux_in_quotation, aux_empty, call_underflow,
  call_not_quotation, call_yields, effect_underflow, stack_mismatch, captures_missing,
  too_many_inputs, quotation_mismatch,
}
use cem.Compiler.TypeChecker.Freshen.{freshen_effect}
use cem.Compiler.TypeChecker.Positions.{
  count_concrete_types, stack_depth, get_row_var_base, pop_type,
}

-- `.map_err(…)?`
unfoldable pub unified : (UnifyError → TypeError) → Outcome Subst → M Subst
unified message (Unify.ok t) = pure t
unified message (Unify.err e) = fail (message e)
unified message Unify.out_of_fuel = λ cells. out_of_fuel

-- The row variable "rest" of a declared effect cannot grow.
abbrev pub is_rigid : Option String → Bool
is_rigid none = false
is_rigid (some row_var_name) = str_eq row_var_name "rest"

unfoldable pub underflows : Effect → StackType → Bool
underflows e stack =
    is_rigid (get_row_var_base stack)
    && ltb (count_concrete_types stack) (count_concrete_types (inputs e))

unfoldable pub apply_effect : ℕ → Effect → StackType → String → M (StackType × Subst)
unfolding unified underflows
apply_effect fuel e stack operation =
    if underflows e stack
    then fail
        (effect_underflow operation (count_concrete_types (inputs e)) (count_concrete_types stack))
    else (do
      t ← unified (stack_mismatch operation (inputs e) stack) (unify_stacks fuel (inputs e) stack)
      pure (apply_stack t (outputs e), t))

-- First the built-in words, then the words of the program.
abbrev pub builtin_or : Option Effect → Option Effect → Option Effect
builtin_or (some e) o = some e
builtin_or none o = o

unfoldable pub lookup_word_effect : Declarations → String → Option Effect
lookup_word_effect checker name = builtin_or (builtin_signature name) (lookup name checker.env)

unfoldable pub or_fail : {A : Type 0} → Option A → TypeError → M A
or_fail none e = fail e
or_fail (some a) e = pure a

-- `let entry = depths.entry(word).or_insert(0); if depth > *entry { *entry = depth }`
abbrev deeper : Option ℕ → ℕ → ℕ
deeper none depth = depth
deeper (some old) depth = if ltb old depth then depth else old

track_depth : Option String → ℕ → Dict ℕ → Dict ℕ
track_depth none depth depths = depths
track_depth (some word) depth depths = insert word (deeper (lookup word depths) depth) depths

to_aux : StackType → SeqType → M Inferred
unfolding track_depth push
to_aux rest top cells =
    let aux = push cells.current_aux_stack top in
    let depths = track_depth cells.current_word (stack_depth aux) cells.aux_max_depths in
    ok (record { stack = rest; subst = no_subst; effects = no_effects })
      (record cells { current_aux_stack = aux; aux_max_depths = depths })

unfoldable pub infer_to_aux : StackType → M Inferred
unfolding to_aux
infer_to_aux stack cells =
    if cells.in_quotation_scope
    then err aux_in_quotation
    else (do (rest, top) ← pop_type stack ">aux"; to_aux rest top) cells

from_aux : StackType → Option (StackType × SeqType) → M Inferred
unfolding push
from_aux stack none cells = err aux_empty
from_aux stack (some (rest, top)) cells =
    ok (record { stack = push stack top; subst = no_subst; effects = no_effects })
      (record cells { current_aux_stack = rest })

unfoldable pub infer_from_aux : StackType → M Inferred
unfolding from_aux
infer_from_aux stack cells =
    if cells.in_quotation_scope
    then err aux_in_quotation
    else from_aux stack (pop cells.current_aux_stack) cells

module _ (checker : Declarations) (fuel : ℕ) where
  -- The effect of a quotation whose type is known.
  call_effect : Effect → StackType → M Inferred
  call_effect e remaining = if has_yield e then fail call_yields else (do
    fresh ← freshen_effect e
    (result, t) ← apply_effect fuel fresh remaining "call"
    pure (record { stack = result; subst = t; effects = effects fresh }))

  call_unknown : StackType → M Inferred
  call_unknown stack = do
    e ← or_fail (lookup_word_effect checker "call") (unknown_word "call")
    fresh ← freshen_effect e
    (result, t) ← apply_effect fuel fresh stack "call"
    pure (record { stack = result; subst = t; effects = no_effects })

  call_type : SeqType → StackType → StackType → M Inferred
  unfolding call_effect call_unknown
  call_type (quotation e) stack remaining = call_effect e remaining
  call_type (closure e _) stack remaining = call_effect e remaining
  call_type (var _) stack remaining = call_unknown stack
  call_type ty stack remaining = fail (call_not_quotation ty)

  unfoldable pub infer_call : StackType → M Inferred
  unfolding call_type
  infer_call stack = do
    (remaining, quot_type) ← or_fail (pop stack) call_underflow
    call_type quot_type stack remaining

-- The Vec of captures as it stands in a type.
unfoldable pub to_captures : List SeqType → Captures
to_captures [] = no_captures
to_captures (ty ∷ types) = and_capture ty (to_captures types)

-- `calculate_captures(…)?`
unfoldable pub captured : CaptureResult → M (List SeqType)
captured (captures types) = pure types
captured (too_many call body) = fail (too_many_inputs call body)

drop_captured : List SeqType → ℕ → StackType → M StackType
drop_captured [] n stack = pure stack
drop_captured (_ ∷ types) n (cons rest _) = drop_captured types n rest
drop_captured (_ ∷ types) n empty = fail (captures_missing n)
drop_captured (_ ∷ types) n (row_var _) = fail (captures_missing n)

abbrev is_empty_stack : StackType → Bool
is_empty_stack empty = true
is_empty_stack _ = false

spawn_closure : Effect → Effect → StackType → StackType → M StackType
unfolding drop_captured captured to_captures push
spawn_closure expected actual stack rest =
    if is_empty_stack (inputs actual) then pure stack else (do
      types ← captured (calculate_captures actual expected)
      adjusted ← drop_captured types (length types) rest
      pure (push adjusted (closure expected (to_captures types))))

spawn_stack : SeqType → StackType → M StackType
unfolding spawn_closure
spawn_stack (quotation expected) (cons rest (quotation actual)) =
    spawn_closure expected actual (cons rest (quotation actual)) rest
spawn_stack expected stack = pure stack

unfoldable pub adjust_stack_for_spawn : StackType → Effect → M StackType
unfolding spawn_stack
adjust_stack_for_spawn stack (effect (cons _ top) _ _) = spawn_stack top stack
adjust_stack_for_spawn stack (effect empty _ _) = pure stack
adjust_stack_for_spawn stack (effect (row_var _) _ _) = pure stack

module _ (fuel : ℕ) where
  closure_of : Effect → Effect → M SeqType
  unfolding captured to_captures
  closure_of body expected = do
    types ← captured (calculate_captures body expected)
    pure (closure expected (to_captures types))

  quotation_of : Effect → Effect → M SeqType
  unfolding closure_of unified
  quotation_of body expected =
      if is_empty_stack (inputs expected) && (if is_empty_stack (inputs body) then false else true)
      then closure_of body expected
      else (do
        _ ← unified quotation_mismatch (unify_types fuel (quotation body) (quotation expected))
        pure (quotation expected))

  captures_for : Effect → Option SeqType → M SeqType
  unfolding closure_of quotation_of
  captures_for body (some (closure expected _)) = closure_of body expected
  captures_for body (some (quotation expected)) = quotation_of body expected
  captures_for body _ = pure (quotation body)

  unfoldable pub analyze_captures : Effect → M SeqType
  unfolding captures_for
  analyze_captures body cells = captures_for body cells.expected_quotation_type cells
