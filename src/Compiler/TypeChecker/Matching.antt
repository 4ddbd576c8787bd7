-- ===== src/Compiler/TypeChecker/Matching.antt =====
-- crates/compiler/src/typechecker.rs: `infer_match` and `infer_quotation` over the functions that
-- infer the code inside them. The variants of a match are looked for in the order of the table of
-- unions, where the source iterates a HashMap.
use cem.Prelude.{ℕ, String, Bool, true, Option, none, some, List, [], ◌∷◌, str_eq, if◌then◌else◌}
use cem.Prelude.Dict.{Dict}
use cem.Compiler.Types.{
  SeqType, closure, StackType, empty, row_var, push, Effect, effect, SideEffects, no_effects,
  Captures, no_captures, and_capture,
}
use cem.Compiler.Types.Equality.{eq_stack}
use cem.Compiler.CallGraph.{Pattern, variant, variant_with_bindings}
use cem.Compiler.Unification.Substitution.{Subst, no_subst, apply_stack, compose}
use cem.Compiler.Unification.Unify.{unify_stacks}
use cem.Compiler.TypeChecker.State.{
  Declarations, VariantInfo, VariantFieldInfo, UnionTypeInfo, Cells, M, ◌>>=◌, ◌>>◌, pure, fail,
  get, modify, Inferred, no_arms, arms_aux_mismatch, arms_mismatch, unknown_variant, unknown_field,
  quotation_aux_not_empty,
}
use cem.Compiler.TypeChecker.Positions.{pop_type}
use cem.Compiler.TypeChecker.Apply.{unified, or_fail, analyze_captures}
use cem.Compiler.TypeChecker.Branches.{merge_effects, restore_aux}

abbrev variant_or : Option VariantInfo → Option VariantInfo → Option VariantInfo
variant_or (some v) o = some v
variant_or none o = o

find_in : String → List VariantInfo → Option VariantInfo
find_in name [] = none
find_in name (v ∷ variants) =
    let later = find_in name variants in if str_eq v.name name then some v else later

find_in_unions : String → Dict UnionTypeInfo → Option VariantInfo
unfolding find_in
find_in_unions name [] = none
find_in_unions name ((_, info) ∷ unions) =
    variant_or (find_in name info.variants) (find_in_unions name unions)

unfoldable pub find_variant : Declarations → String → Option VariantInfo
unfolding find_in_unions
find_variant checker name = find_in_unions name checker.unions

push_fields : StackType → List VariantFieldInfo → StackType
unfolding push
push_fields stack [] = stack
push_fields stack (field ∷ fields) = push_fields (push stack field.field_type) fields

find_field : String → List VariantFieldInfo → Option VariantFieldInfo
find_field name [] = none
find_field name (field ∷ fields) =
    let later = find_field name fields in if str_eq field.name name then some field else later

push_bindings : StackType → List String → VariantInfo → M StackType
unfolding find_field push
push_bindings stack [] info = pure stack
push_bindings stack (binding ∷ bindings) info = do
  field ← or_fail (find_field binding info.fields) (unknown_field binding info.name)
  push_bindings (push stack field.field_type) bindings info

unfoldable pub push_variant_fields : StackType → Pattern → VariantInfo → M StackType
unfolding push_fields push_bindings
push_variant_fields stack (variant _) info = pure (push_fields stack info.fields)
push_variant_fields stack (variant_with_bindings _ bindings) info =
    push_bindings stack bindings info

abbrev variant_name : Pattern → String
variant_name (variant name) = name
variant_name (variant_with_bindings name _) = name

-- What one arm leaves.
pub record ArmResult : Type 0 where
  pub inferred : Inferred
  pub aux : StackType

-- One round of the loop over the arms.
unfoldable pub infer_arm :
    Declarations → Pattern → (StackType → M Inferred) → StackType → StackType → M ArmResult
unfolding push_variant_fields find_variant restore_aux
infer_arm checker pattern infer_body aux_before stack = do
  restore_aux aux_before
  info ←
      or_fail (find_variant checker (variant_name pattern)) (unknown_variant (variant_name pattern))
  arm_stack ← push_variant_fields stack pattern info
  inferred ← infer_body arm_stack
  after ← get
  pure (record { inferred = inferred; aux = after.current_aux_stack })

same_aux : StackType → List ArmResult → Bool
same_aux aux [] = true
same_aux aux (arm ∷ arms) =
    let rest = same_aux aux arms in if eq_stack arm.aux aux then rest else eq_stack arm.aux aux

-- The substitutions of the arms composed, and their side effects merged, in their order.
combine : Subst → SideEffects → List ArmResult → Subst × SideEffects
combine t es [] = (t, es)
combine t es (arm ∷ arms) =
    combine (compose t arm.inferred.subst) (merge_effects es arm.inferred.effects) arms

join_arms : ℕ → StackType → Subst → List ArmResult → M (StackType × Subst)
unfolding unified
join_arms fuel final t [] = pure (final, t)
join_arms fuel final t (arm ∷ arms) = do
  arm_subst ←
      unified (arms_mismatch final arm.inferred.stack) (unify_stacks fuel final arm.inferred.stack)
  join_arms fuel (apply_stack arm_subst final) (compose t arm_subst) arms

finish_match : ℕ → List ArmResult → M Inferred
unfolding same_aux combine join_arms restore_aux
finish_match fuel [] = fail no_arms
finish_match fuel (first ∷ arms) =
    if same_aux first.aux arms
    then (do
      restore_aux first.aux
      let (t, es) = combine no_subst no_effects (first ∷ arms)
      (result, t') ← join_arms fuel first.inferred.stack t arms
      pure (record { stack = result; subst = t'; effects = es }))
    else fail arms_aux_mismatch

-- `infer_arms` infers all arms, in their order, from the stack below the matched value.
unfoldable pub infer_match :
    ℕ → Bool → (StackType → StackType → M (List ArmResult)) → StackType → M Inferred
unfolding finish_match
infer_match fuel is_empty infer_arms stack = if is_empty then fail no_arms else (do
  (below, _) ← pop_type stack "match expression"
  before ← get
  arms ← infer_arms before.current_aux_stack below
  finish_match fuel arms)

pop_captures : Captures → StackType → M StackType
pop_captures no_captures stack = pure stack
pop_captures (and_capture _ c) stack = do
  (below, _) ← pop_type stack "closure capture"
  pop_captures c below

insert_quotation : ℕ → SeqType → Cells → Cells
insert_quotation id ty cells = record cells { quotation_types = (id, ty) ∷ cells.quotation_types }

push_quotation : SeqType → StackType → M Inferred
unfolding pop_captures push
push_quotation (closure e c) stack = do
  below ← pop_captures c stack
  pure (record { stack = push below (closure e c); subst = no_subst; effects = no_effects })
push_quotation ty stack =
    pure (record { stack = push stack ty; subst = no_subst; effects = no_effects })

enter_quotation : Cells → Cells
enter_quotation cells = record cells {
  expected_quotation_type = none;
  current_aux_stack = empty;
  in_quotation_scope = true;
}

leave_quotation : Cells → Cells → Cells
leave_quotation outer cells = record cells {
  expected_quotation_type = outer.expected_quotation_type;
  current_aux_stack = outer.current_aux_stack;
  in_quotation_scope = outer.in_quotation_scope;
}

-- `infer_statements(body)`
unfoldable pub infer_statements : (StackType → M Inferred) → M Effect
infer_statements infer_body = do
  body ← infer_body (row_var "input")
  pure (
      effect (apply_stack body.subst (row_var "input")) (apply_stack body.subst body.stack)
        body.effects)

unfoldable pub infer_quotation : ℕ → ℕ → (StackType → M Inferred) → StackType → M Inferred
unfolding enter_quotation leave_quotation insert_quotation push_quotation infer_statements
infer_quotation fuel id infer_body stack = do
  outer ← get
  modify enter_quotation
  body_effect ← infer_statements infer_body
  inside ← get
  (if eq_stack inside.current_aux_stack empty
      then pure tt
      else fail (quotation_aux_not_empty inside.current_aux_stack))
  modify (leave_quotation outer)
  quot_type ← analyze_captures fuel body_effect
  modify (insert_quotation id quot_type)
  push_quotation quot_type stack
