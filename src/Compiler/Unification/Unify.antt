-- ===== src/Compiler/Unification/Unify.antt =====
-- crates/compiler/src/unification.rs: the occurs checks, `unify_types` and `unify_stacks`.
use cem.Prelude.{ℕ, zero, suc, String, ◌≡◌, refl, Bool, false, ◌||◌, [], ◌∷◌, str_eq, if◌then◌else◌}
use cem.Compiler.Types.{
  SeqType, int, float, bool, string, symbol, channel, quotation, closure, union, var, StackType,
  empty, cons, row_var, Effect, inputs, outputs, Captures, no_captures, and_capture,
}
use cem.Compiler.Unification.Substitution.{Subst, no_subst, apply_stack, compose}

pub data UnifyError : Type 0 where
  union_mismatch : String → String → UnifyError
  infinite_type : String → SeqType → UnifyError
  infinite_stack : String → StackType → UnifyError
  type_mismatch : SeqType → SeqType → UnifyError
  shape_mismatch : StackType → StackType → UnifyError

pub data Outcome {ℓ} (A : Type ℓ) : Type ℓ where
  ok : A → Outcome A
  err : UnifyError → Outcome A
  out_of_fuel : Outcome A

infixl 5 ◌>>=◌
abbrev pub ◌>>=◌ {ℓ κ} : {A : Type ℓ} {B : Type κ} → Outcome A → (A → Outcome B) → Outcome B
ok value >>= next = next value
err e >>= next = err e
out_of_fuel >>= next = out_of_fuel

-- The check does not look at the types on the stack.
unfoldable pub occurs_in_stack : String → StackType → Bool
occurs_in_stack v empty = false
occurs_in_stack v (row_var name) = str_eq name v
occurs_in_stack v (cons rest _) = occurs_in_stack v rest

mutual
  unfolding occurs_in_stack

  pub occurs_in : String → SeqType → Bool
  occurs_in v (var name) = str_eq name v
  occurs_in v int = false
  occurs_in v float = false
  occurs_in v bool = false
  occurs_in v string = false
  occurs_in v symbol = false
  occurs_in v channel = false
  occurs_in v (union _) = false
  occurs_in v (quotation e) = occurs_in_stack v (inputs e) || occurs_in_stack v (outputs e)
  occurs_in v (closure e c) =
      occurs_in_stack v (inputs e) || occurs_in_stack v (outputs e) || any_occurs_in v c

  pub any_occurs_in : String → Captures → Bool
  any_occurs_in v no_captures = false
  any_occurs_in v (and_capture t c) = occurs_in v t || any_occurs_in v c

-- `occurs_in_type`
unfoldable pub occurs_in_type : String → SeqType → Bool
unfolding occurs_in any_occurs_in
occurs_in_type v t = occurs_in v t

unfoldable pub is_var : String → SeqType → Bool
is_var v (var name) = str_eq name v
is_var v _ = false

unfoldable pub is_row_var : String → StackType → Bool
is_row_var v (row_var name) = str_eq name v
is_row_var v _ = false

-- The arm `(Type::Var(name), ty) | (ty, Type::Var(name))`.
unfoldable pub bind_type : String → SeqType → Outcome Subst
bind_type name ty =
    if is_var name ty
    then ok no_subst
    else if occurs_in_type name ty
    then err (infinite_type name ty)
    else ok (record { types = (name, ty) ∷ []; rows = [] })

-- The arm `(StackType::RowVar(name), stack) | (stack, StackType::RowVar(name))`.
unfoldable pub bind_row : String → StackType → Outcome Subst
bind_row name stack =
    if is_row_var name stack
    then ok no_subst
    else if occurs_in_stack name stack
    then err (infinite_stack name stack)
    else ok (record { types = []; rows = (name, stack) ∷ [] })

-- The body that the three arms for quotations and closures share; captures are ignored.
unfoldable pub unify_effects :
    (StackType → StackType → Outcome Subst) → Effect → Effect → Outcome Subst
unify_effects unify e1 e2 = do
  s_in ← unify (inputs e1) (inputs e2)
  s_out ← unify (apply_stack s_in (outputs e1)) (apply_stack s_in (outputs e2))
  ok (compose s_in s_out)

-- `unify_types` over the function that it calls on the stacks of effects.
unfoldable pub unify_types_with :
    (StackType → StackType → Outcome Subst) → SeqType → SeqType → Outcome Subst
unify_types_with unify int int = ok no_subst
unify_types_with unify float float = ok no_subst
unify_types_with unify bool bool = ok no_subst
unify_types_with unify string string = ok no_subst
unify_types_with unify symbol symbol = ok no_subst
unify_types_with unify channel channel = ok no_subst
unify_types_with unify (union name1) (union name2) =
    if str_eq name1 name2 then ok no_subst else err (union_mismatch name1 name2)
unify_types_with unify (var name) ty = bind_type name ty
unify_types_with unify ty (var name) = bind_type name ty
unify_types_with unify (quotation e1) (quotation e2) = unify_effects unify e1 e2
unify_types_with unify (closure e1 _) (closure e2 _) = unify_effects unify e1 e2
unify_types_with unify (quotation e1) (closure e2 _) = unify_effects unify e1 e2
unify_types_with unify (closure e2 _) (quotation e1) = unify_effects unify e1 e2
unify_types_with unify t1 t2 = err (type_mismatch t1 t2)

unfoldable pub unify_stacks : ℕ → StackType → StackType → Outcome Subst
unify_stacks zero s1 s2 = out_of_fuel
unify_stacks (suc fuel) empty empty = ok no_subst
unify_stacks (suc fuel) (row_var name) stack = bind_row name stack
unify_stacks (suc fuel) stack (row_var name) = bind_row name stack
unify_stacks (suc fuel) (cons rest1 top1) (cons rest2 top2) = do
  s_top ← unify_types_with (unify_stacks fuel) top1 top2
  s_rest ← unify_stacks fuel (apply_stack s_top rest1) (apply_stack s_top rest2)
  ok (compose s_top s_rest)
unify_stacks (suc fuel) s1 s2 = err (shape_mismatch s1 s2)

-- `unify_types`
unfoldable pub unify_types : ℕ → SeqType → SeqType → Outcome Subst
unify_types fuel t1 t2 = unify_types_with (unify_stacks fuel) t1 t2

-- A chain that succeeds has a first part that succeeds, and goes on from its value.
pub >>=-eq-ok {ℓ κ} :
    {A : Type ℓ} {B : Type κ} (first : Outcome A) (next : A → Outcome B) {result : B}
    → (first >>= next) ≡ ok result
    → (value : A) × (first ≡ ok value) × (next value ≡ ok result)
>>=-eq-ok (err e) next eq = cc
>>=-eq-ok out_of_fuel next eq = cc
>>=-eq-ok (ok value) next eq = (value, refl, eq)

pub ok-injective {ℓ} : {A : Type ℓ} {a b : A} → ok a ≡ ok b → a ≡ b
ok-injective h = cc
