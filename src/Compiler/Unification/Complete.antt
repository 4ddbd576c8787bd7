-- ===== src/Compiler/Unification/Complete.antt =====
-- The steps of `unify_types` and `unify_stacks` that bind a variable succeed where there is a
-- unifier, and a unifier absorbs the binding.
use cem.Prelude.{
  ◌+◌, ◌<◌, String, ◌≡◌, refl, ap, ap₂, arith, ◌∙◌, sym, true, false, inl, inr, Bool-cases, eq_iff,
  str_eq,
}
use cem.Prelude.Dict.{lookup}
use cem.Compiler.Types.{
  SeqType, int, float, bool, string, symbol, channel, quotation, closure, union, var, StackType,
  empty, cons, row_var, depth,
}
use cem.Compiler.Unification.Substitution.{Subst, no_subst, apply_type, apply_stack, compose}
use cem.Compiler.Unification.Unify.{
  Outcome, ok, bind_row, bind_type, occurs_in_type, occurs_in_stack, is_var, is_row_var,
  unify_types_with,
}
use cem.Compiler.Unification.Flat.{FlatType}
use cem.Compiler.Unification.Steps.{type_subst, row_subst}

-- Applying `t` first changes nothing of what `u` gives.
pub record Absorbs (u t : Subst) : Type 0 where
  pub on_type : (ty : SeqType) → apply_type u (apply_type t ty) ≡ apply_type u ty
  pub on_stack : (st : StackType) → apply_stack u (apply_stack t st) ≡ apply_stack u st

module _ (u t : Subst)
    (types : (name : String) → apply_type u (apply_type t (var name)) ≡ apply_type u (var name))
    (rows : (name : String)
      → apply_stack u (apply_stack t (row_var name)) ≡ apply_stack u (row_var name)) where
  absorbs_type : (ty : SeqType) → apply_type u (apply_type t ty) ≡ apply_type u ty
  unfolding apply_type
  absorbs_type (var name) = types name
  absorbs_type int = refl
  absorbs_type _ = refl

  absorbs_stack : (st : StackType) → apply_stack u (apply_stack t st) ≡ apply_stack u st
  unfolding apply_stack
  absorbs_stack empty = refl
  absorbs_stack (row_var name) = rows name
  absorbs_stack (cons rest top) = ap₂ cons (absorbs_stack rest) (absorbs_type top)

  Absorbs-of_variables : Absorbs u t
  Absorbs-of_variables = record { on_type = absorbs_type; on_stack = absorbs_stack }

pub Absorbs-no_subst : (u : Subst) → Absorbs u no_subst
unfolding apply_type apply_stack lookup
Absorbs-no_subst u = Absorbs-of_variables u no_subst (λ name. refl) (λ name. refl)

Absorbs-type_subst :
    (u : Subst) (name : String) (ty : SeqType)
    → apply_type u (var name) ≡ apply_type u ty
    → Absorbs u (type_subst name ty)
unfolding apply_type apply_stack lookup
Absorbs-type_subst u name ty h =
    Absorbs-of_variables u (type_subst name ty)
      (λ m. elim (Bool-cases (str_eq name m)) [
        | inl hit ↦ rw (hit, ← (eq_iff name m).0 hit) (sym h)
        | inr miss ↦ rw miss refl
      ])
      (λ m. refl)

Absorbs-row_subst :
    (u : Subst) (name : String) (st : StackType)
    → apply_stack u (row_var name) ≡ apply_stack u st
    → Absorbs u (row_subst name st)
unfolding apply_type apply_stack lookup
Absorbs-row_subst u name st h =
    Absorbs-of_variables u (row_subst name st) (λ m. refl)
      (λ m. elim (Bool-cases (str_eq name m)) [
        | inl hit ↦ rw (hit, ← (eq_iff name m).0 hit) (sym h)
        | inr miss ↦ rw miss refl
      ])

pub Absorbs-compose :
    (u s t : Subst)
    → ((ty : SeqType) → apply_type (compose s t) ty ≡ apply_type t (apply_type s ty))
    → ((st : StackType) → apply_stack (compose s t) st ≡ apply_stack t (apply_stack s st))
    → Absorbs u s
    → Absorbs u t
    → Absorbs u (compose s t)
Absorbs-compose u s t on_types on_stacks abs_s abs_t = record {
  on_type = λ ty. rw on_types (abs_t.on_type (apply_type s ty) ∙ abs_s.on_type ty);
  on_stack = λ st. rw on_stacks (abs_t.on_stack (apply_stack s st) ∙ abs_s.on_stack st);
}

-- A flat type holds a variable only if it is that variable.
occurs_in_flat :
    (name : String) (ty : SeqType)
    → FlatType ty
    → is_var name ty ≡ false
    → occurs_in_type name ty ≡ false
unfolding occurs_in_type is_var
occurs_in_flat name (var m) f h = h
occurs_in_flat name (quotation e) f h = absurd f
occurs_in_flat name (closure e c) f h = absurd f
occurs_in_flat name _ f h = refl

module _ (u : Subst) where
  bind_type_complete :
      (name : String) (ty : SeqType)
      → FlatType ty
      → apply_type u (var name) ≡ apply_type u ty
      → (t : Subst) × (bind_type name ty ≡ ok t) × Absorbs u t
  unfolding bind_type
  bind_type_complete name ty f h = elim (Bool-cases (is_var name ty)) [
    | inl hit ↦ (no_subst, rw hit, Absorbs-no_subst u)
    | inr miss ↦ (
      type_subst name ty,
      rw (miss, occurs_in_flat name ty f miss),
      Absorbs-type_subst u name ty h,
    )
  ]

  module _ (unify : StackType → StackType → Outcome Subst) where
    pub unify_types_complete :
        (t1 t2 : SeqType)
        → FlatType t1
        → FlatType t2
        → apply_type u t1 ≡ apply_type u t2
        → (t : Subst) × (unify_types_with unify t1 t2 ≡ ok t) × Absorbs u t
    unfolding unify_types_with apply_type
    unify_types_complete (var name) ty f1 f2 h = bind_type_complete name ty f2 h
    unify_types_complete (quotation _) t2 f1 f2 h = absurd f1
    unify_types_complete (closure _ _) t2 f1 f2 h = absurd f1
    unify_types_complete t1 (quotation _) f1 f2 h = absurd f2
    unify_types_complete t1 (closure _ _) f1 f2 h = absurd f2
    unify_types_complete t1 (var name) f1 f2 h = bind_type_complete name _ f1 (sym h)
    unify_types_complete (union a) (union b) f1 f2 h =
        (no_subst, ground (arith, eq_iff a b), Absorbs-no_subst u)
    unify_types_complete int int f1 f2 h = (no_subst, refl, Absorbs-no_subst u)
    unify_types_complete float float f1 f2 h = (no_subst, refl, Absorbs-no_subst u)
    unify_types_complete bool bool f1 f2 h = (no_subst, refl, Absorbs-no_subst u)
    unify_types_complete string string f1 f2 h = (no_subst, refl, Absorbs-no_subst u)
    unify_types_complete symbol symbol f1 f2 h = (no_subst, refl, Absorbs-no_subst u)
    unify_types_complete channel channel f1 f2 h = (no_subst, refl, Absorbs-no_subst u)
    unify_types_complete t1 t2 f1 f2 h = absurd (ground arith)

  -- A row variable under at least one type cannot equal the stack that it stands in.
  depth-occurs :
      (name : String) (st : StackType)
      → occurs_in_stack name st ≡ true
      → depth (apply_stack u st) ≡ depth st + depth (apply_stack u (row_var name))
  unfolding occurs_in_stack apply_stack depth
  depth-occurs name empty h = cc
  depth-occurs name (row_var m) h = rw ((eq_iff m name).0 h) (omega arith)
  depth-occurs name (cons rest top) h = omega (arith, depth-occurs name rest h)

  depth_pos :
      (name : String) (st : StackType)
      → is_row_var name st ≡ false
      → occurs_in_stack name st ≡ true
      → 0 < depth st
  unfolding is_row_var occurs_in_stack depth
  depth_pos name empty h k = cc
  depth_pos name (row_var m) h k = cc
  depth_pos name (cons rest top) h k = omega arith

  pub bind_row_complete :
      (name : String) (st : StackType)
      → apply_stack u (row_var name) ≡ apply_stack u st
      → (t : Subst) × (bind_row name st ≡ ok t) × Absorbs u t
  unfolding bind_row
  bind_row_complete name st h = elim (Bool-cases (is_row_var name st)) [
    | inl hit ↦ (no_subst, rw hit, Absorbs-no_subst u)
    | inr miss ↦ elim (Bool-cases (occurs_in_stack name st)) [
      | inl inside ↦
          absurd
            (omega (arith, ap depth h, depth-occurs name st inside, depth_pos name st miss inside))
      | inr free ↦ (row_subst name st, rw (miss, free), Absorbs-row_subst u name st h)
    ]
  ]
