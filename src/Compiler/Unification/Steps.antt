-- ===== src/Compiler/Unification/Steps.antt =====
-- The substitutions that a single variable's binding gives, and when `unify_types` returns one.
use cem.Prelude.{String, ◌≡◌, inl, inr, refl, [], ◌∷◌, true, false, arith, eq_iff, ◌⊎◌}
use cem.Compiler.Types.{
  SeqType, int, float, bool, string, symbol, channel, quotation, closure, union, var, StackType,
  row_var,
}
use cem.Compiler.Unification.Substitution.{Subst, no_subst}
use cem.Compiler.Unification.Unify.{
  Outcome, ok, bind_type, bind_row, is_var, is_row_var, occurs_in_type, occurs_in_stack,
  unify_types_with,
}
use cem.Compiler.Unification.Flat.{FlatType}

abbrev pub type_subst : String → SeqType → Subst
type_subst name ty = record { types = (name, ty) ∷ []; rows = [] }

abbrev pub row_subst : String → StackType → Subst
row_subst name st = record { types = []; rows = (name, st) ∷ [] }

-- How a call on flat types succeeds.
pub data TypeStep (t1 t2 : SeqType) (t : Subst) : Type 0 where
  same : t1 ≡ t2 → t ≡ no_subst → TypeStep t1 t2 t
  left :
      (name : String)
      → t1 ≡ var name
      → occurs_in_type name t2 ≡ false
      → t ≡ type_subst name t2
      → TypeStep t1 t2 t
  right :
      (name : String)
      → t2 ≡ var name
      → occurs_in_type name t1 ≡ false
      → t ≡ type_subst name t1
      → TypeStep t1 t2 t

pub data RowStep (s1 s2 : StackType) (t : Subst) : Type 0 where
  same : s1 ≡ s2 → t ≡ no_subst → RowStep s1 s2 t
  left :
      (name : String)
      → s1 ≡ row_var name
      → occurs_in_stack name s2 ≡ false
      → t ≡ row_subst name s2
      → RowStep s1 s2 t
  right :
      (name : String)
      → s2 ≡ row_var name
      → occurs_in_stack name s1 ≡ false
      → t ≡ row_subst name s1
      → RowStep s1 s2 t

is_var→eq : (name : String) (ty : SeqType) → is_var name ty ≡ true → ty ≡ var name
unfolding is_var
is_var→eq name (var m) h = ground (arith, eq_iff m name)
is_var→eq name _ h = cc

is_row_var→eq : (name : String) (st : StackType) → is_row_var name st ≡ true → st ≡ row_var name
unfolding is_row_var
is_row_var→eq name (row_var m) h = ground (arith, eq_iff m name)
is_row_var→eq name _ h = cc

pub bind_type_cases :
    (name : String) (ty : SeqType) {t : Subst}
    → bind_type name ty ≡ ok t
    → (ty ≡ var name) × (t ≡ no_subst) ⊎ (occurs_in_type name ty ≡ false) × (t ≡ type_subst name ty)
unfolding bind_type
bind_type_cases name ty h = ground (arith, is_var→eq name ty)

pub bind_row_cases :
    (name : String) (st : StackType) {t : Subst}
    → bind_row name st ≡ ok t
    → (st ≡ row_var name) × (t ≡ no_subst)
      ⊎ (occurs_in_stack name st ≡ false) × (t ≡ row_subst name st)
unfolding bind_row
bind_row_cases name st h = ground (arith, is_row_var→eq name st)

bind_left :
    (name : String) (ty : SeqType) {t : Subst} → bind_type name ty ≡ ok t → TypeStep (var name) ty t
bind_left name ty h = elim (bind_type_cases name ty h) [
  | inl (e, d) ↦ same (ground arith) d
  | inr (free, d) ↦ left name refl free d
]

bind_right :
    (name : String) (ty : SeqType) {t : Subst} → bind_type name ty ≡ ok t → TypeStep ty (var name) t
bind_right name ty h = elim (bind_type_cases name ty h) [
  | inl (e, d) ↦ same e d
  | inr (free, d) ↦ right name refl free d
]

module _ (unify : StackType → StackType → Outcome Subst) where
  pub unify_types-step :
      (t1 t2 : SeqType) {t : Subst}
      → FlatType t1
      → FlatType t2
      → unify_types_with unify t1 t2 ≡ ok t
      → TypeStep t1 t2 t
  unfolding unify_types_with
  unify_types-step (var name) ty f1 f2 h = bind_left name ty h
  unify_types-step (quotation _) t2 f1 f2 h = absurd f1
  unify_types-step (closure _ _) t2 f1 f2 h = absurd f1
  unify_types-step (union a) (union b) f1 f2 h = same (ground (arith, eq_iff a b)) (ground arith)
  unify_types-step t1 (quotation _) f1 f2 h = absurd f2
  unify_types-step t1 (closure _ _) f1 f2 h = absurd f2
  unify_types-step int (var name) f1 f2 h = bind_right name int h
  unify_types-step float (var name) f1 f2 h = bind_right name float h
  unify_types-step bool (var name) f1 f2 h = bind_right name bool h
  unify_types-step string (var name) f1 f2 h = bind_right name string h
  unify_types-step symbol (var name) f1 f2 h = bind_right name symbol h
  unify_types-step channel (var name) f1 f2 h = bind_right name channel h
  unify_types-step (union a) (var name) f1 f2 h = bind_right name (union a) h
  unify_types-step int int f1 f2 h = same refl (ground arith)
  unify_types-step float float f1 f2 h = same refl (ground arith)
  unify_types-step bool bool f1 f2 h = same refl (ground arith)
  unify_types-step string string f1 f2 h = same refl (ground arith)
  unify_types-step symbol symbol f1 f2 h = same refl (ground arith)
  unify_types-step channel channel f1 f2 h = same refl (ground arith)
  unify_types-step t1 t2 f1 f2 h = absurd (ground arith)
