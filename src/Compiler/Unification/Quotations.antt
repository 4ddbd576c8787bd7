-- ===== src/Compiler/Unification/Quotations.antt =====
-- Quotations in a unification: `apply_type` does not enter them.
use cem.Prelude.{ℕ, suc, String, ◌≡◌, ◌≢◌, refl, ap, arith, ◌∙◌, sym, eq_refl}
use cem.Prelude.Dict.{lookup, insert_all}
use cem.Compiler.Unification.General.{cons_top}
use cem.Compiler.Unification.Compose.{lookup-compose_types}
use cem.Compiler.Types.{SeqType, int, quotation, closure, var, StackType, empty, cons}
use cem.Compiler.Unification.Substitution.{Subst, no_subst, apply_type, apply_stack, compose}
use cem.Compiler.Unification.Unify.{
  unify_types, unify_effects, ok, bind_type, occurs_in_type, is_var, unify_types_with, unify_stacks,
}
use cem.Compiler.Unification.Steps.{type_subst}
use cem.Compiler.Types.{Effect, effect, no_effects}

-- Whatever `unify_types` returns for two quotations that differ, they differ after it is applied.
pub unify_types-quotation_apart :
    (fuel : ℕ) (e1 e2 : Effect) {t : Subst}
    → e1 ≢ e2
    → unify_types fuel (quotation e1) (quotation e2) ≡ ok t
    → apply_type t (quotation e1) ≢ apply_type t (quotation e2)
unfolding apply_type
unify_types-quotation_apart fuel e1 e2 differ h equal = differ (ground arith)

-- A type with no variable and no effect.
abbrev pub IsGround : SeqType → Type 0
IsGround (quotation _) = ⊥
IsGround (closure _ _) = ⊥
IsGround (var _) = ⊥
IsGround _ = Unit

-- ( [ T -- ] T ) and ( [ a -- ] b ).
abbrev pub takes : SeqType → SeqType → StackType
takes inner top = cons (cons empty (quotation (effect (cons empty inner) empty no_effects))) top

bind_type-ground :
    (name : String) (ty : SeqType) → IsGround ty → bind_type name ty ≡ ok (type_subst name ty)
unfolding bind_type is_var occurs_in_type
bind_type-ground name (var m) g = absurd g
bind_type-ground name (quotation e) g = absurd g
bind_type-ground name (closure e c) g = absurd g
bind_type-ground name _ g = refl

apply_type-ground : (t : Subst) (ty : SeqType) → IsGround ty → apply_type t ty ≡ ty
unfolding apply_type
apply_type-ground t (var m) g = absurd g
apply_type-ground t int g = refl
apply_type-ground t _ g = refl

-- The substitution that the run below returns: the binding of the top, then those of the quotation.
rebound : String → SeqType → SeqType → Subst
rebound name a b =
    compose (type_subst name b)
      (compose (compose (compose (type_subst name a) no_subst) no_subst) no_subst)

module _ (name : String) (a b : SeqType) (ga : IsGround a) (gb : IsGround b) where
  rebound_run :
      (fuel : ℕ)
      → unify_stacks (suc (suc (suc (suc fuel)))) (takes (var name) (var name)) (takes a b)
        ≡ ok (rebound name a b)
  unfolding unify_stacks unify_types_with unify_effects apply_stack apply_type rebound
  rebound_run fuel = rw (bind_type-ground name b gb) (rw (bind_type-ground name a ga) refl)

  apply_type-rebound : apply_type (rebound name a b) (var name) ≡ a
  unfolding rebound apply_type lookup insert_all
  apply_type-rebound = simp (lookup-compose_types, eq_refl, apply_type-ground _ a ga)

-- For any two ground types that differ, `unify_stacks` says that ( [ T -- ] T ) and ( [ a -- ] b )
-- unify, with the result T = a, under which they are not equal: the T on top was bound to b.
pub unify_stacks-quotation_rebinds :
    (fuel : ℕ) (name : String) (a b : SeqType)
    → IsGround a
    → IsGround b
    → a ≢ b
    → (t : Subst) × (unify_stacks
          (suc (suc (suc (suc fuel))))
          (takes (var name) (var name))
          (takes a b)
        ≡ ok t)
      × (apply_type t (var name) ≡ a)
      × (apply_stack t (takes (var name) (var name)) ≢ apply_stack t (takes a b))
unfolding cons_top apply_type apply_stack
unify_stacks-quotation_rebinds fuel name a b ga gb differ = (
  rebound name a b,
  rebound_run name a b ga gb fuel,
  apply_type-rebound name a b ga gb,
  λ equal. differ (
      sym (apply_type-rebound name a b ga gb)
      ∙ ap cons_top equal
      ∙ apply_type-ground (rebound name a b) b gb),
)
