-- ===== src/Compiler/Unification/Fuel.antt =====
-- The fuel of a unification: how much flat stacks need, and results at a greater fuel.
use cem.Prelude.{ℕ, zero, suc, ◌<◌, String, ◌≡◌, ◌≢◌, refl, ap, [], arith}
use cem.Prelude.Dict.{lookup}
use cem.Compiler.Types.{
  SeqType, quotation, closure, union, var, StackType, empty, cons, row_var, depth,
}
use cem.Compiler.Unification.Substitution.{Subst, apply_stack}
use cem.Compiler.Unification.Unify.{
  Outcome, ok, err, out_of_fuel, ◌>>=◌, bind_row, bind_type, unify_types_with, unify_stacks,
}
use cem.Compiler.Unification.Flat.{FlatType, FlatStack, apply_stack-FlatStack}
use cem.Compiler.Unification.Steps.{TypeStep, same, left, right, unify_types-step}
use cem.Compiler.Unification.Sound.{TypeStep-UnifiesTypes}

-- A substitution of types alone keeps the depth.
pub depth-apply_stack :
    (t : Subst) (st : StackType) → t.rows ≡ [] → depth (apply_stack t st) ≡ depth st
unfolding depth apply_stack lookup
depth-apply_stack t empty h = refl
depth-apply_stack t (row_var name) h = rw h
depth-apply_stack t (cons rest top) h = ap suc (depth-apply_stack t rest h)

pub TypeStep-rows : {t1 t2 : SeqType} {t : Subst} → TypeStep t1 t2 t → t.rows ≡ []
TypeStep-rows (same e d) = rw d
TypeStep-rows (left name e free d) = rw d
TypeStep-rows (right name e free d) = rw d

bind_type-ne-out_of_fuel : (name : String) (ty : SeqType) → bind_type name ty ≢ out_of_fuel
unfolding bind_type
bind_type-ne-out_of_fuel name ty = ground arith

bind_row-ne-out_of_fuel : (name : String) (st : StackType) → bind_row name st ≢ out_of_fuel
unfolding bind_row
bind_row-ne-out_of_fuel name st = ground arith

module _ (unify : StackType → StackType → Outcome Subst) where
  unify_types-ne-out_of_fuel :
      (t1 t2 : SeqType) → FlatType t1 → FlatType t2 → unify_types_with unify t1 t2 ≢ out_of_fuel
  unfolding unify_types_with
  unify_types-ne-out_of_fuel (var name) ty f1 f2 = bind_type-ne-out_of_fuel name ty
  unify_types-ne-out_of_fuel (quotation _) t2 f1 f2 = absurd f1
  unify_types-ne-out_of_fuel (closure _ _) t2 f1 f2 = absurd f1
  unify_types-ne-out_of_fuel t1 (quotation _) f1 f2 = absurd f2
  unify_types-ne-out_of_fuel t1 (closure _ _) f1 f2 = absurd f2
  unify_types-ne-out_of_fuel t1 (var name) f1 f2 = bind_type-ne-out_of_fuel name _
  unify_types-ne-out_of_fuel (union a) (union b) f1 f2 = ground arith
  unify_types-ne-out_of_fuel t1 t2 f1 f2 = ground arith

-- A chain that does not run out in its parts does not run out.
>>=-ne-out_of_fuel :
    (m : Outcome Subst) (f : Subst → Outcome Subst)
    → m ≢ out_of_fuel
    → ((s : Subst) → m ≡ ok s → f s ≢ out_of_fuel)
    → (m >>= f) ≢ out_of_fuel
>>=-ne-out_of_fuel (ok s) f hm hf = hf s refl
>>=-ne-out_of_fuel (err e) f hm hf = ground arith
>>=-ne-out_of_fuel out_of_fuel f hm hf = hm

-- On stacks without quotations and closures, fuel above the depth of the first is enough:
-- `unify_stacks` gives a substitution or an error.
pub unify_stacks-total :
    (fuel : ℕ) (s1 s2 : StackType)
    → FlatStack s1
    → FlatStack s2
    → depth s1 < fuel
    → unify_stacks fuel s1 s2 ≢ out_of_fuel
unfolding unify_stacks depth
unify_stacks-total zero s1 s2 f1 f2 h = absurd (omega arith)
unify_stacks-total (suc fuel) (row_var name) s2 f1 f2 h = bind_row-ne-out_of_fuel name s2
unify_stacks-total (suc fuel) empty (row_var name) f1 f2 h = bind_row-ne-out_of_fuel name empty
unify_stacks-total (suc fuel) (cons rest1 top1) (row_var name) f1 f2 h =
    bind_row-ne-out_of_fuel name (cons rest1 top1)
unify_stacks-total (suc fuel) empty empty f1 f2 h = ground arith
unify_stacks-total (suc fuel) empty (cons rest2 top2) f1 f2 h = ground arith
unify_stacks-total (suc fuel) (cons rest1 top1) empty f1 f2 h = ground arith
unify_stacks-total (suc fuel) (cons rest1 top1) (cons rest2 top2) f1 f2 h =
    >>=-ne-out_of_fuel _ _ (unify_types-ne-out_of_fuel (unify_stacks fuel) top1 top2 f1.1 f2.1)
      λ s tops.
        let step = unify_types-step (unify_stacks fuel) top1 top2 f1.1 f2.1 tops in
        let solved = (TypeStep-UnifiesTypes f1.1 f2.1 step).solved in
        >>=-ne-out_of_fuel _ _
          (unify_stacks-total fuel (apply_stack s rest1) (apply_stack s rest2)
            (apply_stack-FlatStack solved rest1 f1.0) (apply_stack-FlatStack solved rest2 f2.0)
            (omega (arith, depth-apply_stack s rest1 (TypeStep-rows step))))
          (λ t _. ground arith)
