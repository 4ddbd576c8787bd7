-- ===== src/Compiler/TypeChecker/Ground/Agree.antt =====
-- What a unification says of stack types over a rigid row variable: two of them are equal, and a
-- signature that asks for no more values than there are leaves the row variable alone.
use cem.Prelude.{
  ℕ, zero, suc, ◌≤◌, String, ◌≡◌, refl, sym, subst, ap₂, false, inl, inr, arith, eq_iff, str_eq,
  Bool-cases,
}
use cem.Prelude.Dict.{lookup}
use cem.Compiler.Types.{
  SeqType, int, float, bool, string, symbol, channel, quotation, closure, union, var, StackType,
  empty, cons, row_var, depth,
}
use cem.Compiler.Unification.Substitution.{Subst, no_subst, apply_type, apply_stack, compose}
use cem.Compiler.Unification.Unify.{
  ok, bind_row, occurs_in_stack, unify_stacks, unify_types_with, >>=-eq-ok, ok-injective,
}
use cem.Compiler.Unification.Compose.{FreshType, FreshStack, apply_stack-fresh}
use cem.Compiler.Unification.Fresh.{FreshStack-compose}
use cem.Compiler.Unification.Steps.{
  TypeStep, same, left, right, type_subst, row_subst, unify_types-step, bind_row_cases,
}
use cem.Compiler.Unification.Fuel.{TypeStep-rows, depth-apply_stack}
use cem.Compiler.TypeChecker.Ground.{
  Concrete, Over, SimpleType, Simple, Concrete-SimpleType, SimpleType-FlatType, Concrete-FreshType,
  Over-FreshStack, occurs_in_stack-Over,
}

Concrete-ne-var : (ty : SeqType) {name : String} → Concrete ty → ty ≡ var name → ⊥
Concrete-ne-var (var _) h e = h
Concrete-ne-var int h e = cc
Concrete-ne-var float h e = cc
Concrete-ne-var bool h e = cc
Concrete-ne-var string h e = cc
Concrete-ne-var symbol h e = cc
Concrete-ne-var channel h e = cc
Concrete-ne-var (quotation _) h e = h
Concrete-ne-var (closure _ _) h e = h
Concrete-ne-var (union _) h e = h

pub concrete_step :
    {t1 t2 : SeqType} {t : Subst}
    → Concrete t1
    → Concrete t2
    → TypeStep t1 t2 t
    → (t1 ≡ t2) × (t ≡ no_subst)
concrete_step c1 c2 (same e d) = (e, d)
concrete_step {t1 = t1} c1 c2 (left name e _ _) = absurd (Concrete-ne-var t1 c1 e)
concrete_step {t2 = t2} c1 c2 (right name e _ _) = absurd (Concrete-ne-var t2 c2 e)

Over-ne-free : (name : String) (st : StackType) → Over name st → occurs_in_stack name st ≡ false → ⊥
Over-ne-free name st h free = let t = occurs_in_stack-Over name st h in cc

pub no_subst-FreshStack : (st : StackType) → FreshStack no_subst st
unfolding lookup
no_subst-FreshStack empty = tt
no_subst-FreshStack (row_var n) = refl
no_subst-FreshStack (cons rest top) = (no_subst-FreshStack rest, fresh top)
  where
    fresh : (ty : SeqType) → FreshType no_subst ty
    fresh (var n) = refl
    fresh int = tt
    fresh _ = tt

-- Binding the row variable of a stack that stands on it: only to itself.
bind_own_row :
    (name n : String) (st : StackType) {t : Subst}
    → n ≡ name
    → Over name st
    → bind_row n st ≡ ok t
    → (st ≡ row_var n) × (t ≡ no_subst)
bind_own_row name n st e h b = elim (bind_row_cases n st b) [
  | inl (same_row, d) ↦ (same_row, d)
  | inr (free, d) ↦ absurd (Over-ne-free name st h (rw (← e) free))
]

-- How a unification of two stacks with tops succeeds.
pub unify_stacks-cons :
    (fuel : ℕ) (r1 r2 : StackType) (t1 t2 : SeqType) {t : Subst}
    → unify_stacks (suc fuel) (cons r1 t1) (cons r2 t2) ≡ ok t
    → (s_top s_rest : Subst) × (unify_types_with (unify_stacks fuel) t1 t2 ≡ ok s_top)
      × (unify_stacks fuel (apply_stack s_top r1) (apply_stack s_top r2) ≡ ok s_rest)
      × (t ≡ compose s_top s_rest)
unfolding unify_stacks
unify_stacks-cons fuel r1 r2 t1 t2 h =
    let (s_top, tops, h1) = >>=-eq-ok _ _ h in
    let (s_rest, rests, h2) = >>=-eq-ok _ _ h1 in
    (s_top, s_rest, tops, rests, sym (ok-injective h2))

module _ (name : String) where
  pub unify_stacks-Over :
      (fuel : ℕ) (s1 s2 : StackType) {t : Subst}
      → Over name s1
      → Over name s2
      → unify_stacks fuel s1 s2 ≡ ok t
      → (s1 ≡ s2) × FreshStack t s1
  unfolding unify_stacks
  unify_stacks-Over zero s1 s2 h1 h2 u = cc
  unify_stacks-Over (suc fuel) empty s2 h1 h2 u = absurd h1
  unify_stacks-Over (suc fuel) (row_var n) s2 h1 h2 u =
      let (e, d) = bind_own_row name n s2 h1 h2 u in (sym e, rw d (no_subst-FreshStack (row_var n)))
  unify_stacks-Over (suc fuel) (cons r1 t1) empty h1 h2 u = absurd h2
  unify_stacks-Over (suc fuel) (cons r1 t1) (row_var n) h1 h2 u =
      let (e, d) = bind_own_row name n (cons r1 t1) h2 h1 u in
      (e, subst (λ s. FreshStack s (cons r1 t1)) (sym d) (no_subst-FreshStack (cons r1 t1)))
  unify_stacks-Over (suc fuel) (cons r1 t1) (cons r2 t2) h1 h2 u =
      let (s_top, s_rest, tops, rests, made) = unify_stacks-cons fuel r1 r2 t1 t2 u in
      let (e, d) = concrete_step h1.1 h2.1 (
        unify_types-step (unify_stacks fuel) t1 t2
          (SimpleType-FlatType t1 (Concrete-SimpleType t1 h1.1))
          (SimpleType-FlatType t2 (Concrete-SimpleType t2 h2.1)) tops) in
      let rests' : unify_stacks fuel r1 r2 ≡ ok s_rest =
        rw
          (
            d,
            apply_stack-fresh no_subst r1 (no_subst-FreshStack r1),
            apply_stack-fresh no_subst r2 (no_subst-FreshStack r2),
          )
          at rests in
      let (same_rest, fresh) = unify_stacks-Over fuel r1 r2 h1.0 h2.0 rests' in
      (
        ap₂ cons same_rest e,
        subst (λ s. FreshStack s (cons r1 t1)) (sym made)
            (subst (λ s. FreshStack (compose s s_rest) (cons r1 t1)) (sym d)
              (
                FreshStack-compose no_subst s_rest r1 (no_subst-FreshStack r1) fresh,
                Concrete-FreshType (compose no_subst s_rest) t1 h1.1,
              )),
      )

-- The substitution of a type variable by a concrete type keeps the shape of a signature.
module _ (n : String) (ty : SeqType) (c : Concrete ty) where
  SimpleType-type_subst : (t : SeqType) → SimpleType t → SimpleType (apply_type (type_subst n ty) t)
  unfolding apply_type lookup
  SimpleType-type_subst (var m) h = elim (Bool-cases (str_eq n m)) [
    | inl hit ↦ rw hit (Concrete-SimpleType ty c)
    | inr miss ↦ rw miss tt
  ]
  SimpleType-type_subst int h = h
  SimpleType-type_subst _ h = h

  pub Simple-type_subst : (st : StackType) → Simple st → Simple (apply_stack (type_subst n ty) st)
  unfolding apply_stack lookup
  Simple-type_subst empty h = h
  Simple-type_subst (row_var m) h = tt
  Simple-type_subst (cons rest top) h = (Simple-type_subst rest h.0, SimpleType-type_subst top h.1)

-- The row variable "rest" of `s2` is not bound when `s1` asks for no more values than `s2` shows.
module _ (name : String) where
  Over-FreshStack_step :
      {t1 t2 : SeqType} {s : Subst} (st : StackType)
      → TypeStep t1 t2 s
      → Over name st
      → FreshStack s st
  unfolding lookup
  Over-FreshStack_step {s = s} st step h =
      Over-FreshStack s name st (rw (TypeStep-rows step) refl) h

  Simple-step :
      {t1 t2 : SeqType} {s : Subst} (st : StackType)
      → Concrete t2
      → TypeStep t1 t2 s
      → Simple st
      → Simple (apply_stack s st)
  Simple-step st c (same e d) h = rw (d, apply_stack-fresh no_subst st (no_subst-FreshStack st)) h
  Simple-step {t2 = t2} st c (left n e free d) h = rw d (Simple-type_subst n t2 c st h)
  Simple-step {t2 = t2} st c (right n e free d) h = absurd (Concrete-ne-var t2 c e)

  row_subst-FreshStack :
      (n : String) (st : StackType)
      → Over name st
      → occurs_in_stack n st ≡ false
      → FreshStack (row_subst n st) st
  unfolding lookup
  row_subst-FreshStack n st h free = elim (Bool-cases (str_eq n name)) [
    | inl e ↦ absurd (Over-ne-free name st h (rw ((eq_iff n name).0 e) at free))
    | inr ne ↦ Over-FreshStack (row_subst n st) name st (rw ne refl) h
  ]

  pub unify_stacks-FreshStack :
      (fuel : ℕ) (s1 s2 : StackType) {t : Subst}
      → Simple s1
      → Over name s2
      → depth s1 ≤ depth s2
      → unify_stacks fuel s1 s2 ≡ ok t
      → FreshStack t s2
  unfolding unify_stacks depth
  unify_stacks-FreshStack zero s1 s2 h1 h2 le u = cc
  unify_stacks-FreshStack (suc fuel) empty s2 h1 h2 le u = absurd h1
  unify_stacks-FreshStack (suc fuel) (row_var n) s2 h1 h2 le u = elim (bind_row_cases n s2 u) [
    | inl (e, d) ↦ rw d (no_subst-FreshStack s2)
    | inr (free, d) ↦ rw d (row_subst-FreshStack n s2 h2 free)
  ]
  unify_stacks-FreshStack (suc fuel) (cons r1 t1) empty h1 h2 le u = absurd h2
  unify_stacks-FreshStack (suc fuel) (cons r1 t1) (row_var n) h1 h2 le u = absurd (omega arith)
  unify_stacks-FreshStack (suc fuel) (cons r1 t1) (cons r2 t2) h1 h2 le u =
      let (s_top, s_rest, tops, rests, made) = unify_stacks-cons fuel r1 r2 t1 t2 u in
      let step =
        unify_types-step (unify_stacks fuel) t1 t2 (SimpleType-FlatType t1 h1.1)
          (SimpleType-FlatType t2 (Concrete-SimpleType t2 h2.1)) tops in
      let fresh_top = Over-FreshStack_step r2 step h2.0 in
      let rests' : unify_stacks fuel (apply_stack s_top r1) r2 ≡ ok s_rest =
        rw (apply_stack-fresh s_top r2 fresh_top) at rests in
      let fresh_rest =
        unify_stacks-FreshStack fuel (apply_stack s_top r1) r2 (Simple-step r1 h2.1 step h1.0) h2.0
          (omega (arith, depth-apply_stack s_top r1 (TypeStep-rows step))) rests' in
      subst (λ s. FreshStack s (cons r2 t2)) (sym made)
        (
          FreshStack-compose s_top s_rest r2 fresh_top fresh_rest,
          Concrete-FreshType (compose s_top s_rest) t2 h2.1,
        )
