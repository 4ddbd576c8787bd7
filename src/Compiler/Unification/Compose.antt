-- ===== src/Compiler/Unification/Compose.antt =====
-- The composition of substitutions against applying them in turn.
use cem.Prelude.{String, ◌≡◌, refl, ap₂, Option, none, some, arith, Option-cases, inl, inr, ◌⊎◌}
use cem.Prelude.Dict.{lookup, lookup-insert_all, or_else, map_option}
use cem.Compiler.Types.{SeqType, var, StackType, empty, cons, row_var}
use cem.Compiler.Unification.Substitution.{Subst, apply_type, apply_stack, compose}

-- No variable that `s` binds stands in the type, outside quotations and closures.
abbrev pub FreshType : Subst → SeqType → Type 0
FreshType s (var name) = lookup name s.types ≡ none
FreshType s _ = Unit

abbrev pub FreshStack : Subst → StackType → Type 0
FreshStack s empty = Unit
FreshStack s (row_var name) = lookup name s.rows ≡ none
FreshStack s (cons rest top) = FreshStack s rest × FreshType s top

-- `t` binds no variable that `s` binds, and its values name none either.
pub record FreshSubst (s t : Subst) : Type 0 where
  pub types_avoid :
      (name : String) (ty : SeqType)
      → lookup name t.types ≡ some ty
      → (lookup name s.types ≡ none) × FreshType s ty
  pub rows_avoid :
      (name : String) (st : StackType)
      → lookup name t.rows ≡ some st
      → (lookup name s.rows ≡ none) × FreshStack s st

pub apply_type-fresh : (s : Subst) (ty : SeqType) → FreshType s ty → apply_type s ty ≡ ty
unfolding apply_type
apply_type-fresh s (var name) h = ground arith
apply_type-fresh s _ h = refl

pub apply_stack-fresh : (s : Subst) (st : StackType) → FreshStack s st → apply_stack s st ≡ st
unfolding apply_stack
apply_stack-fresh s empty h = refl
apply_stack-fresh s (row_var name) h = ground arith
apply_stack-fresh s (cons rest top) h =
    ap₂ cons (apply_stack-fresh s rest h.0) (apply_type-fresh s top h.1)

or_else-none {ℓ} : {V : Type ℓ} (o : Option V) → or_else o none ≡ o
or_else-none none = refl
or_else-none (some v) = refl

-- Where an entry of an overlay comes from.
pub overlay_cases {ℓ} :
    {V : Type ℓ} (f g : V → V) (a b : Option V) {v : V}
    → or_else (map_option f a) (map_option g b) ≡ some v
    → ((x : V) × (a ≡ some x) × (f x ≡ v)) ⊎ ((x : V) × (b ≡ some x) × (g x ≡ v))
overlay_cases f g (some x) b h = inl (x, refl, ground arith)
overlay_cases f g none (some x) h = inr (x, refl, ground arith)
overlay_cases f g none none h = cc

-- The entries of a composition.
pub lookup-compose_types :
    (s t : Subst) (name : String)
    → lookup name (compose s t).types
      ≡ or_else
          (map_option (apply_type s) (lookup name t.types))
          (map_option (apply_type t) (lookup name s.types))
unfolding compose lookup
lookup-compose_types s t name = simp (lookup-insert_all, or_else-none)

pub lookup-compose_rows :
    (s t : Subst) (name : String)
    → lookup name (compose s t).rows
      ≡ or_else
          (map_option (apply_stack s) (lookup name t.rows))
          (map_option (apply_stack t) (lookup name s.rows))
unfolding compose lookup
lookup-compose_rows s t name = simp (lookup-insert_all, or_else-none)

module _ (s t : Subst) (fresh : FreshSubst s t) where
  apply_var-compose :
      (name : String) → apply_type (compose s t) (var name) ≡ apply_type t (apply_type s (var name))
  unfolding apply_type
  apply_var-compose name = elim (Option-cases (lookup name t.types)) [
    | inl unbound ↦ rw (lookup-compose_types, unbound) (ground (arith, apply_unbound name unbound))
    | inr (ty, bound) ↦
        rw (lookup-compose_types, bound, (fresh.types_avoid name ty bound).0)
          (rw bound (apply_type-fresh s ty ((fresh.types_avoid name ty bound).1)))
  ]
    where
      apply_unbound :
          (name : String) → lookup name t.types ≡ none → apply_type t (var name) ≡ var name
      apply_unbound name unbound = rw unbound

  pub apply_type-compose :
      (ty : SeqType) → apply_type (compose s t) ty ≡ apply_type t (apply_type s ty)
  unfolding apply_type
  apply_type-compose (var name) = apply_var-compose name
  apply_type-compose _ = refl

  apply_row-compose :
      (name : String)
      → apply_stack (compose s t) (row_var name) ≡ apply_stack t (apply_stack s (row_var name))
  unfolding apply_stack
  apply_row-compose name = elim (Option-cases (lookup name t.rows)) [
    | inl unbound ↦ rw (lookup-compose_rows, unbound) (ground (arith, apply_unbound name unbound))
    | inr (st, bound) ↦
        rw (lookup-compose_rows, bound, (fresh.rows_avoid name st bound).0)
          (rw bound (apply_stack-fresh s st ((fresh.rows_avoid name st bound).1)))
  ]
    where
      apply_unbound :
          (name : String) → lookup name t.rows ≡ none → apply_stack t (row_var name) ≡ row_var name
      apply_unbound name unbound = rw unbound

  pub apply_stack-compose :
      (st : StackType) → apply_stack (compose s t) st ≡ apply_stack t (apply_stack s st)
  unfolding apply_stack
  apply_stack-compose empty = refl
  apply_stack-compose (row_var name) = apply_row-compose name
  apply_stack-compose (cons rest top) = ap₂ cons (apply_stack-compose rest) (apply_type-compose top)

-- The values of `s` name no variable that `t` binds; the two may bind a variable both.
pub record AvoidsSubst (s t : Subst) : Type 0 where
  pub type_values : (name : String) (ty : SeqType) → lookup name s.types ≡ some ty → FreshType t ty
  pub row_values : (name : String) (st : StackType) → lookup name s.rows ≡ some st → FreshStack t st

-- Which of two substitutions is to be applied first.
pub data Turns (s t : Subst) : Type 0 where
  s_first : FreshSubst s t → Turns s t
  t_first : AvoidsSubst s t → Turns s t

abbrev pub in_turn : {s t : Subst} → Turns s t → StackType → StackType
in_turn {s} {t} (s_first _) st = apply_stack t (apply_stack s st)
in_turn {s} {t} (t_first _) st = apply_stack s (apply_stack t st)
