-- ===== src/Compiler/TypeChecker/Ground/Instance.antt =====
-- An instance of a signature: its variables renamed, and a substitution applied. What the instance asks
-- of a stack is what the signature asks, at another valuation of its variables.
use cem.Prelude.{String, ◌≡◌, refl, [], ◌∷◌}
use cem.Prelude.Dict.{Dict, lookup}
use cem.Compiler.Types.{SeqType, int, var, StackType, empty, cons, row_var}
use cem.Compiler.Unification.Substitution.{Subst, apply_type, apply_stack, unwrap_or}
use cem.Compiler.TypeChecker.Ground.{Concrete, Over, SimpleType, Simple}
use cem.Runtime.Stack.{Stack}
use cem.Runtime.Value.{Value}
use cem.Builtins.Semantics.{Valuation, HasType, HasStackType}

-- New names for type variables and row variables.
pub record Names : Type 0 where
  pub types : Dict String
  pub rows : Dict String

abbrev pub new_name : Dict String → String → String
new_name names name = unwrap_or (lookup name names) name

abbrev pub rename_type : Names → SeqType → SeqType
rename_type names (var name) = var (new_name names.types name)
rename_type names ty = ty

abbrev pub rename : Names → StackType → StackType
rename names empty = empty
rename names (row_var name) = row_var (new_name names.rows name)
rename names (cons rest top) = cons (rename names rest) (rename_type names top)

pub Simple-rename : (names : Names) (st : StackType) → Simple st → Simple (rename names st)
Simple-rename names empty h = h
Simple-rename names (row_var _) h = tt
Simple-rename names (cons rest top) h = (Simple-rename names rest h.0, simple top h.1)
  where
    simple : (ty : SeqType) → SimpleType ty → SimpleType (rename_type names ty)
    simple (var _) h = tt
    simple int h = h
    simple _ h = h

module _ (names : Names) (t : Subst) (ρ : Valuation) where
  abbrev pub instance_at : Valuation
  instance_at = record {
    type_var = λ name. HasType ρ (apply_type t (var (new_name names.types name)));
    row = λ name. HasStackType ρ (apply_stack t (row_var (new_name names.rows name)));
  }

  HasType-instance :
      (ty : SeqType) (x : Value)
      → HasType ρ (apply_type t (rename_type names ty)) x ≡ HasType instance_at ty x
  unfolding apply_type
  HasType-instance (var name) x = refl
  HasType-instance int x = refl
  HasType-instance _ x = refl

  pub HasStackType-instance :
      (st : StackType) (s : Stack)
      → HasStackType ρ (apply_stack t (rename names st)) s ≡ HasStackType instance_at st s
  unfolding apply_stack
  HasStackType-instance empty s = refl
  HasStackType-instance (row_var name) s = refl
  HasStackType-instance (cons rest top) [] = refl
  HasStackType-instance (cons rest top) (x ∷ s) =
      rw (HasStackType-instance rest s, HasType-instance top x)

-- Where the variables of the inputs become concrete, so do those of outputs that mention no others.
module _ (P : String → Type 0) (R : String → Type 0) where
  abbrev pub AdmitsType : SeqType → Type 0
  AdmitsType (var name) = P name
  AdmitsType ty = Concrete ty

  abbrev pub Admits : StackType → Type 0
  Admits empty = ⊥
  Admits (row_var name) = R name
  Admits (cons rest top) = Admits rest × AdmitsType top

module _ (base : String) (names : Names) (t : Subst) where
  abbrev pub BecomesConcrete : String → Type 0
  BecomesConcrete name = Concrete (apply_type t (var (new_name names.types name)))

  abbrev pub BecomesOver : String → Type 0
  BecomesOver name = Over base (apply_stack t (row_var (new_name names.rows name)))

  type_admitted :
      (ty : SeqType)
      → SimpleType ty
      → Concrete (apply_type t (rename_type names ty))
      → AdmitsType BecomesConcrete BecomesOver ty
  unfolding apply_type
  type_admitted (var name) h c = c
  type_admitted int h c = c
  type_admitted _ h c = c

  pub stack_admitted :
      (st : StackType)
      → Simple st
      → Over base (apply_stack t (rename names st))
      → Admits BecomesConcrete BecomesOver st
  unfolding apply_stack
  stack_admitted empty h c = h
  stack_admitted (row_var name) h c = c
  stack_admitted (cons rest top) h c = (stack_admitted rest h.0 c.0, type_admitted top h.1 c.1)

  type_concrete :
      (ty : SeqType)
      → AdmitsType BecomesConcrete BecomesOver ty
      → Concrete (apply_type t (rename_type names ty))
  unfolding apply_type
  type_concrete (var name) h = h
  type_concrete int h = h
  type_concrete _ h = h

  pub stack_over :
      (st : StackType)
      → Admits BecomesConcrete BecomesOver st
      → Over base (apply_stack t (rename names st))
  unfolding apply_stack
  stack_over empty h = h
  stack_over (row_var name) h = h
  stack_over (cons rest top) h = (stack_over rest h.0, type_concrete top h.1)
