-- ===== src/Compiler/TypeChecker/Ground.antt =====
-- Stack types without type variables over a row variable, and the shapes of the stack types that the
-- signatures of words are made of.
pub mod Agree
pub mod Instance
use cem.Prelude.{String, ◌≡◌, refl, true, false, [], none, arith, eq_iff, eq_refl}
use cem.Prelude.Dict.{lookup}
use cem.Compiler.Types.{
  SeqType, int, float, bool, string, symbol, channel, quotation, closure, union, var, StackType,
  empty, cons, row_var,
}
use cem.Compiler.Unification.Substitution.{Subst, no_subst, apply_type, apply_stack}
use cem.Compiler.Unification.Unify.{occurs_in_stack}
use cem.Compiler.Unification.Compose.{FreshType, FreshStack}
use cem.Compiler.Unification.Flat.{FlatType, FlatStack}

abbrev pub Concrete : SeqType → Type 0
Concrete int = Unit
Concrete float = Unit
Concrete bool = Unit
Concrete string = Unit
Concrete symbol = Unit
Concrete channel = Unit
Concrete _ = ⊥

-- Concrete types over one row variable.
abbrev pub Over : String → StackType → Type 0
Over name empty = ⊥
Over name (row_var n) = n ≡ name
Over name (cons rest top) = Over name rest × Concrete top

-- Concrete types and type variables over some row variable.
abbrev pub SimpleType : SeqType → Type 0
SimpleType (quotation _) = ⊥
SimpleType (closure _ _) = ⊥
SimpleType (union _) = ⊥
SimpleType _ = Unit

abbrev pub Simple : StackType → Type 0
Simple empty = ⊥
Simple (row_var _) = Unit
Simple (cons rest top) = Simple rest × SimpleType top

pub Concrete-SimpleType : (ty : SeqType) → Concrete ty → SimpleType ty
Concrete-SimpleType (quotation _) h = h
Concrete-SimpleType (closure _ _) h = h
Concrete-SimpleType (union _) h = h
Concrete-SimpleType int h = tt
Concrete-SimpleType _ h = tt

pub SimpleType-FlatType : (ty : SeqType) → SimpleType ty → FlatType ty
SimpleType-FlatType (quotation _) h = h
SimpleType-FlatType (closure _ _) h = h
SimpleType-FlatType int h = tt
SimpleType-FlatType _ h = tt

pub Over-Simple : (name : String) (st : StackType) → Over name st → Simple st
Over-Simple name empty h = h
Over-Simple name (row_var n) h = tt
Over-Simple name (cons rest top) h = (Over-Simple name rest h.0, Concrete-SimpleType top h.1)

pub Simple-FlatStack : (st : StackType) → Simple st → FlatStack st
Simple-FlatStack empty h = tt
Simple-FlatStack (row_var n) h = tt
Simple-FlatStack (cons rest top) h = (Simple-FlatStack rest h.0, SimpleType-FlatType top h.1)

-- No substitution binds a concrete type, nor a stack if it leaves its row variable.
pub Concrete-FreshType : (s : Subst) (ty : SeqType) → Concrete ty → FreshType s ty
Concrete-FreshType s (var _) h = absurd h
Concrete-FreshType s int h = tt
Concrete-FreshType s _ h = tt

pub Over-FreshStack :
    (s : Subst) (name : String) (st : StackType)
    → lookup name s.rows ≡ none
    → Over name st
    → FreshStack s st
Over-FreshStack s name empty free h = tt
Over-FreshStack s name (row_var n) free h = rw h free
Over-FreshStack s name (cons rest top) free h =
    (Over-FreshStack s name rest free h.0, Concrete-FreshType s top h.1)

pub Over-free :
    (s : Subst) (name : String) (st : StackType)
    → Over name st
    → FreshStack s st
    → lookup name s.rows ≡ none
Over-free s name empty h fresh = absurd h
Over-free s name (row_var n) h fresh = rw (← h) fresh
Over-free s name (cons rest top) h fresh = Over-free s name rest h.0 fresh.0

pub occurs_in_stack-Over :
    (name : String) (st : StackType) → Over name st → occurs_in_stack name st ≡ true
unfolding occurs_in_stack
occurs_in_stack-Over name empty h = absurd h
occurs_in_stack-Over name (row_var n) h = rw (h, eq_refl)
occurs_in_stack-Over name (cons rest top) h = occurs_in_stack-Over name rest h.0
