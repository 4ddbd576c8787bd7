-- ===== src/Compiler/Unification/Substitution.antt =====
-- crates/compiler/src/unification.rs: `Subst`, its application and its composition.
use cem.Prelude.{Option, none, some, []}
use cem.Prelude.Dict.{Dict, lookup, insert_all}
use cem.Compiler.Types.{
  SeqType, int, float, bool, string, symbol, channel, quotation, closure, union, var, StackType,
  empty, cons, row_var,
}

pub record Subst : Type 0 where
  pub types : Dict SeqType
  pub rows : Dict StackType

-- Subst::empty
abbrev pub no_subst : Subst
no_subst = record { types = []; rows = [] }

abbrev pub unwrap_or {ℓ} : {A : Type ℓ} → Option A → A → A
unwrap_or none a = a
unwrap_or (some b) a = b

-- A substitution does not enter a quotation or a closure.
unfoldable pub apply_type : Subst → SeqType → SeqType
apply_type s (var name) = unwrap_or (lookup name s.types) (var name)
apply_type s int = int
apply_type s float = float
apply_type s bool = bool
apply_type s string = string
apply_type s symbol = symbol
apply_type s channel = channel
apply_type s (quotation e) = quotation e
apply_type s (closure e c) = closure e c
apply_type s (union n) = union n

unfoldable pub apply_stack : Subst → StackType → StackType
apply_stack s empty = empty
apply_stack s (cons rest top) = cons (apply_stack s rest) (apply_type s top)
apply_stack s (row_var name) = unwrap_or (lookup name s.rows) (row_var name)

-- `self.compose(other)`: `other` is applied to the values of `self`, and the entries of `other`,
-- with `self` applied to their values, are put over them.
unfoldable pub compose : Subst → Subst → Subst
compose s other = record {
  types = insert_all (apply_type s) other.types (insert_all (apply_type other) s.types []);
  rows = insert_all (apply_stack s) other.rows (insert_all (apply_stack other) s.rows []);
}
