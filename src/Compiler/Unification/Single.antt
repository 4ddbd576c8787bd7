-- ===== src/Compiler/Unification/Single.antt =====
-- A substitution of one variable that does not occur in its value unifies the two.
use cem.Prelude.{String, ◌≡◌, refl, false, arith, eq_iff, sym}
use cem.Prelude.Dict.{lookup, lookup-singleton_inv, lookup-singleton_self}
use cem.Compiler.Types.{SeqType, int, var, StackType, empty, cons, row_var}
use cem.Compiler.Unification.Substitution.{Subst, no_subst, apply_type, apply_stack}
use cem.Compiler.Unification.Unify.{occurs_in_type, occurs_in_stack}
use cem.Compiler.Unification.Compose.{
  FreshType, FreshStack, FreshSubst, apply_type-fresh, apply_stack-fresh,
}
use cem.Compiler.Unification.Flat.{FlatType, FlatStack, IsSolved}
use cem.Compiler.Unification.Steps.{type_subst, row_subst}

-- What is known of a unifier `t` of two types.
pub record UnifiesTypes (t1 t2 : SeqType) (t : Subst) : Type 0 where
  pub solves : apply_type t t1 ≡ apply_type t t2
  pub solved : IsSolved t
  pub avoids : (u : Subst) → FreshType u t1 → FreshType u t2 → FreshSubst u t

pub record UnifiesStacks (s1 s2 : StackType) (t : Subst) : Type 0 where
  pub solves : apply_stack t s1 ≡ apply_stack t s2
  pub solved : IsSolved t
  pub avoids : (u : Subst) → FreshStack u s1 → FreshStack u s2 → FreshSubst u t

no_subst-IsSolved : IsSolved no_subst
unfolding lookup
no_subst-IsSolved = record { types_solved = λ name ty h. cc; rows_solved = λ name st h. cc }

no_subst-FreshSubst : (u : Subst) → FreshSubst u no_subst
unfolding lookup
no_subst-FreshSubst u = record { types_avoid = λ name ty h. cc; rows_avoid = λ name st h. cc }

-- `occurs_in_type` on a flat type is the test for the variable itself.
fresh_type :
    (name : String) (ty : SeqType)
    → FlatType ty
    → occurs_in_type name ty ≡ false
    → FreshType (type_subst name ty) ty
unfolding occurs_in_type lookup
fresh_type name (var m) f h = ground (arith, eq_iff m name, eq_iff name m)
fresh_type name int f h = tt
fresh_type name _ f h = tt

-- Only the bottom of a stack can hold the row variable.
fresh_stack :
    (name : String) (value st : StackType)
    → occurs_in_stack name st ≡ false
    → FreshStack (row_subst name value) st
unfolding occurs_in_stack lookup
fresh_stack name value empty h = tt
fresh_stack name value (row_var m) h = ground (arith, eq_iff m name, eq_iff name m)
fresh_stack name value (cons rest top) h = (fresh_stack name value rest h, fresh_top top)
  where
    fresh_top : (ty : SeqType) → FreshType (row_subst name value) ty
    fresh_top (var m) = refl
    fresh_top int = tt
    fresh_top _ = tt

module _ (name : String) (ty : SeqType) where
  type_subst-IsSolved : FlatType ty → occurs_in_type name ty ≡ false → IsSolved (type_subst name ty)
  unfolding lookup
  type_subst-IsSolved f h = record {
    types_solved =
        λ m v bound. rw (← (lookup-singleton_inv name m ty v bound).1) (f, fresh_type name ty f h);
    rows_solved = λ m v bound. cc;
  }

  type_subst-FreshSubst :
      (u : Subst) → FreshType u (var name) → FreshType u ty → FreshSubst u (type_subst name ty)
  unfolding lookup
  type_subst-FreshSubst u hn ht = record {
    types_avoid = λ m v bound.
        let (e, d) = lookup-singleton_inv name m ty v bound in (rw (← e) hn, rw (← d) ht);
    rows_avoid = λ m v bound. cc;
  }

  type_subst_solves :
      FlatType ty
      → occurs_in_type name ty ≡ false
      → apply_type (type_subst name ty) (var name) ≡ apply_type (type_subst name ty) ty
  unfolding apply_type
  type_subst_solves f h =
      rw lookup-singleton_self
        (sym (apply_type-fresh (type_subst name ty) ty (fresh_type name ty f h)))

  pub type_subst-UnifiesTypes :
      FlatType ty → occurs_in_type name ty ≡ false → UnifiesTypes (var name) ty (type_subst name ty)
  type_subst-UnifiesTypes f h = record {
    solves = type_subst_solves f h;
    solved = type_subst-IsSolved f h;
    avoids = type_subst-FreshSubst;
  }

module _ (name : String) (st : StackType) where
  row_subst-IsSolved : FlatStack st → occurs_in_stack name st ≡ false → IsSolved (row_subst name st)
  unfolding lookup
  row_subst-IsSolved f h = record {
    types_solved = λ m v bound. cc;
    rows_solved = λ m v bound.
        rw (← (lookup-singleton_inv name m st v bound).1) (f, fresh_stack name st st h);
  }

  row_subst-FreshSubst :
      (u : Subst) → FreshStack u (row_var name) → FreshStack u st → FreshSubst u (row_subst name st)
  unfolding lookup
  row_subst-FreshSubst u hn ht = record {
    types_avoid = λ m v bound. cc;
    rows_avoid = λ m v bound.
        let (e, d) = lookup-singleton_inv name m st v bound in (rw (← e) hn, rw (← d) ht);
  }

  row_subst_solves :
      occurs_in_stack name st ≡ false
      → apply_stack (row_subst name st) (row_var name) ≡ apply_stack (row_subst name st) st
  unfolding apply_stack
  row_subst_solves h =
      rw lookup-singleton_self
        (sym (apply_stack-fresh (row_subst name st) st (fresh_stack name st st h)))

  pub row_subst-UnifiesStacks :
      FlatStack st
      → occurs_in_stack name st ≡ false
      → UnifiesStacks (row_var name) st (row_subst name st)
  row_subst-UnifiesStacks f h = record {
    solves = row_subst_solves h;
    solved = row_subst-IsSolved f h;
    avoids = row_subst-FreshSubst;
  }

pub no_subst-UnifiesTypes : (ty : SeqType) → UnifiesTypes ty ty no_subst
no_subst-UnifiesTypes ty = record {
  solves = refl;
  solved = no_subst-IsSolved;
  avoids = λ u _ _. no_subst-FreshSubst u;
}

pub no_subst-UnifiesStacks : (st : StackType) → UnifiesStacks st st no_subst
no_subst-UnifiesStacks st = record {
  solves = refl;
  solved = no_subst-IsSolved;
  avoids = λ u _ _. no_subst-FreshSubst u;
}

pub flip_types : {t1 t2 : SeqType} {t : Subst} → UnifiesTypes t1 t2 t → UnifiesTypes t2 t1 t
flip_types u = record { solves = sym u.solves; solved = u.solved; avoids = λ v h k. u.avoids v k h }

pub flip_stacks : {s1 s2 : StackType} {t : Subst} → UnifiesStacks s1 s2 t → UnifiesStacks s2 s1 t
flip_stacks u = record {
  solves = sym u.solves;
  solved = u.solved;
  avoids = λ v h k. u.avoids v k h;
}
