-- ===== src/Tests/Unification.antt =====
-- Examples for the unification and the capture analysis of the compiler.
use cem.Prelude.{◌&&◌, ◌≡◌, ◌≢◌, refl, [], ◌∷◌, arith}
use cem.Prelude.Dict.{lookup, insert_all}
use cem.Compiler.Types.{
  int, bool, string, var, StackType, empty, cons, row_var, Effect, effect, no_effects, depth,
}
use cem.Compiler.Unification.Substitution.{Subst, apply_type, apply_stack, compose}
use cem.Compiler.Unification.Unify.{
  ok, out_of_fuel, unify_types_with, unify_stacks, bind_type, bind_row, is_var, is_row_var,
  occurs_in_type, occurs_in_stack,
}
use cem.Compiler.Unification.Complete.{Absorbs}
use cem.Compiler.Unification.General.{unify_stacks-most_general}
use cem.Compiler.Unification.Sound.{unify_stacks-unifies}
use cem.Compiler.Unification.Fuel.{unify_stacks-total}
use cem.Compiler.Unification.Quotations.{takes, unify_stacks-quotation_rebinds}
use cem.Compiler.CallGraph.{
  Statements, if_else, word_call, no_else, no_statements, contains, extract_calls,
}
use cem.Compiler.CallGraph.Calls.{any_calls, extract_calls_lem}

-- ( ..a T Int ) and ( ..b Bool U )
abbrev first : StackType
first = cons (cons (row_var "a") (var "T")) int

abbrev second : StackType
second = cons (cons (row_var "b") bool) (var "U")

abbrev solution : Subst
solution = record { types = ("T", bool) ∷ ("U", int) ∷ []; rows = ("a", row_var "b") ∷ [] }

unify_stacks-most_general_example :
    (t : Subst) × (unify_stacks 3 first second ≡ ok t) × Absorbs solution t
unfolding depth apply_stack apply_type lookup
unify_stacks-most_general_example =
    unify_stacks-most_general solution 3 first second ((tt, tt), tt) ((tt, tt), tt) (omega arith)
      refl

abbrev found : Subst
found = record { types = ("U", int) ∷ ("T", bool) ∷ []; rows = ("a", row_var "b") ∷ [] }

unify_stacks-unifies_example : apply_stack found first ≡ apply_stack found second
unfolding unify_stacks unify_types_with bind_type bind_row is_var is_row_var occurs_in_type
    occurs_in_stack apply_stack apply_type compose lookup insert_all
unify_stacks-unifies_example =
    unify_stacks-unifies 3 first second ((tt, tt), tt) ((tt, tt), tt) refl

unify_stacks-total_example : unify_stacks 3 first second ≢ out_of_fuel
unfolding depth
unify_stacks-total_example =
    unify_stacks-total 3 first second ((tt, tt), tt) ((tt, tt), tt) (omega arith)

abbrev one : Subst
one = record { types = ("T", int) ∷ []; rows = [] }

-- Both bind T.
abbrev another : Subst
another = record { types = ("T", string) ∷ []; rows = ("a", cons (row_var "b") bool) ∷ [] }

abbrev takes_int : Effect
takes_int = effect (cons empty int) empty no_effects

abbrev takes_var : Effect
takes_var = effect (cons empty (var "T")) empty no_effects

int-ne-bool : int ≢ bool
int-ne-bool h = cc

takes_differ : takes_var ≢ takes_int
takes_differ h = cc

unify_stacks-quotation_rebinds_example :
    (t : Subst) × (unify_stacks 4 (takes (var "T") (var "T")) (takes int bool) ≡ ok t)
    × (apply_type t (var "T") ≡ int)
    × (apply_stack t (takes (var "T") (var "T")) ≢ apply_stack t (takes int bool))
unify_stacks-quotation_rebinds_example =
    unify_stacks-quotation_rebinds 0 "T" int bool tt tt int-ne-bool

-- A body ( ..a Int Bool String -- ) at a call that provides one String: it captures Int and Bool.
abbrev body : Effect
body = effect (cons (cons (cons (row_var "a") int) bool) string) empty no_effects

abbrev call : Effect
call = effect (cons (row_var "a") string) empty no_effects

-- even calls odd in the branch of an if.
abbrev even_body : Statements
even_body =
    Statements.and_then (if_else (Statements.and_then (word_call "odd") no_statements) no_else)
      no_statements

extract_calls_lem_example :
    contains (extract_calls even_body ("even" ∷ "odd" ∷ [])) "odd"
    ≡ (contains ("even" ∷ "odd" ∷ []) "odd" && any_calls "odd" even_body)
extract_calls_lem_example = extract_calls_lem "odd" even_body ("even" ∷ "odd" ∷ [])
