-- ===== src/Tests/Accepted.antt =====
-- Programs outside the fragment of Compiler/TypeChecker/Sound.antt: what check_program says of them, and how
-- they run. They use a branch with a recursive call, a type variable in a declaration, and a
-- literal pick below the known types.
use cem.Prelude.{ℕ, suc, String, true, false, none, some, List, [], ◌∷◌, ◌≡◌, refl}
use cem.Prelude.Dict.{lookup, insert, insert_all}
use cem.Compiler.Types.{int, bool, string, var, empty, cons, row_var, effect, no_effects}
use cem.Compiler.CallGraph.{
  bool_literal, int_literal, word_call, if_else, else_of, no_statements, and_then,
}
use cem.Compiler.Unification.Substitution.{apply_type, apply_stack, compose}
use cem.Compiler.Unification.Unify.{
  unify_stacks, unify_types_with, bind_type, bind_row, is_var, occurs_in_type, is_row_var,
}
use cem.Compiler.BuiltinTable.{builtin_signature}
use cem.Compiler.TypeChecker.State.{Declarations, Cells, ok}
use cem.Compiler.TypeChecker.Freshen.{fresh_name, fresh_var, freshen_effect, freshen_stack}
use cem.Compiler.TypeChecker.Positions.{
  get_type_at_position, handle_literal_pick, count_concrete_types, get_row_var_base, pop_type,
  capture_statement_type,
}
use cem.Compiler.TypeChecker.Apply.{lookup_word_effect, apply_effect, or_fail, unified}
use cem.Compiler.TypeChecker.Branches.{
  infer_word_call, infer_if, merge_effects, is_divergent_branch, is_divergent_else,
}
use cem.Compiler.TypeChecker.Infer.{fused, infer_fused, infer_statements_from, infer_round}
use cem.Compiler.TypeChecker.Check.{WordDef, check_word, check_words}
use cem.Compiler.TypeChecker.CheckProgram.{
  Program, check_program, validate_effect_types, validate_stack_types,
}
use cem.Compiler.TypeChecker.Sound.{run_call, run_statement, wrong}
use cem.Compiler.TypeChecker.Sound.Program.{bodies_of}
use cem.Builtins.Names.{builtin_named}
use cem.Builtins.{symbol}
use cem.Runtime.Stack.{Stack, drop_op, pick}
use cem.Runtime.Arithmetic.{add}
use cem.Runtime.Value.{Value}

-- : f ( Int Bool -- Int ) if false f else drop true then if 1 else 2 then ;
abbrev returning : WordDef
returning = record {
  name = "f";
  effect =
      some (effect (cons (cons (row_var "rest") int) bool) (cons (row_var "rest") int) no_effects);
  body =
      and_then
        (if_else (and_then (bool_literal false) (and_then (word_call "f") no_statements))
          (else_of (and_then (word_call "drop") (and_then (bool_literal true) no_statements))))
        (and_then
          (if_else (and_then (int_literal 1) no_statements)
            (else_of (and_then (int_literal 2) no_statements)))
          no_statements);
}

abbrev pub new : Declarations
new = record { env = []; unions = []; recursive_sccs = none }

abbrev pub start : Cells
start = record {
  fresh_counter = 0;
  quotation_types = [];
  expected_quotation_type = none;
  current_word = none;
  statement_top_types = [];
  current_aux_stack = empty;
  aux_max_depths = [];
  in_quotation_scope = false;
}

abbrev returning_program : Program
returning_program = record { unions = []; words = returning ∷ [] }

-- : g ( T -- Int ) 1 i.+ ;
abbrev adding : WordDef
adding = record {
  name = "g";
  effect = some (effect (cons (row_var "rest") (var "T")) (cons (row_var "rest") int) no_effects);
  body = and_then (int_literal 1) (and_then (word_call "i.+") no_statements);
}

abbrev adding_program : Program
adding_program = record { unions = []; words = adding ∷ [] }

-- : h ( Int -- Int String ) 1 pick ;
abbrev picking : WordDef
picking = record {
  name = "h";
  effect =
      some
        (effect (cons (row_var "rest") int) (cons (cons (row_var "rest") int) string) no_effects);
  body = and_then (int_literal 1) (and_then (word_call "pick") no_statements);
}

abbrev picking_program : Program
picking_program = record { unions = []; words = picking ∷ [] }

-- A branch that ends in a recursive call is taken for one that never returns, and its type is not
-- compared with that of the other branch: the checker accepts the word f of `returning`, and every
-- call of it on an Int and true, whatever is below them, goes wrong once the fuel covers two calls.
is_divergent_branch-wrong :
    (utf8 : String → List ℕ) (fuel n : ℕ) (s : Stack)
    → ((cells : Cells) × (check_program 9 new returning_program start ≡ ok tt cells))
      × (run_call utf8
            (bodies_of returning_program.words [])
            (suc (suc fuel))
            "f"
            (Value.bool true ∷ Value.int n ∷ s)
          ≡ wrong)
unfolding check_program check_words validate_effect_types validate_stack_types infer_statements_from
    fused infer_round infer_word_call infer_if merge_effects or_fail unified lookup_word_effect
    builtin_signature freshen_effect freshen_stack apply_effect get_row_var_base
    count_concrete_types unify_stacks unify_types_with bind_type bind_row pop_type
    capture_statement_type apply_stack apply_type compose check_word is_var occurs_in_type
    is_row_var fresh_name insert_all is_divergent_branch is_divergent_else run_call bodies_of lookup
    insert run_statement builtin_named drop_op symbol
is_divergent_branch-wrong utf8 fuel n s = ((_, refl), refl)

-- check_word unifies the declared outputs with the result and drops the substitution, so that a type
-- variable of the declaration may stand for any type: the checker accepts the word g of `adding`, which
-- declares that it takes a value of any type T, and every call of it on a string goes wrong.
check_word-wrong :
    (utf8 : String → List ℕ) (fuel : ℕ) (text : List ℕ) (s : Stack)
    → ((cells : Cells) × (check_program 9 new adding_program start ≡ ok tt cells))
      × (run_call utf8 (bodies_of adding_program.words []) (suc fuel) "g" (Value.string text ∷ s)
          ≡ wrong)
unfolding check_program check_words validate_effect_types validate_stack_types infer_statements_from
    fused infer_round infer_word_call infer_if merge_effects or_fail unified lookup_word_effect
    builtin_signature freshen_effect freshen_stack apply_effect get_row_var_base
    count_concrete_types unify_stacks unify_types_with bind_type bind_row pop_type
    capture_statement_type apply_stack apply_type compose check_word is_var occurs_in_type
    is_row_var fresh_name insert_all is_divergent_branch is_divergent_else run_call bodies_of lookup
    insert run_statement builtin_named symbol add
check_word-wrong utf8 fuel text s = ((_, refl), refl)

-- At a position below the types that it knows, get_type_at_position gives a fresh type, which may stand
-- for any: the checker accepts the word h of `picking`, which declares that it leaves a String above its
-- Int, and every call of it on an Int alone goes wrong.
get_type_at_position-wrong :
    (utf8 : String → List ℕ) (fuel n : ℕ)
    → ((cells : Cells) × (check_program 9 new picking_program start ≡ ok tt cells))
      × (run_call utf8 (bodies_of picking_program.words []) (suc fuel) "h" (Value.int n ∷ [])
          ≡ wrong)
unfolding check_program check_words validate_effect_types validate_stack_types infer_statements_from
    fused infer_round infer_word_call infer_if merge_effects or_fail unified lookup_word_effect
    builtin_signature freshen_effect freshen_stack apply_effect get_row_var_base
    count_concrete_types unify_stacks unify_types_with bind_type bind_row pop_type
    capture_statement_type apply_stack apply_type compose check_word is_var occurs_in_type
    is_row_var fresh_name insert_all is_divergent_branch is_divergent_else run_call bodies_of lookup
    insert run_statement builtin_named pick get_type_at_position handle_literal_pick infer_fused
    fresh_var symbol
get_type_at_position-wrong utf8 fuel n = ((_, refl), refl)
