-- ===== src/Tests/Checking.antt =====
-- Runs of the type checker on a concrete program, and what the theorems say of it.
use cem.Prelude.{none, some, [], ◌∷◌, ◌≡◌, refl, arith, true, false}
use cem.Prelude.Dict.{lookup, insert, insert_all}
use cem.Compiler.Types.{
  int, bool, StackType, empty, cons, row_var, Effect, effect, no_effects, outputs, depth,
}
use cem.Compiler.CallGraph.{int_literal, word_call, if_else, no_else, no_statements, and_then}
use cem.Compiler.Unification.Substitution.{apply_type, apply_stack, compose}
use cem.Compiler.Unification.Unify.{
  unify_stacks, unify_types_with, bind_type, bind_row, is_var, occurs_in_type, is_row_var,
}
use cem.Compiler.BuiltinTable.{builtin_signature}
use cem.Compiler.TypeChecker.State.{Cells, ok}
use cem.Compiler.TypeChecker.Freshen.{fresh_name, freshen_effect, freshen_stack}
use cem.Compiler.TypeChecker.Positions.{
  count_concrete_types, get_row_var_base, pop_type, capture_statement_type,
}
use cem.Compiler.TypeChecker.Apply.{lookup_word_effect, apply_effect, or_fail, unified}
use cem.Compiler.TypeChecker.Branches.{
  last_word, infer_word_call, infer_if, merge_effects, is_divergent_branch, is_divergent_else,
}
use cem.Compiler.TypeChecker.Infer.{fused, infer_statements_from, infer_round}
use cem.Compiler.TypeChecker.Check.{WordDef, check_word, check_words}
use cem.Compiler.TypeChecker.CheckProgram.{
  Program, check_program, validate_effect_types, validate_stack_types,
}
use cem.Compiler.TypeChecker.Sound.{run_call, IsCore, IsCoreStatement}
use cem.Compiler.TypeChecker.Sound.Call.{Safe}
use cem.Compiler.TypeChecker.Sound.Program.{
  check_program-Safe, signatures_of, bodies_of, IsCoreWord, declarations,
}
use cem.Tests.Accepted.{new, start}
use cem.Compiler.TypeChecker.Positions.{handle_literal_pick, handle_literal_roll}
use cem.Compiler.TypeChecker.Positions.Literal.{handle_literal_pick-pick, handle_literal_roll-roll}
use cem.Runtime.Stack.{Stack, done, pick, roll}
use cem.Compiler.Unification.Substitution.{no_subst}
use cem.Builtins.Names.{builtin_named}
use cem.Builtins.Semantics.{HasStackType, Valuation}
use cem.Runtime.Value.{Value}

abbrev int_to_int : Effect
int_to_int = effect (cons (row_var "rest") int) (cons (row_var "rest") int) no_effects

-- : sum ( Int -- Int ) dup 0 i.> if dup 1 i.- sum i.+ then ;
abbrev sum : WordDef
sum = record {
  name = "sum";
  effect = some int_to_int;
  body = and_then (word_call "dup") (
      and_then (int_literal 0) (
        and_then (word_call "i.>") (
          and_then
            (if_else
              (and_then (word_call "dup") (
                and_then (int_literal 1) (
                  and_then (word_call "i.-")
                    (and_then (word_call "sum") (and_then (word_call "i.+") no_statements)))))
              no_else)
            no_statements)));
}

abbrev program : Program
program = record { unions = []; words = sum ∷ [] }

abbrev finish : Cells
finish = record {
  fresh_counter = 8;
  quotation_types = [];
  expected_quotation_type = none;
  current_word = none;
  statement_top_types =
      (("sum", 0), int) ∷ (("sum", 1), int) ∷ (("sum", 2), int) ∷ (("sum", 3), bool) ∷ [];
  current_aux_stack = empty;
  aux_max_depths = [];
  in_quotation_scope = false;
}

accepted : check_program 9 new program start ≡ ok tt finish
unfolding check_program check_words validate_effect_types validate_stack_types infer_statements_from
    fused infer_round infer_word_call infer_if merge_effects or_fail unified lookup_word_effect
    builtin_signature freshen_effect freshen_stack apply_effect get_row_var_base
    count_concrete_types unify_stacks unify_types_with bind_type bind_row pop_type
    capture_statement_type apply_stack apply_type compose check_word is_var occurs_in_type
    is_row_var fresh_name insert_all is_divergent_branch is_divergent_else
accepted = refl

-- The row variable stands for the empty stack.
abbrev nothing_below : Valuation
nothing_below = record { type_var = λ name v. Unit; row = λ name s. s ≡ [] }

sum-IsCoreWord : IsCoreWord (declarations new program) sum
unfolding IsCore IsCoreStatement last_word builtin_named builtin_signature lookup
sum-IsCoreWord = record {
  effect = int_to_int;
  is_declared = refl;
  monomorphic = ((refl, tt), (refl, tt));
  core = (tt, (omega arith, (tt, (((tt, (omega arith, (tt, (refl, (tt, tt))))), refl, tt), tt))));
}

check_program-Safe_example :
    Safe nothing_below
      (outputs int_to_int)
      (run_call (λ t. []) (bodies_of program.words []) 5 "sum" (Value.int 3 ∷ []))
unfolding signatures_of lookup insert
check_program-Safe_example =
    check_program-Safe 9 new program start refl accepted (sum-IsCoreWord, tt) (λ t. []) 5 "sum"
      int_to_int refl nothing_below (Value.int 3 ∷ []) (refl, omega arith)

-- ( Int Bool Int )
abbrev three_types : StackType
three_types = cons (cons (cons empty int) bool) int

abbrev three_values : Stack
three_values = Value.int 7 ∷ Value.bool true ∷ Value.int 5 ∷ []

handle_literal_pick-pick_example :
    (result : StackType) × (t : Stack) × (handle_literal_pick 1 three_types start
      ≡ ok (result, no_subst) start)
    × (pick (Value.int 1 ∷ three_values) ≡ done t)
    × HasStackType nothing_below result t
unfolding depth
handle_literal_pick-pick_example =
    handle_literal_pick-pick nothing_below three_types three_values 1 start (omega arith)
      (omega arith) (((refl, omega arith), tt), omega arith)

handle_literal_roll-roll_example :
    (result : StackType) × (t : Stack) × (handle_literal_roll 2 three_types start
      ≡ ok (result, no_subst) start)
    × (roll (Value.int 2 ∷ three_values) ≡ done t)
    × HasStackType nothing_below result t
unfolding depth
handle_literal_roll-roll_example =
    handle_literal_roll-roll nothing_below three_types three_values 2 start (omega arith)
      (omega arith) (omega arith) (((refl, omega arith), tt), omega arith)
