-- ===== src/Compiler/TypeChecker/Sound.antt =====
-- What a checked body does when it runs. The fragment is that of literals, the built-in words on
-- integers and the stack, calls of words with concrete effects, and `if`.
pub mod Words
pub mod Call
pub mod WordCall
pub mod If
pub mod Round
pub mod Word
pub mod Program
pub mod Body
use cem.Prelude.{
  ℕ, ◌^◌, ◌<◌, String, Bool, true, false, Option, none, some, List, [], ◌∷◌, ◌≡◌, zero, suc, ◌||◌,
  str_eq,
}
use cem.Prelude.Dict.{Dict, lookup}
use cem.Compiler.BuiltinTable.{builtin_signature}
use cem.Compiler.CallGraph
use cem.Compiler.CallGraph.{
  Statement, int_literal, float_literal, bool_literal, string_literal, word_call, if_else,
  match_arms, Statements, no_statements, and_then, ElseBranch, no_else, else_of,
}
use cem.Compiler.TypeChecker.State.{Declarations}
use cem.Compiler.TypeChecker.Branches.{last_word, calls_back}
use cem.Builtins.{Builtin, symbol}
use cem.Builtins.Names.{builtin_named}
use cem.Builtins.Sound.{IsExact}
use cem.Runtime.Value.{Value}
use cem.Runtime.Stack
use cem.Runtime.Stack.{Stack, Run}

-- How a run ends. It goes wrong where a runtime function panics, sets a runtime error or reads below
-- the base of the stack, and where `if` finds no Bool.
pub data Ending : Type 0 where
  finished : Stack → Ending
  wrong : Ending
  out_of_fuel : Ending

abbrev pub then : Ending → (Stack → Ending) → Ending
then (finished s) k = k s
then wrong k = wrong
then out_of_fuel k = out_of_fuel

abbrev pub ending : Run Stack → Ending
ending (Stack.done s) = finished s
ending (Stack.flagged _ _) = wrong
ending (Stack.panicked _) = wrong
ending Stack.undefined = wrong

-- A word by its runtime function, or by its body.
abbrev pub run_word : Option Builtin → (Stack → Ending) → Stack → Ending
run_word (some w) call s = ending (symbol w s)
run_word none call s = call s

abbrev pub choose : (Stack → Ending) → (Stack → Ending) → Stack → Ending
choose run_then run_else [] = wrong
choose run_then run_else (Value.bool true ∷ s) = run_then s
choose run_then run_else (Value.bool false ∷ s) = run_else s
choose run_then run_else (_ ∷ s) = wrong

-- `call` runs a word of the program, and `utf8` gives the bytes of a text.
module _ (utf8 : String → List ℕ) (call : String → Stack → Ending) where
  unfoldable mutual
    unfolding builtin_named

    pub run_statement : Statement → Stack → Ending
    run_statement (int_literal n) s = finished (Value.int n ∷ s)
    run_statement (float_literal n) s = finished (Value.float n ∷ s)
    run_statement (bool_literal b) s = finished (Value.bool b ∷ s)
    run_statement (string_literal t) s = finished (Value.string (utf8 t) ∷ s)
    run_statement (CallGraph.symbol t) s = finished (Value.symbol (utf8 t) ∷ s)
    run_statement (word_call name) s = run_word (builtin_named name) (call name) s
    run_statement (if_else then_branch else_branch) s =
        choose (run_statements then_branch) (run_else else_branch) s
    -- not in the fragment
    run_statement (CallGraph.quotation _ _) s = wrong
    run_statement (match_arms _) s = wrong

    pub run_statements : Statements → Stack → Ending
    run_statements no_statements s = finished s
    run_statements (and_then stmt rest) s = then (run_statement stmt s) (run_statements rest)

    pub run_else : ElseBranch → Stack → Ending
    run_else no_else s = finished s
    run_else (else_of statements) s = run_statements statements s

-- What a call may be: a word whose runtime function keeps an exact signature, or a word of the program.
abbrev pub IsCallable : Option Builtin → String → Type 0
IsCallable (some w) name = IsExact w
IsCallable none name = builtin_signature name ≡ none

-- The fragment. A branch that ends in a call back into the word's own cycle is left out: the checker
-- takes it for one that never returns.
module _ (checker : Declarations) (current : String) where
  unfoldable mutual
    pub IsCoreStatement : Statement → Type 0
    IsCoreStatement (int_literal n) = n < 2 ^ 64
    IsCoreStatement (float_literal _) = Unit
    IsCoreStatement (bool_literal _) = Unit
    IsCoreStatement (string_literal _) = Unit
    IsCoreStatement (CallGraph.symbol _) = Unit
    IsCoreStatement (word_call name) = IsCallable (builtin_named name) name
    IsCoreStatement (if_else then_branch else_branch) =
        IsCore then_branch
        × (calls_back checker (some current) (last_word then_branch) ≡ false)
        × IsCoreElse else_branch
    IsCoreStatement (CallGraph.quotation _ _) = ⊥
    IsCoreStatement (match_arms _) = ⊥

    pub IsCore : Statements → Type 0
    IsCore no_statements = Unit
    IsCore (and_then stmt rest) = IsCoreStatement stmt × IsCore rest

    pub IsCoreElse : ElseBranch → Type 0
    IsCoreElse no_else = Unit
    IsCoreElse (else_of statements) =
        IsCore statements × (calls_back checker (some current) (last_word statements) ≡ false)

-- The words of a program, with one unit of fuel for each call inside another.
abbrev run_body : (Statements → Stack → Ending) → Option Statements → Stack → Ending
run_body run none s = wrong
run_body run (some body) s = run body s

unfoldable pub run_call : (String → List ℕ) → Dict Statements → ℕ → String → Stack → Ending
unfolding lookup
run_call utf8 bodies zero name s = out_of_fuel
run_call utf8 bodies (suc fuel) name s =
    run_body (run_statements utf8 (run_call utf8 bodies fuel)) (lookup name bodies) s
