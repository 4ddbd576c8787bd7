-- ===== src/Compiler/BuiltinTable/Control.antt =====
-- crates/compiler/src/builtins.rs: the signatures that the source writes without the macro: of words
-- that take quotations, of weaves, and of the constructors of many fields.
use Prim.Native.String
use Prim.Native.String.{String}
use cem.Prelude.{ℕ, zero, suc, List, [], ◌∷◌, ◌++◌}
use cem.Prelude.Dict.{Dict}
use cem.Prelude.Decimal.{decimal}
use cem.Compiler.Types.{
  int, bool, string, symbol, quotation, var, SeqType, Effect, effect, pure_effect, yields,
  no_effects, and_effect,
}
use cem.Compiler.BuiltinTable.Entry.{stack_over, entry}

-- Type::Quotation(Effect::new(…))
abbrev quotation_of : String → List SeqType → String → List SeqType → SeqType
unfolding stack_over pure_effect
quotation_of row_in ins row_out outs =
    quotation (pure_effect (stack_over row_in ins) (stack_over row_out outs))

unfoldable pub file_for_each_line : Dict Effect
unfolding entry stack_over pure_effect
file_for_each_line =
    entry "file.for-each-line+" (string ∷ quotation_of "a" (string ∷ []) "a" [] ∷ [])
      (string ∷ bool ∷ [])
    ∷ []

unfoldable pub control_words : Dict Effect
unfolding entry stack_over pure_effect
control_words =
    ("call", pure_effect (stack_over "a" (var "Q" ∷ [])) (stack_over "b" []))
    ∷ ("cond", pure_effect (stack_over "a" []) (stack_over "b" []))
    ∷ entry "strand.spawn" (quotation_of "spawn_in" [] "spawn_out" [] ∷ []) (int ∷ [])
    ∷ entry "strand.weave" (quotation_of "weave_in" [] "weave_out" [] ∷ []) (var "handle" ∷ [])
    ∷ entry "strand.resume" (var "handle" ∷ var "b" ∷ []) (var "handle" ∷ var "b" ∷ bool ∷ [])
    ∷ (
      "yield",
      effect (stack_over "a" (var "ctx" ∷ var "b" ∷ [])) (stack_over "a" (var "ctx" ∷ var "b" ∷ []))
          (and_effect (yields (var "b")) no_effects),
    )
    ∷ entry "strand.weave-cancel" (var "handle" ∷ []) []
    ∷ []

-- The loops over `n in 5..=12`: T1 to Tn and the tag.
type_vars : ℕ → List SeqType
type_vars zero = []
type_vars (suc n) = type_vars n ++ var (String.◌++◌ "T" (decimal (suc n))) ∷ []

fields_entry : String → ℕ → String × Effect
unfolding entry
fields_entry prefix n =
    entry (String.◌++◌ prefix (decimal n)) (type_vars n ++ symbol ∷ []) (var "V" ∷ [])

many_fields : String → Dict Effect
many_fields prefix =
    fields_entry prefix 5
    ∷ fields_entry prefix 6
    ∷ fields_entry prefix 7
    ∷ fields_entry prefix 8
    ∷ fields_entry prefix 9
    ∷ fields_entry prefix 10
    ∷ fields_entry prefix 11
    ∷ fields_entry prefix 12
    ∷ []

unfoldable pub constructors : Dict Effect
unfolding many_fields fields_entry type_vars decimal
constructors = many_fields "variant.make-" ++ many_fields "wrap-"

unfoldable pub combinators : Dict Effect
unfolding entry stack_over pure_effect
combinators =
    entry "list.map" (var "V" ∷ quotation_of "b" (var "T" ∷ []) "b" (var "U" ∷ []) ∷ [])
      (var "V2" ∷ [])
    ∷ entry "list.filter" (var "V" ∷ quotation_of "b" (var "T" ∷ []) "b" (bool ∷ []) ∷ [])
        (var "V2" ∷ [])
    ∷ entry "list.fold"
        (var "V"
          ∷ var "Acc"
          ∷ quotation_of "b" (var "Acc" ∷ var "T" ∷ []) "b" (var "Acc" ∷ [])
          ∷ [])
        (var "Acc" ∷ [])
    ∷ entry "list.each" (var "V" ∷ quotation_of "b" (var "T" ∷ []) "b" [] ∷ []) []
    ∷ []

unfoldable pub stack_dump : Dict Effect
unfolding stack_over pure_effect
stack_dump = ("stack.dump", pure_effect (stack_over "a" []) (stack_over "b" [])) ∷ []
