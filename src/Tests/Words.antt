-- ===== src/Tests/Words.antt =====
-- Examples for the words of the runtime.
use mathlib.Core.List.{Perm, map}
use cem.Prelude.{
  ◌<◌, suc, Bool, none, ◌≢◌, ℕ, ◌-◌, ◌^◌, ◌≡◌, refl, true, false, some, [], ◌∷◌, ◌++◌, arith,
  get_elem?, take, drop, String,
}
use cem.Compiler.Types.{outputs}
use cem.Runtime.Value.{
  Entries, and_entry, no_entries, MapKey, from_value, Value, int, bool, variant, quotation, Values,
  no_values, and_value,
}
use cem.Runtime.Stack.{Stack, done, panicked, roll}
use cem.Runtime.Stack.Roll.{roll_lem}
use cem.Runtime.Arithmetic.{divide, modulo}
use cem.Runtime.Arithmetic.Laws.{Truncated, divide-modulo_truncate, Comparisons, comparisons_lem}
use cem.Runtime.Lists.{
  list_push, list_get, list_length, Call, list_map, list_filter, list_fold, list_set, list_get,
  count_fields,
}
use cem.Runtime.Lists.Combinators.{
  to_list, keep_if, fold_left, list_map_lem, list_filter_lem, list_fold_lem,
}
use cem.Runtime.Lists.Elements.{list_push-list_get, list_set-list_get}
use cem.Runtime.Variants.{make_variant, unpack_variant, variant_append, variant_last, variant_init}
use cem.Runtime.Variants.Fields.{make_variant-unpack_variant, variant_append-variant_init}
use cem.Runtime.Maps.{key_eq, get, map_set, map_remove}
use cem.Runtime.Maps.Lookup.{IsMap}
use cem.Runtime.Maps.Updates.{AfterSet, AfterRemove, map_set-map_get, map_remove-map_get}
use cem.Builtins.{i_add, logical_and, signature, symbol}
use cem.Builtins.Semantics.{Valuation, HasStackType}
use cem.Builtins.Sound.{symbol-keeps_signature, logical_word-panics}

abbrev three : Stack
three = int 30 ∷ int 20 ∷ int 10 ∷ []

abbrev four : Stack
four = int 40 ∷ three

-- Every value and every stack are allowed for the variables.
abbrev anything : Valuation
anything = record { type_var = λ name x. Unit; row = λ name s. Unit }

symbol-keeps_signature_example :
    (s : Stack) × (symbol i_add three ≡ done s)
    × HasStackType anything (outputs (signature i_add)) s
unfolding signature
symbol-keeps_signature_example =
    symbol-keeps_signature anything i_add three tt ((tt, omega arith), omega arith)

logical_word-panics_example :
    (name : String) × (symbol logical_and (bool true ∷ bool false ∷ []) ≡ panicked name)
unfolding signature
logical_word-panics_example =
    logical_word-panics anything logical_and (bool true ∷ bool false ∷ []) tt ((tt, tt), tt)

roll_lem_example :
    (x : Value) × (get_elem? four 3 ≡ some x)
    × (roll (int 3 ∷ four) ≡ done (x ∷ take 3 four ++ drop 4 four))
    × Perm (x ∷ take 3 four ++ drop 4 four) four
roll_lem_example = roll_lem 3 four (omega arith) (omega arith)

-- -7 and 2
divide-modulo_truncate_example :
    (q : ℕ) × (r : ℕ) × (divide (int 2 ∷ int (2 ^ 64 - 7) ∷ []) ≡ done (bool true ∷ int q ∷ []))
    × (modulo (int 2 ∷ int (2 ^ 64 - 7) ∷ []) ≡ done (bool true ∷ int r ∷ []))
    × Truncated (2 ^ 64 - 7) 2 q r
divide-modulo_truncate_example =
    divide-modulo_truncate (2 ^ 64 - 7) 2 [] (omega arith) (omega arith) (ground arith)

-- -1 and 1
comparisons_lem_example : Comparisons (2 ^ 64 - 1) 1 []
comparisons_lem_example = comparisons_lem (2 ^ 64 - 1) 1 [] (omega arith) (omega arith)

-- A quotation, and what its code may be: it wraps its argument and leaves the argument below.
abbrev quot : Value
quot = quotation 1 1

abbrev wraps : Call
wraps c [] = none
wraps c (x ∷ s) = some (variant [] (and_value x no_values) ∷ x ∷ s)

abbrev wrap : Value → Value
wrap x = variant [] (and_value x no_values)

-- One that says which values are Ints, and one that keeps the element and drops the accumulator.
abbrev is_int : Value → Bool
is_int (int _) = true
is_int _ = false

abbrev tells : Call
tells c [] = none
tells c (x ∷ s) = some (bool (is_int x) ∷ s)

abbrev latest : Call
latest c (x ∷ acc ∷ s) = some (x ∷ s)
latest c _ = none

abbrev items : Values
items = and_value (int 1) (and_value (bool true) no_values)

list_map_lem_example :
    (out : Values) × (list_map wraps (quot ∷ variant [] items ∷ three)
      ≡ done (variant [] out ∷ three))
    × (to_list out ≡ map wrap (to_list items))
list_map_lem_example = list_map_lem wraps quot wrap (λ x. x ∷ []) (λ x. refl) [] items three refl

list_filter_lem_example :
    (out : Values) × (list_filter tells (quot ∷ variant [] items ∷ three)
      ≡ done (variant [] out ∷ three))
    × (to_list out ≡ keep_if is_int (to_list items))
list_filter_lem_example =
    list_filter_lem tells quot is_int (λ x. []) (λ x. refl) [] items three refl

list_fold_lem_example :
    list_fold latest (quot ∷ int 0 ∷ variant [] items ∷ three)
    ≡ done (fold_left (λ acc x. x) (int 0) (to_list items) ∷ three)
list_fold_lem_example =
    list_fold_lem latest quot (λ acc x. x) (λ acc x. []) (λ acc x. refl) [] (int 0) items three refl

list_set-list_get_example :
    (new : Value) × (list_set (int 9 ∷ int 1 ∷ variant [] items ∷ []) ≡ done (bool true ∷ new ∷ []))
    × (list_get (int 1 ∷ new ∷ []) ≡ done (bool true ∷ int 9 ∷ []))
    × ((m : ℕ) → 1 ≢ m → list_get (int m ∷ new ∷ []) ≡ list_get (int m ∷ variant [] items ∷ []))
unfolding count_fields
list_set-list_get_example = list_set-list_get [] items 1 (int 9) [] (omega arith) (omega arith)

-- {1: true, false: 5 }
abbrev two_entries : Entries
two_entries =
    and_entry (MapKey.int 1) (bool true) (and_entry (MapKey.bool false) (int 5) no_entries)

two_entries-IsMap : IsMap two_entries
unfolding IsMap get key_eq
two_entries-IsMap = (refl, (refl, tt))

map_set-map_get_example :
    (after : Entries) × (map_set (int 9 ∷ int 1 ∷ Value.map two_entries ∷ [])
      ≡ done (Value.map after ∷ []))
    × AfterSet two_entries after (MapKey.int 1) (MapKey.bool false) (int 9) (bool false) []
unfolding from_value
map_set-map_get_example =
    map_set-map_get (int 1) (bool false) (int 9) (MapKey.int 1) (MapKey.bool false) two_entries []
      two_entries-IsMap refl refl

map_remove-map_get_example :
    (after : Entries) × (map_remove (int 1 ∷ Value.map two_entries ∷ [])
      ≡ done (Value.map after ∷ []))
    × AfterRemove two_entries after (MapKey.int 1) (MapKey.bool false) (bool false) []
unfolding from_value
map_remove-map_get_example =
    map_remove-map_get (int 1) (bool false) (MapKey.int 1) (MapKey.bool false) two_entries []
      two_entries-IsMap refl refl

make_variant-unpack_variant_example :
    (fields : Values) × (rest : Stack) × (make_variant 2 (Value.symbol [] ∷ three)
      ≡ done (variant [] fields ∷ rest))
    × (count_fields fields ≡ 2)
    × (unpack_variant 2 (variant [] fields ∷ rest) ≡ done three)
make_variant-unpack_variant_example = make_variant-unpack_variant 2 [] three (omega arith)

list_push-list_get_example :
    (new : Value) × (list_push (int 9 ∷ variant [] items ∷ []) ≡ done (new ∷ []))
    × (list_length (new ∷ []) ≡ done (int (suc (count_fields items)) ∷ []))
    × (list_get (int (count_fields items) ∷ new ∷ []) ≡ done (bool true ∷ int 9 ∷ []))
    × ((m : ℕ)
        → m < count_fields items
        → list_get (int m ∷ new ∷ []) ≡ list_get (int m ∷ variant [] items ∷ []))
unfolding count_fields
list_push-list_get_example = list_push-list_get [] items (int 9) [] (omega arith)

variant_append-variant_init_example :
    (more : Values) × (variant_append (int 9 ∷ variant [] items ∷ []) ≡ done (variant [] more ∷ []))
    × (variant_last (variant [] more ∷ []) ≡ done (int 9 ∷ []))
    × (variant_init (variant [] more ∷ []) ≡ done (variant [] items ∷ []))
variant_append-variant_init_example = variant_append-variant_init (int 9) [] items []
