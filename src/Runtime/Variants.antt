-- ===== src/Runtime/Variants.antt =====
-- crates/runtime/src/variant_ops.rs: the words on variants. A symbol and a tag are the bytes of their
-- text; the name that symbol_eq_cstr compares with is given by the compiler, and is text.
pub mod Fields
use cem.Prelude.{ℕ, zero, suc, Option, none, some, List, [], ◌∷◌, ltb, bytes_eq, if◌then◌else◌}
use cem.Runtime.Value.{Value, int, bool, symbol, variant, Values, no_values, and_value}
use cem.Runtime.Word.{is_negative}
use cem.Runtime.Stack.{Stack, Run, done, panicked, undefined}
use cem.Runtime.Lists.{count_fields, append_field, field_at}

unfoldable pub variant_field_count : Stack → Run Stack
unfolding count_fields
variant_field_count [] = undefined
variant_field_count (variant _ fields ∷ s) = done (int (count_fields fields) ∷ s)
variant_field_count (_ ∷ s) = panicked "variant-field-count"

unfoldable pub variant_tag : Stack → Run Stack
variant_tag [] = undefined
variant_tag (variant tag _ ∷ s) = done (symbol tag ∷ s)
variant_tag (_ ∷ s) = panicked "variant-tag"

unfoldable pub symbol_eq_cstr : List ℕ → Stack → Run Stack
symbol_eq_cstr expected [] = undefined
symbol_eq_cstr expected (symbol s ∷ rest) = done (bool (bytes_eq s expected) ∷ rest)
symbol_eq_cstr expected (_ ∷ rest) = panicked "symbol_eq_cstr"

-- `none` is an index out of bounds.
abbrev pub or_out_of_bounds : Stack → Option Value → Run Stack
or_out_of_bounds s none = panicked "variant-field-at"
or_out_of_bounds s (some field) = done (field ∷ s)

abbrev pub at_index : ℕ → Stack → Run Stack
at_index index [] = undefined
at_index index (variant _ fields ∷ s) = or_out_of_bounds s (field_at fields index)
at_index index (_ ∷ s) = panicked "variant-field-at"

unfoldable pub variant_field_at : Stack → Run Stack
unfolding field_at
variant_field_at [] = undefined
variant_field_at (int index ∷ s) =
    if is_negative index then panicked "variant-field-at" else at_index index s
variant_field_at (_ ∷ s) = panicked "variant-field-at"

-- The last field is popped first.
unfoldable pub pop_fields : ℕ → Values → Stack → Option (Values × Stack)
pop_fields zero fields s = some (fields, s)
pop_fields (suc n) fields [] = none
pop_fields (suc n) fields (v ∷ s) = pop_fields n (and_value v fields) s

abbrev pub built : List ℕ → Option (Values × Stack) → Run Stack
built tag none = undefined
built tag (some (fields, s)) = done (variant tag fields ∷ s)

-- The functions patch_seq_make_variant_0 to patch_seq_make_variant_12 differ in the number of fields, and
-- in the name that a panic gives.
unfoldable pub make_variant : ℕ → Stack → Run Stack
unfolding pop_fields
make_variant n [] = undefined
make_variant n (symbol tag ∷ s) = built tag (pop_fields n no_values s)
make_variant n (_ ∷ s) = panicked "make-variant"

abbrev make_variant_0 : Stack → Run Stack
make_variant_0 = make_variant 0

abbrev make_variant_1 : Stack → Run Stack
make_variant_1 = make_variant 1

abbrev make_variant_2 : Stack → Run Stack
make_variant_2 = make_variant 2

abbrev make_variant_3 : Stack → Run Stack
make_variant_3 = make_variant 3

abbrev make_variant_4 : Stack → Run Stack
make_variant_4 = make_variant 4

abbrev make_variant_5 : Stack → Run Stack
make_variant_5 = make_variant 5

abbrev make_variant_6 : Stack → Run Stack
make_variant_6 = make_variant 6

abbrev make_variant_7 : Stack → Run Stack
make_variant_7 = make_variant 7

abbrev make_variant_8 : Stack → Run Stack
make_variant_8 = make_variant 8

abbrev make_variant_9 : Stack → Run Stack
make_variant_9 = make_variant 9

abbrev make_variant_10 : Stack → Run Stack
make_variant_10 = make_variant 10

abbrev make_variant_11 : Stack → Run Stack
make_variant_11 = make_variant 11

abbrev make_variant_12 : Stack → Run Stack
make_variant_12 = make_variant 12

unfoldable pub variant_append : Stack → Run Stack
unfolding append_field
variant_append [] = undefined
variant_append (value ∷ []) = undefined
variant_append (value ∷ variant tag fields ∷ s) = done (variant tag (append_field fields value) ∷ s)
variant_append (value ∷ _ ∷ s) = panicked "variant-append"

-- The last of the fields, of which `v` is the first.
unfoldable pub last_field : Value → Values → Value
last_field v no_values = v
last_field v (and_value w fields) = last_field w fields

unfoldable pub variant_last : Stack → Run Stack
unfolding last_field
variant_last [] = undefined
variant_last (variant _ no_values ∷ s) = panicked "variant-last"
variant_last (variant _ (and_value v fields) ∷ s) = done (last_field v fields ∷ s)
variant_last (_ ∷ s) = panicked "variant-last"

-- All fields but the last.
unfoldable pub init_fields : Value → Values → Values
init_fields v no_values = no_values
init_fields v (and_value w fields) = and_value v (init_fields w fields)

unfoldable pub variant_init : Stack → Run Stack
unfolding init_fields
variant_init [] = undefined
variant_init (variant _ no_values ∷ s) = panicked "variant-init"
variant_init (variant tag (and_value v fields) ∷ s) = done (variant tag (init_fields v fields) ∷ s)
variant_init (_ ∷ s) = panicked "variant-init"

unfoldable pub push_fields : ℕ → Values → Stack → Stack
push_fields zero fields s = s
push_fields (suc n) no_values s = s
push_fields (suc n) (and_value v fields) s = push_fields n fields (v ∷ s)

unfoldable pub unpack_variant : ℕ → Stack → Run Stack
unfolding count_fields push_fields
unpack_variant field_count [] = undefined
unpack_variant field_count (variant _ fields ∷ s) =
    if ltb (count_fields fields) field_count
    then panicked "unpack-variant"
    else done (push_fields field_count fields s)
unpack_variant field_count (_ ∷ s) = panicked "unpack-variant"
