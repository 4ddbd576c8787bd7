-- ===== src/Runtime/Lists.antt =====
-- crates/runtime/src/list_ops.rs: the words on lists, which are variants. Quotations and closures are
-- machine code: `call callable args` is the stack that the code leaves above a fresh base on which
-- the arguments lie, or none where it panics.
pub mod Combinators
pub mod Elements
use cem.Prelude.{
  ℕ, zero, suc, Bool, true, false, Option, none, some, List, [], ◌∷◌, String, ltb, leb, length,
  if◌then◌else◌, ◌||◌,
}
use cem.Runtime.Value.{Value, int, bool, variant, quotation, closure, Values, no_values, and_value}
use cem.Runtime.Word.{is_negative}
use cem.Runtime.Stack.{
  Stack, Run, done, flagged, panicked, undefined, list_underflow, expected_list_index,
  expected_list,
}

abbrev pub Call : Type 0
Call = Value → Stack → Option Stack

abbrev pub is_callable : Value → Bool
is_callable (quotation _ _) = true
is_callable (closure _ _) = true
is_callable _ = false

-- The match on the callable and on the list below it; `other` words lie below the list.
abbrev pub with_list : String → (Value → List ℕ → Values → Stack → Run Stack) → Stack → Run Stack
with_list name run [] = undefined
with_list name run (c ∷ []) = if is_callable c then undefined else panicked name
with_list name run (c ∷ variant tag fields ∷ s) =
    if is_callable c then run c tag fields s else panicked name
with_list name run (c ∷ _ ∷ s) = panicked name

infixl 5 ◌>>=◌
abbrev pub ◌>>=◌ {ℓ κ} : {A : Type ℓ} {B : Type κ} → Option A → (A → Option B) → Option B
none >>= next = none
some value >>= next = next value

-- The value on top of what a call leaves; what lies below it is drained.
abbrev pub top : Option Stack → Option Value
top none = none
top (some []) = none
top (some (v ∷ _)) = some v

abbrev pub or_panic : String → (Values → Run Stack) → Option Values → Run Stack
or_panic name finish none = panicked name
or_panic name finish (some results) = finish results

unfoldable pub map_fields : Call → Value → Values → Option Values
map_fields call c no_values = some no_values
map_fields call c (and_value x xs) = do
  result ← top (call c (x ∷ []))
  results ← map_fields call c xs
  some (and_value result results)

unfoldable pub list_map : Call → Stack → Run Stack
unfolding map_fields
list_map call = with_list "list-map" (λ c tag fields s.
    or_panic "list-map" (λ results. done (variant tag results ∷ s)) (map_fields call c fields))

-- `match result { Value::Bool(b) => b, _ => panic!(..) }`
abbrev pub as_bool : Value → Option Bool
as_bool (bool b) = some b
as_bool _ = none

unfoldable pub filter_fields : Call → Value → Values → Option Values
filter_fields call c no_values = some no_values
filter_fields call c (and_value x xs) = do
  result ← top (call c (x ∷ []))
  keep ← as_bool result
  results ← filter_fields call c xs
  some (if keep then and_value x results else results)

unfoldable pub list_filter : Call → Stack → Run Stack
unfolding filter_fields
list_filter call = with_list "list-filter" (λ c tag fields s.
    or_panic "list-filter" (λ results. done (variant tag results ∷ s))
      (filter_fields call c fields))

-- The element lies on top of the accumulator.
unfoldable pub fold_fields : Call → Value → Value → Values → Option Value
fold_fields call c acc no_values = some acc
fold_fields call c acc (and_value x xs) = do
  result ← top (call c (x ∷ acc ∷ []))
  fold_fields call c result xs

abbrev pub fold_done : Stack → Option Value → Run Stack
fold_done s none = panicked "list-fold"
fold_done s (some acc) = done (acc ∷ s)

unfoldable pub list_fold : Call → Stack → Run Stack
unfolding fold_fields
list_fold call [] = undefined
list_fold call (c ∷ []) = if is_callable c then undefined else panicked "list-fold"
list_fold call (c ∷ init ∷ []) = if is_callable c then undefined else panicked "list-fold"
list_fold call (c ∷ init ∷ variant tag fields ∷ s) =
    if is_callable c then fold_done s (fold_fields call c init fields) else panicked "list-fold"
list_fold call (c ∷ init ∷ _ ∷ s) = panicked "list-fold"

-- The calls are made for what they do; what they leave is drained.
unfoldable pub each_field : Call → Value → Values → Option Values
each_field call c no_values = some no_values
each_field call c (and_value x xs) = do left ← call c (x ∷ []); each_field call c xs

unfoldable pub list_each : Call → Stack → Run Stack
unfolding each_field
list_each call =
    with_list "list-each"
      (λ c tag fields s. or_panic "list-each" (λ results. done s) (each_field call c fields))

unfoldable pub count_fields : Values → ℕ
count_fields no_values = 0
count_fields (and_value _ xs) = suc (count_fields xs)

-- list_length, by variant_ops.rs: patch_seq_variant_field_count
unfoldable pub list_length : Stack → Run Stack
unfolding count_fields
list_length [] = undefined
list_length (variant _ fields ∷ s) = done (int (count_fields fields) ∷ s)
list_length (_ ∷ s) = panicked "variant-field-count"

abbrev pub no_fields : Values → Bool
no_fields no_values = true
no_fields (and_value _ _) = false

unfoldable pub list_empty : Stack → Run Stack
list_empty [] = undefined
list_empty (variant _ fields ∷ s) = done (bool (no_fields fields) ∷ s)
list_empty (_ ∷ s) = panicked "list-empty?"

-- The bytes of "List"
abbrev pub list_tag : List ℕ
list_tag = b'L' ∷ b'i' ∷ b's' ∷ b't' ∷ []

unfoldable pub list_make : Stack → Run Stack
list_make s = done (variant list_tag no_values ∷ s)

unfoldable pub append_field : Values → Value → Values
append_field no_values v = and_value v no_values
append_field (and_value x xs) v = and_value x (append_field xs v)

unfoldable pub list_push : Stack → Run Stack
unfolding append_field
list_push [] = undefined
list_push (v ∷ []) = undefined
list_push (v ∷ variant tag fields ∷ s) = done (variant tag (append_field fields v) ∷ s)
list_push (v ∷ _ ∷ s) = panicked "list.push"

unfoldable pub field_at : Values → ℕ → Option Value
field_at no_values n = none
field_at (and_value x xs) zero = some x
field_at (and_value x xs) (suc n) = field_at xs n

abbrev pub outside : ℕ → Values → Bool
outside n fields = is_negative n || leb (count_fields fields) n

-- The placeholder 0 and false, above `s`.
abbrev pub missing : Stack → Stack
missing s = bool false ∷ int 0 ∷ s

abbrev pub present : Stack → Option Value → Run Stack
present s none = undefined
present s (some v) = done (bool true ∷ v ∷ s)

unfoldable pub list_get : Stack → Run Stack
unfolding count_fields field_at
list_get [] = flagged (list_underflow 2) []
list_get (i ∷ []) = flagged (list_underflow 2) (i ∷ [])
list_get (int n ∷ variant _ fields ∷ s) =
    if outside n fields then done (missing s) else present s (field_at fields n)
list_get (int n ∷ other ∷ s) = flagged (expected_list other) (missing s)
list_get (i ∷ _ ∷ s) = flagged (expected_list_index i) (missing s)

unfoldable pub replace_field : Values → ℕ → Value → Values
replace_field no_values n v = no_values
replace_field (and_value x xs) zero v = and_value v xs
replace_field (and_value x xs) (suc n) v = and_value x (replace_field xs n v)

unfoldable pub list_set : Stack → Run Stack
unfolding count_fields replace_field
list_set [] = flagged (list_underflow 3) []
list_set (v ∷ []) = flagged (list_underflow 3) (v ∷ [])
list_set (v ∷ i ∷ []) = flagged (list_underflow 3) (v ∷ i ∷ [])
list_set (v ∷ int n ∷ variant tag fields ∷ s) =
    if outside n fields
    then done (bool false ∷ variant tag fields ∷ s)
    else done (bool true ∷ variant tag (replace_field fields n v) ∷ s)
list_set (v ∷ int n ∷ other ∷ s) = flagged (expected_list other) (bool false ∷ other ∷ s)
list_set (v ∷ i ∷ other ∷ s) = flagged (expected_list_index i) (bool false ∷ other ∷ s)
