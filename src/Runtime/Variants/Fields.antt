-- ===== src/Runtime/Variants/Fields.antt =====
-- Making and unpacking a variant, and its fields as a stack.
use cem.Prelude.{
  ℕ, zero, suc, ◌+◌, ◌≤◌, some, List, [], ◌∷◌, length, ltb, false, ◌≡◌, refl, ap, subst, arith,
}
use cem.Runtime.Value.{Value, symbol, variant, Values, no_values, and_value}
use cem.Runtime.Stack.{Stack, done}
use cem.Runtime.Lists.{count_fields, append_field}
use cem.Runtime.Variants.{
  pop_fields, make_variant, push_fields, unpack_variant, variant_append, last_field, variant_last,
  init_fields, variant_init,
}

-- Enough values are there, the fields are counted, and pushing them all puts the values back.
pop_fields_lem :
    (n : ℕ) (acc : Values) (s : Stack)
    → n ≤ length s
    → (fields : Values) × (rest : Stack) × (pop_fields n acc s ≡ some (fields, rest))
      × (count_fields fields ≡ n + count_fields acc)
      × (push_fields (count_fields fields) fields rest ≡ push_fields (count_fields acc) acc s)
unfolding pop_fields push_fields count_fields
pop_fields_lem zero acc s enough = (acc, s, refl, omega arith, refl)
pop_fields_lem (suc n) acc [] enough = absurd (omega arith)
pop_fields_lem (suc n) acc (v ∷ s) enough =
    let (fields, rest, popped, count, back) = pop_fields_lem n (and_value v acc) s (omega arith) in
    (fields, rest, popped, omega arith, back)

-- Where enough values lie below the tag, variant.make-n makes a variant of n fields out of the top n, and
-- to unpack it puts the stack back as it was below the tag.
pub make_variant-unpack_variant :
    (n : ℕ) (tag : List ℕ) (s : Stack)
    → n ≤ length s
    → (fields : Values) × (rest : Stack) × (make_variant n (symbol tag ∷ s)
        ≡ done (variant tag fields ∷ rest))
      × (count_fields fields ≡ n)
      × (unpack_variant n (variant tag fields ∷ rest) ≡ done s)
unfolding make_variant unpack_variant push_fields count_fields
make_variant-unpack_variant n tag s enough =
    let (fields, rest, popped, count, back) = pop_fields_lem n no_values s enough in
    let exact : count_fields fields ≡ n = omega arith in
    let fits : ltb (count_fields fields) n ≡ false = ground arith in
    let all : push_fields n fields rest ≡ s =
      subst (λ k. push_fields k fields rest ≡ s) exact back in
    (fields, rest, rw popped refl, exact, rw (fits, all) refl)

last_field-append : (v w : Value) (fields : Values) → last_field v (append_field fields w) ≡ w
unfolding last_field append_field
last_field-append v w no_values = refl
last_field-append v w (and_value x fields) = last_field-append x w fields

init_fields-append :
    (v w : Value) (fields : Values) → init_fields v (append_field fields w) ≡ and_value v fields
unfolding init_fields append_field
init_fields-append v w no_values = refl
init_fields-append v w (and_value x fields) = ap (and_value v) (init_fields-append x w fields)

-- On variants as stacks, variant.append pushes a field, variant.last then gives it, and variant.init
-- takes it off again.
pub variant_append-variant_init :
    (value : Value) (tag : List ℕ) (fields : Values) (s : Stack)
    → (more : Values) × (variant_append (value ∷ variant tag fields ∷ s)
        ≡ done (variant tag more ∷ s))
      × (variant_last (variant tag more ∷ s) ≡ done (value ∷ s))
      × (variant_init (variant tag more ∷ s) ≡ done (variant tag fields ∷ s))
unfolding variant_append variant_last variant_init append_field last_field init_fields
variant_append-variant_init value tag no_values s = (and_value value no_values, refl, refl, refl)
variant_append-variant_init value tag (and_value v fields) s = (
  and_value v (append_field fields value),
  refl,
  rw last_field-append refl,
  rw init_fields-append refl,
)
