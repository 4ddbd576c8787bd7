-- ===== src/Runtime/Lists/Elements.antt =====
-- list.push, list.get and list.set together.
use cem.Prelude.{
  ℕ, zero, suc, ◌^◌, ◌<◌, ◌≤◌, ◌≡◌, ◌≢◌, refl, Bool, true, false, some, List, ◌∷◌, arith, leb,
  Bool-cases, inl, inr,
}
use cem.Runtime.Value.{Value, int, bool, variant, Values, no_values, and_value}
use cem.Runtime.Word.{is_negative}
use cem.Runtime.Stack.{Stack, Run, done, flagged}
use cem.Runtime.Lists.{
  count_fields, append_field, field_at, replace_field, outside, missing, list_push, list_get,
  list_set, list_length,
}

count_fields-append :
    (fields : Values) (v : Value) → count_fields (append_field fields v) ≡ suc (count_fields fields)
unfolding count_fields append_field
count_fields-append no_values v = refl
count_fields-append (and_value x xs) v = omega (arith, count_fields-append xs v)

field_at-append_last :
    (fields : Values) (v : Value) → field_at (append_field fields v) (count_fields fields) ≡ some v
unfolding field_at append_field count_fields
field_at-append_last no_values v = refl
field_at-append_last (and_value x xs) v = field_at-append_last xs v

field_at-append :
    (fields : Values) (v : Value) (n : ℕ)
    → n < count_fields fields
    → field_at (append_field fields v) n ≡ field_at fields n
unfolding field_at append_field count_fields
field_at-append no_values v n h = absurd (omega arith)
field_at-append (and_value x xs) v zero h = refl
field_at-append (and_value x xs) v (suc n) h = field_at-append xs v n (omega arith)

count_fields-replace :
    (fields : Values) (n : ℕ) (v : Value)
    → count_fields (replace_field fields n v) ≡ count_fields fields
unfolding count_fields replace_field
count_fields-replace no_values n v = refl
count_fields-replace (and_value x xs) zero v = refl
count_fields-replace (and_value x xs) (suc n) v = omega (arith, count_fields-replace xs n v)

field_at-replace_same :
    (fields : Values) (n : ℕ) (v : Value)
    → n < count_fields fields
    → field_at (replace_field fields n v) n ≡ some v
unfolding field_at replace_field count_fields
field_at-replace_same no_values n v h = absurd (omega arith)
field_at-replace_same (and_value x xs) zero v h = refl
field_at-replace_same (and_value x xs) (suc n) v h = field_at-replace_same xs n v (omega arith)

field_at-replace_other :
    (fields : Values) (n m : ℕ) (v : Value)
    → n ≢ m
    → field_at (replace_field fields n v) m ≡ field_at fields m
unfolding field_at replace_field
field_at-replace_other no_values n m v h = refl
field_at-replace_other (and_value x xs) zero zero v h = absurd (h refl)
field_at-replace_other (and_value x xs) zero (suc m) v h = refl
field_at-replace_other (and_value x xs) (suc n) zero v h = refl
field_at-replace_other (and_value x xs) (suc n) (suc m) v h =
    field_at-replace_other xs n m v (ground arith)

-- What `list_set` at index n of a list does, as `list_get` sees it: the new list has the value there,
-- and at every other index what the list had.
pub list_set-list_get :
    (tag : List ℕ) (fields : Values) (n : ℕ) (v : Value) (s : Stack)
    → n < count_fields fields
    → count_fields fields ≤ 2 ^ 63
    → (new : Value) × (list_set (v ∷ int n ∷ variant tag fields ∷ s) ≡ done (bool true ∷ new ∷ s))
      × (list_get (int n ∷ new ∷ s) ≡ done (bool true ∷ v ∷ s))
      × ((m : ℕ) → n ≢ m → list_get (int m ∷ new ∷ s) ≡ list_get (int m ∷ variant tag fields ∷ s))
unfolding list_set list_get
list_set-list_get tag fields n v s inside small =
    let here : outside n fields ≡ false = ground arith in
    (
      variant tag (replace_field fields n v),
      rw here refl,
      rw (count_fields-replace fields n v, here, field_at-replace_same fields n v inside) refl,
      λ m differ.
          rw (count_fields-replace fields n v, field_at-replace_other fields n m v differ) refl,
    )

-- What `list_push` does, as `list_length` and `list_get` see it: the list is one longer, its last
-- element is the value, and the elements before are those of the list.
pub list_push-list_get :
    (tag : List ℕ) (fields : Values) (v : Value) (s : Stack)
    → count_fields fields < 2 ^ 63
    → (new : Value) × (list_push (v ∷ variant tag fields ∷ s) ≡ done (new ∷ s))
      × (list_length (new ∷ s) ≡ done (int (suc (count_fields fields)) ∷ s))
      × (list_get (int (count_fields fields) ∷ new ∷ s) ≡ done (bool true ∷ v ∷ s))
      × ((m : ℕ)
          → m < count_fields fields
          → list_get (int m ∷ new ∷ s) ≡ list_get (int m ∷ variant tag fields ∷ s))
unfolding list_push list_get list_length
list_push-list_get tag fields v s small =
    let last_in : leb (suc (count_fields fields)) (count_fields fields) ≡ false = ground arith in
    let positive : is_negative (count_fields fields) ≡ false = ground arith in
    (
      variant tag (append_field fields v),
      refl,
      rw (count_fields-append fields v) refl,
      rw (count_fields-append fields v, positive, last_in, field_at-append_last fields v) refl,
      λ m lt.
          let in_new : leb (suc (count_fields fields)) m ≡ false = ground arith in
          let in_old : leb (count_fields fields) m ≡ false = ground arith in
          rw (count_fields-append fields v, in_new, in_old, field_at-append fields v m lt) refl,
    )

-- How `list_get` ends: with a flag and a value in place of the list and the index.
abbrev pub Answers : Stack → Run Stack → Type 0
Answers s (done out) = (found : Bool) × (v : Value) × (out ≡ bool found ∷ v ∷ s)
Answers s (flagged e out) = out ≡ missing s
Answers s _ = ⊥

field_at-lt :
    (fields : Values) (n : ℕ) → n < count_fields fields → (v : Value) × (field_at fields n ≡ some v)
unfolding field_at count_fields
field_at-lt no_values n h = absurd (omega arith)
field_at-lt (and_value x xs) zero h = (x, refl)
field_at-lt (and_value x xs) (suc n) h = field_at-lt xs n (omega arith)

-- Whatever two values lie on top, `list_get` neither panics nor reads below the base: it puts a flag
-- and a value in their place, and where it records an error these are false and 0.
pub list_get-Answers : (i list : Value) (s : Stack) → Answers s (list_get (i ∷ list ∷ s))
unfolding list_get
list_get-Answers (int n) (variant tag fields) s = elim (Bool-cases (outside n fields)) [
  | inl out ↦ rw out (false, int 0, refl)
  | inr within ↦
      let (v, found) = field_at-lt fields n (ground arith) in rw (within, found) (true, v, refl)
]
list_get-Answers (int n) _ s = refl
list_get-Answers _ _ s = refl
