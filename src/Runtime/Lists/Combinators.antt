-- ===== src/Runtime/Lists/Combinators.antt =====
-- list-map, list-filter and list-fold beside the operations on lists of that name.
use mathlib.Core.List.{map}
use cem.Prelude.{
  ℕ, Bool, true, ◌≡◌, refl, ap, some, List, [], ◌∷◌, if◌then◌else◌, Bool-cases, inl, inr,
}
use cem.Runtime.Value.{Value, bool, variant, Values, no_values, and_value}
use cem.Runtime.Stack.{Stack, done}
use cem.Runtime.Lists.{
  Call, is_callable, map_fields, list_map, filter_fields, list_filter, fold_fields, list_fold,
}

abbrev pub to_list : Values → List Value
to_list no_values = []
to_list (and_value x xs) = x ∷ to_list xs

abbrev pub keep_if : (Value → Bool) → List Value → List Value
keep_if p [] = []
keep_if p (x ∷ xs) = if p x then x ∷ keep_if p xs else keep_if p xs

abbrev pub fold_left : (Value → Value → Value) → Value → List Value → Value
fold_left f acc [] = acc
fold_left f acc (x ∷ xs) = fold_left f (f acc x) xs

module _ (call : Call) (c : Value) (f : Value → Value) (junk : Value → Stack)
    (computes : (x : Value) → call c (x ∷ []) ≡ some (f x ∷ junk x)) where
  map_fields_lem :
      (fields : Values)
      → (out : Values) × (map_fields call c fields ≡ some out)
        × (to_list out ≡ map f (to_list fields))
  unfolding map_fields
  map_fields_lem no_values = (no_values, refl, refl)
  map_fields_lem (and_value x xs) =
      let (out, found, mapped) = map_fields_lem xs in
      (and_value (f x) out, rw (computes, found) refl, ap (λ ys. f x ∷ ys) mapped)

  -- With a quotation or a closure that leaves f x on top for every argument x, whatever it leaves below,
  -- `list_map` leaves the list of the same tag whose elements are those of the list, f applied.
  pub list_map_lem :
      (tag : List ℕ) (fields : Values) (s : Stack)
      → is_callable c ≡ true
      → (out : Values) × (list_map call (c ∷ variant tag fields ∷ s) ≡ done (variant tag out ∷ s))
        × (to_list out ≡ map f (to_list fields))
  unfolding list_map
  list_map_lem tag fields s callable =
      let (out, found, mapped) = map_fields_lem fields in (out, rw (callable, found) refl, mapped)

module _ (call : Call) (c : Value) (p : Value → Bool) (junk : Value → Stack)
    (decides : (x : Value) → call c (x ∷ []) ≡ some (bool (p x) ∷ junk x)) where
  filter_fields_lem :
      (fields : Values)
      → (out : Values) × (filter_fields call c fields ≡ some out)
        × (to_list out ≡ keep_if p (to_list fields))
  unfolding filter_fields
  filter_fields_lem no_values = (no_values, refl, refl)
  filter_fields_lem (and_value x xs) =
      let (out, found, kept) = filter_fields_lem xs in
      elim (Bool-cases (p x)) [
        | inl holds ↦
            (and_value x out, rw (decides, found, holds) refl, rw holds (ap (λ ys. x ∷ ys) kept))
        | inr fails ↦ (out, rw (decides, found, fails) refl, rw fails kept)
      ]

  -- With a quotation or a closure that leaves the Bool p x on top for every argument x, whatever it
  -- leaves below, `list_filter` leaves the list of the same tag with the elements for which p holds,
  -- in their order.
  pub list_filter_lem :
      (tag : List ℕ) (fields : Values) (s : Stack)
      → is_callable c ≡ true
      → (out : Values) × (list_filter call (c ∷ variant tag fields ∷ s)
          ≡ done (variant tag out ∷ s))
        × (to_list out ≡ keep_if p (to_list fields))
  unfolding list_filter
  list_filter_lem tag fields s callable =
      let (out, found, kept) = filter_fields_lem fields in (out, rw (callable, found) refl, kept)

module _ (call : Call) (c : Value) (f : Value → Value → Value) (junk : Value → Value → Stack)
    (computes : (acc x : Value) → call c (x ∷ acc ∷ []) ≡ some (f acc x ∷ junk acc x)) where
  fold_fields_lem :
      (acc : Value) (fields : Values)
      → fold_fields call c acc fields ≡ some (fold_left f acc (to_list fields))
  unfolding fold_fields
  fold_fields_lem acc no_values = refl
  fold_fields_lem acc (and_value x xs) = rw computes (fold_fields_lem (f acc x) xs)

  -- With a quotation or a closure that leaves f acc x on top for every accumulator and element,
  -- whatever it leaves below, `list_fold` leaves the left fold of the elements from the initial value.
  pub list_fold_lem :
      (tag : List ℕ) (init : Value) (fields : Values) (s : Stack)
      → is_callable c ≡ true
      → list_fold call (c ∷ init ∷ variant tag fields ∷ s)
        ≡ done (fold_left f init (to_list fields) ∷ s)
  unfolding list_fold
  list_fold_lem tag init fields s callable = rw (callable, fold_fields_lem init fields) refl
