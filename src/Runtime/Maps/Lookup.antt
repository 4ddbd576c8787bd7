-- ===== src/Runtime/Maps/Lookup.antt =====
-- What a map looks up after an insertion and after a removal.
use cem.Prelude.{
  bytes_eq, ℕ, true, false, none, some, List, [], ◌∷◌, ==_iff, ◌+◌, Bool-cases, inl, inr,
  if◌then◌else◌, ◌≡◌, ◌↔◌, refl, ◌∙◌, arith,
}
use cem.Runtime.Value.{Value, Entries, no_entries, and_entry, MapKey}
use cem.Runtime.Maps.{is_some, key_eq, get, insert, remove, len}

bytes_eq_iff : (s t : List ℕ) → (bytes_eq s t ≡ true) ↔ (s ≡ t)
bytes_eq_iff [] [] = ground arith
bytes_eq_iff [] (b ∷ rest2) = ground arith
bytes_eq_iff (a ∷ rest) [] = ground arith
bytes_eq_iff (a ∷ rest) (b ∷ rest2) = ground (arith, bytes_eq_iff rest rest2, ==_iff a b)

pub key_eq_iff : (k l : MapKey) → (key_eq k l ≡ true) ↔ (k ≡ l)
unfolding key_eq
key_eq_iff (MapKey.int m) (MapKey.int n) = ground (arith, ==_iff m n)
key_eq_iff (MapKey.string s) (MapKey.string t) = ground (arith, bytes_eq_iff s t)
key_eq_iff (MapKey.bool true) (MapKey.bool true) = ground arith
key_eq_iff (MapKey.bool true) (MapKey.bool false) = ground arith
key_eq_iff (MapKey.bool false) (MapKey.bool true) = ground arith
key_eq_iff (MapKey.bool false) (MapKey.bool false) = ground arith
key_eq_iff (MapKey.int m) (MapKey.string t) = ground arith
key_eq_iff (MapKey.int m) (MapKey.bool b) = ground arith
key_eq_iff (MapKey.string s) (MapKey.int n) = ground arith
key_eq_iff (MapKey.string s) (MapKey.bool b) = ground arith
key_eq_iff (MapKey.bool a) (MapKey.int n) = ground arith
key_eq_iff (MapKey.bool a) (MapKey.string t) = ground arith

pub get-insert :
    (key other : MapKey) (value : Value) (entries : Entries)
    → get other (insert key value entries)
      ≡ (if key_eq key other then some value else get other entries)
unfolding get insert
get-insert key other value no_entries = refl
get-insert key other value (and_entry k v entries) = ground (
  arith,
  get-insert key other value entries,
  key_eq_iff k key,
  key_eq_iff k other,
  key_eq_iff key other,
)

-- One entry for each key.
unfoldable pub IsMap : Entries → Type 0
unfolding get
IsMap no_entries = Unit
IsMap (and_entry k v entries) = (get k entries ≡ none) × IsMap entries

pub get-remove :
    (key other : MapKey) (entries : Entries)
    → IsMap entries
    → get other (remove key entries) ≡ (if key_eq key other then none else get other entries)
unfolding get remove IsMap
get-remove key other no_entries h = ground arith
get-remove key other (and_entry k v entries) h =
    let (fresh, rest) = h in
    ground (
      arith,
      get-remove key other entries rest,
      key_eq_iff k key,
      key_eq_iff k other,
      key_eq_iff key other,
    )

pub insert-IsMap :
    (key : MapKey) (value : Value) (entries : Entries)
    → IsMap entries
    → IsMap (insert key value entries)
unfolding get insert IsMap
insert-IsMap key value no_entries h = (refl, tt)
insert-IsMap key value (and_entry k v entries) h =
    let (fresh, rest) = h in
    let turned : key_eq key k ≡ key_eq k key = ground (arith, key_eq_iff k key, key_eq_iff key k) in
    elim (Bool-cases (key_eq k key)) [
      | inl same ↦ rw same h
      | inr different ↦
          rw different
            (rw (get-insert, turned, different) fresh, insert-IsMap key value entries rest)
    ]

pub remove-IsMap : (key : MapKey) (entries : Entries) → IsMap entries → IsMap (remove key entries)
unfolding remove IsMap
remove-IsMap key no_entries h = h
remove-IsMap key (and_entry k v entries) h =
    let (fresh, rest) = h in
    let turned : key_eq key k ≡ key_eq k key = ground (arith, key_eq_iff k key, key_eq_iff key k) in
    elim (Bool-cases (key_eq k key)) [
      | inl same ↦ rw same rest
      | inr different ↦ rw different (
        get-remove key k entries rest ∙ rw (turned, different) fresh,
        remove-IsMap key entries rest,
      )
    ]

pub len-insert :
    (key : MapKey) (value : Value) (entries : Entries)
    → len (insert key value entries) ≡ len entries + (if is_some (get key entries) then 0 else 1)
unfolding get insert len
len-insert key value no_entries = refl
len-insert key value (and_entry k v entries) =
    ground (arith, len-insert key value entries, key_eq_iff k key)

pub len-remove :
    (key : MapKey) (entries : Entries)
    → len entries ≡ len (remove key entries) + (if is_some (get key entries) then 1 else 0)
unfolding get remove len
len-remove key no_entries = refl
len-remove key (and_entry k v entries) = ground (arith, len-remove key entries, key_eq_iff k key)
