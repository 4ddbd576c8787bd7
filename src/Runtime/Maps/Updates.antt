-- ===== src/Runtime/Maps/Updates.antt =====
-- What map.get, map.has? and map.size see of a map.set and of a map.remove.
use cem.Prelude.{◌+◌, true, false, some, ◌∷◌, if◌then◌else◌, ◌≡◌, refl, ap, Bool-cases, inl, inr}
use cem.Runtime.Value.{Value, int, bool, map, Entries, MapKey, from_value}
use cem.Runtime.Stack.{Stack, done}
use cem.Runtime.Maps.{
  is_some, key_eq, get, insert, remove, len, map_get, map_set, map_has, map_remove, map_size,
}
use cem.Runtime.Maps.Lookup.{
  IsMap, get-insert, get-remove, insert-IsMap, remove-IsMap, len-insert, len-remove,
}

-- The map that a word leaves is `after`; `other` is a key that is looked up.
pub record AfterSet (before after : Entries) (key key' : MapKey) (value other : Value) (s : Stack)
    : Type 0 where
  pub one_entry_each : IsMap after
  pub size :
      map_size (map after ∷ s)
      ≡ done (int (len before + (if is_some (get key before) then 0 else 1)) ∷ s)
  pub has_key :
      map_has (other ∷ map after ∷ s)
      ≡ (if key_eq key key' then done (bool true ∷ s) else map_has (other ∷ map before ∷ s))
  pub lookup :
      map_get (other ∷ map after ∷ s)
      ≡ (if key_eq key key' then done (bool true ∷ value ∷ s) else map_get (other ∷ map before ∷ s))

pub record AfterRemove (before after : Entries) (key key' : MapKey) (other : Value) (s : Stack)
    : Type 0 where
  pub one_entry_each : IsMap after
  pub size : len before ≡ len after + (if is_some (get key before) then 1 else 0)
  pub has_key :
      map_has (other ∷ map after ∷ s)
      ≡ (if key_eq key key' then done (bool false ∷ s) else map_has (other ∷ map before ∷ s))
  pub lookup : map_get (other ∷ map after ∷ s) ≡ (
      if key_eq key key' then done (bool false ∷ int 0 ∷ s) else map_get (other ∷ map before ∷ s))

-- On a map with one entry for each key, and keys that from_value accepts, map.set leaves such a map; it
-- has one entry more if the key is new; a map.get at the key gives the value and true and a map.has?
-- gives true, and at any other key both give what they gave before.
pub map_set-map_get :
    (k other value : Value) (key key' : MapKey) (before : Entries) (s : Stack)
    → IsMap before
    → from_value k ≡ some key
    → from_value other ≡ some key'
    → (after : Entries) × (map_set (value ∷ k ∷ map before ∷ s) ≡ done (map after ∷ s))
      × AfterSet before after key key' value other s
unfolding map_set map_get map_has map_size
map_set-map_get k other value key key' before s h is_key is_key' =
    let seen = get-insert key key' value before in
    (
      insert key value before,
      rw is_key refl,
      record {
        one_entry_each = insert-IsMap key value before h;
        size = ap (λ n. done (int n ∷ s)) (len-insert key value before);
        has_key = elim (Bool-cases (key_eq key key')) [
          | inl same ↦ rw (is_key', seen, same) refl
          | inr different ↦ rw (is_key', seen, different) refl
        ];
        lookup = elim (Bool-cases (key_eq key key')) [
          | inl same ↦ rw (is_key', seen, same) refl
          | inr different ↦ rw (is_key', seen, different) refl
        ];
      },
    )

-- On a map with one entry for each key, and keys that from_value accepts, map.remove leaves such a map;
-- it has one entry less if the key was there; a map.get at the key gives 0 and false and a map.has?
-- gives false, and at any other key both give what they gave before.
pub map_remove-map_get :
    (k other : Value) (key key' : MapKey) (before : Entries) (s : Stack)
    → IsMap before
    → from_value k ≡ some key
    → from_value other ≡ some key'
    → (after : Entries) × (map_remove (k ∷ map before ∷ s) ≡ done (map after ∷ s))
      × AfterRemove before after key key' other s
unfolding map_remove map_get map_has
map_remove-map_get k other key key' before s h is_key is_key' =
    let seen = get-remove key key' before h in
    (
      remove key before,
      rw is_key refl,
      record {
        one_entry_each = remove-IsMap key before h;
        size = len-remove key before;
        has_key = elim (Bool-cases (key_eq key key')) [
          | inl same ↦ rw (is_key', seen, same) refl
          | inr different ↦ rw (is_key', seen, different) refl
        ];
        lookup = elim (Bool-cases (key_eq key key')) [
          | inl same ↦ rw (is_key', seen, same) refl
          | inr different ↦ rw (is_key', seen, different) refl
        ];
      },
    )
