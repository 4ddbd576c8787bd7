-- ===== src/Runtime/Maps.antt =====
-- crates/runtime/src/map_ops.rs: the words on maps. A HashMap is the list of its entries, one for each
-- key, in the order of its iteration, which is not specified: `insert` adds a new key at the end.
pub mod Lookup
pub mod Updates
use cem.Prelude.{
  bytes_eq, ℕ, zero, suc, Bool, true, false, Option, none, some, List, [], ◌∷◌, String, ◌==◌, ◌&&◌,
  if◌then◌else◌, not,
}
use cem.Runtime.Value
use cem.Runtime.Value.{
  Value, int, bool, variant, map, Values, no_values, and_value, Entries, no_entries, and_entry,
  MapKey, from_value, to_value,
}
use cem.Runtime.Stack.{Stack, Run, done, panicked, undefined}

abbrev bool_eq : Bool → Bool → Bool
bool_eq true b = b
bool_eq false b = not b

-- The derived PartialEq of MapKey
unfoldable pub key_eq : MapKey → MapKey → Bool
key_eq (MapKey.int m) (MapKey.int n) = m == n
key_eq (MapKey.string s) (MapKey.string t) = bytes_eq s t
key_eq (MapKey.bool a) (MapKey.bool b) = bool_eq a b
key_eq _ _ = false

unfoldable pub get : MapKey → Entries → Option Value
get key no_entries = none
get key (and_entry k v entries) =
    let rest = get key entries in if key_eq k key then some v else rest

unfoldable pub insert : MapKey → Value → Entries → Entries
insert key value no_entries = and_entry key value no_entries
insert key value (and_entry k v entries) =
    let rest = insert key value entries in
    if key_eq k key then and_entry k value entries else and_entry k v rest

unfoldable pub remove : MapKey → Entries → Entries
remove key no_entries = no_entries
remove key (and_entry k v entries) =
    let rest = remove key entries in if key_eq k key then entries else and_entry k v rest

unfoldable pub len : Entries → ℕ
len no_entries = zero
len (and_entry k v entries) = suc (len entries)

unfoldable pub keys : Entries → Values
unfolding to_value
keys no_entries = no_values
keys (and_entry k v entries) = and_value (to_value k) (keys entries)

unfoldable pub values : Entries → Values
values no_entries = no_values
values (and_entry k v entries) = and_value v (values entries)

abbrev pub is_some {ℓ} : {A : Type ℓ} → Option A → Bool
is_some none = false
is_some (some a) = true

-- The matches on the map, and on the key above it.
abbrev pub with_map : String → (Entries → Stack → Run Stack) → Stack → Run Stack
with_map name run [] = undefined
with_map name run (map entries ∷ s) = run entries s
with_map name run (_ ∷ s) = panicked name

abbrev pub with_key :
    String → (MapKey → Entries → Stack → Run Stack) → Option MapKey → Stack → Run Stack
with_key name run none s = panicked name
with_key name run (some key) s = with_map name (run key) s

unfoldable pub make_map : Stack → Run Stack
make_map s = done (map no_entries ∷ s)

abbrev pub found : Stack → Option Value → Run Stack
found s (some value) = done (bool true ∷ value ∷ s)
found s none = done (bool false ∷ int 0 ∷ s)

unfoldable pub map_get : Stack → Run Stack
unfolding from_value get
map_get [] = undefined
map_get (k ∷ s) = with_key "map-get" (λ key entries s. found s (get key entries)) (from_value k) s

unfoldable pub map_set : Stack → Run Stack
unfolding from_value insert
map_set [] = undefined
map_set (v ∷ []) = undefined
map_set (v ∷ k ∷ s) =
    with_key "map-set" (λ key entries s. done (map (insert key v entries) ∷ s)) (from_value k) s

unfoldable pub map_has : Stack → Run Stack
unfolding from_value get
map_has [] = undefined
map_has (k ∷ s) =
    with_key "map-has?" (λ key entries s. done (bool (is_some (get key entries)) ∷ s))
      (from_value k) s

unfoldable pub map_remove : Stack → Run Stack
unfolding from_value remove
map_remove [] = undefined
map_remove (k ∷ s) =
    with_key "map-remove" (λ key entries s. done (map (remove key entries) ∷ s)) (from_value k) s

-- The bytes of "List"
abbrev list_tag : List ℕ
list_tag = 76 ∷ 105 ∷ 115 ∷ 116 ∷ []

unfoldable pub map_keys : Stack → Run Stack
unfolding keys
map_keys = with_map "map-keys" (λ entries s. done (variant list_tag (keys entries) ∷ s))

unfoldable pub map_values : Stack → Run Stack
unfolding values
map_values = with_map "map-values" (λ entries s. done (variant list_tag (values entries) ∷ s))

unfoldable pub map_size : Stack → Run Stack
unfolding len
map_size = with_map "map-size" (λ entries s. done (int (len entries) ∷ s))

unfoldable pub map_empty : Stack → Run Stack
unfolding len
map_empty = with_map "map-empty?" (λ entries s. done (bool (len entries == 0) ∷ s))
