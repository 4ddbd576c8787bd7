-- ===== src/Prelude/Dict.antt =====
-- `HashMap<String, V>` as an association list. The order in which a HashMap is iterated is not
-- specified and its keys are distinct, so the loop of `insert_all` may go from the back.
use Prim.Native.String.{String}
use mathlib.Core.Path.{◌≡◌, refl}
use mathlib.Core.Option.{Option, none, some}
use mathlib.Core.List.{List, [], ◌∷◌}
use native.Mathlib.Omega.{arith}
use text.Mathlib.Text.{◌==◌ as str_eq}
use text.Mathlib.TextEquality.{eq_iff}
use text.Mathlib.TextPositions.{eq_refl}
use cem.Prelude.Tests.{if◌then◌else◌}

abbrev pub Dict {ℓ} : Type ℓ → Type ℓ
Dict V = List (String × V)

-- The entry of an overlay: the upper map's if it has one.
abbrev pub or_else {ℓ} : {V : Type ℓ} → Option V → Option V → Option V
or_else (some v) o = some v
or_else none o = o

module _ {ℓ} {V : Type ℓ} where
  unfoldable pub lookup : String → Dict V → Option V
  lookup name [] = none
  lookup name ((key, value) ∷ entries) =
      let rest = lookup name entries in if str_eq key name then some value else rest

  unfoldable pub insert : String → V → Dict V → Dict V
  insert name value [] = (name, value) ∷ []
  insert name value ((key, old) ∷ entries) =
      let rest = insert name value entries in
      if str_eq key name then (name, value) ∷ entries else (key, old) ∷ rest

  -- `for (k, v) in m { acc.insert(k, f(v)) }`
  unfoldable pub insert_all : (V → V) → Dict V → Dict V → Dict V
  unfolding insert
  insert_all f [] acc = acc
  insert_all f ((k, v) ∷ m) acc = insert k (f v) (insert_all f m acc)

  -- A name looks up the value inserted under it, and any other what it did before.
  pub lookup-insert :
      (name other : String) (value : V) (entries : Dict V)
      → lookup other (insert name value entries)
        ≡ (if str_eq name other then some value else lookup other entries)
  unfolding lookup insert
  lookup-insert name other value [] = refl
  lookup-insert name other value ((key, old) ∷ entries) = ground (
    arith,
    lookup-insert name other value entries,
    eq_iff key name,
    eq_iff key other,
    eq_iff name other,
  )

abbrev pub map_option {ℓ} : {V : Type ℓ} → (V → V) → Option V → Option V
map_option f none = none
map_option f (some v) = some (f v)

module _ {ℓ} {V : Type ℓ} where
  pub lookup-insert_all :
      (f : V → V) (m acc : Dict V) (j : String)
      → lookup j (insert_all f m acc) ≡ or_else (map_option f (lookup j m)) (lookup j acc)
  unfolding lookup insert_all
  lookup-insert_all f [] acc j = refl
  lookup-insert_all f ((k, v) ∷ m) acc j =
      ground (
        arith,
        lookup-insert k j (f v) (insert_all f m acc),
        lookup-insert_all f m acc j,
        eq_iff k j,
      )

  pub lookup-singleton_inv :
      (k j : String) (v w : V) → lookup j ((k, v) ∷ []) ≡ some w → (k ≡ j) × (v ≡ w)
  unfolding lookup
  lookup-singleton_inv k j v w h = ground (arith, eq_iff k j)

  pub lookup-singleton_self : (k : String) (v : V) → lookup k ((k, v) ∷ []) ≡ some v
  unfolding lookup
  lookup-singleton_self k v = rw eq_refl
