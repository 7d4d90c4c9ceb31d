-- ===== src/Prelude/Map.antt =====
-- Go's maps with string keys, as association lists. The program never depends on the order of a
-- map's entries.
use Prim.Native.String.{String}
use mathlib.Core.Path.{◌≡◌, refl}
use mathlib.Core.Option.{Option, none, some}
use mathlib.Core.List.{List, [], ◌∷◌}
use native.Mathlib.Omega.{arith}
use text.Mathlib.Text.{◌==◌}
use text.Mathlib.TextEquality.{eq_iff}
use swf4go.Prelude.Tests.{if◌then◌else◌}

abbrev pub Map {ℓ} : Type ℓ → Type ℓ
Map V = List (String × V)

module _ {ℓ} {V : Type ℓ} where
  -- value, ok := m[key]
  unfoldable pub lookup : String → Map V → Option V
  lookup key [] = none
  lookup key (e ∷ rest) = if e.0 == key then some e.1 else lookup key rest

  -- m[key] = value
  unfoldable pub insert : String → V → Map V → Map V
  insert key value [] = (key, value) ∷ []
  insert key value (e ∷ rest) =
      let kept = insert key value rest in if e.0 == key then (key, value) ∷ rest else e ∷ kept

  -- delete(m, key)
  unfoldable pub delete : String → Map V → Map V
  delete key [] = []
  delete key (e ∷ rest) = let kept = delete key rest in if e.0 == key then kept else e ∷ kept

  -- What another key, or the same, is found at after a change.
  pub lookup-insert :
      (key other : String) (value : V) (m : Map V)
      → lookup other (insert key value m) ≡ (if key == other then some value else lookup other m)
  unfolding lookup insert
  lookup-insert key other value [] = refl
  lookup-insert key other value (e ∷ rest) = ground (
    arith,
    lookup-insert key other value rest,
    eq_iff e.0 key,
    eq_iff e.0 other,
    eq_iff key other,
  )

  pub lookup-delete :
      (key other : String) (m : Map V)
      → lookup other (delete key m) ≡ (if key == other then none else lookup other m)
  unfolding lookup delete
  lookup-delete key other [] = ground arith
  lookup-delete key other (e ∷ rest) =
      ground
        (arith, lookup-delete key other rest, eq_iff e.0 key, eq_iff e.0 other, eq_iff key other)

  -- Writing an entry twice, and deleting it twice, is as doing it once.
  pub insert-insert : (k : String) (v : V) (m : Map V) → insert k v (insert k v m) ≡ insert k v m
  unfolding insert
  insert-insert k v [] = ground (arith, eq_iff k k)
  insert-insert k v ((i, w) ∷ m) = ground (arith, eq_iff i k, eq_iff k k, insert-insert k v m)

  pub delete-delete : (k : String) (m : Map V) → delete k (delete k m) ≡ delete k m
  unfolding delete
  delete-delete k [] = refl
  delete-delete k ((i, w) ∷ m) = ground (arith, eq_iff i k, delete-delete k m)
