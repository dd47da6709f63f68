-- ===== src/Prelude/Maps.antt =====
-- `Map<string, V>` as an association list in insertion order.
use Prim.Native.String.{String}
use mathlib.Core.Path.{◌≡◌, refl}
use mathlib.Core.Option.{Option, none, some}
use mathlib.Core.List.{List, [], ◌∷◌}
use native.Mathlib.Omega.{arith}
use text.Mathlib.Text.{◌==◌}
use text.Mathlib.TextEquality.{eq_iff}
use text.Mathlib.TextPositions.{eq_refl}
use vcv_rack_mcp.Prelude.Tests.{if◌then◌else◌}

module _ {ℓ} {V : Type ℓ} where
  -- `map.get(key)`
  unfoldable pub lookup : (key : String) → List (String × V) → Option V
  lookup key ((name, value) ∷ entries) = if name == key then some value else lookup key entries
  lookup key [] = none

  -- `map.set(key, value)`: an entry that is there keeps its place.
  unfoldable pub insert : (key : String) → V → List (String × V) → List (String × V)
  insert key value ((name, old) ∷ entries) =
      if name == key then (key, value) ∷ entries else (name, old) ∷ insert key value entries
  insert key value [] = (key, value) ∷ []

  -- `map.delete(key)`
  unfoldable pub delete : (key : String) → List (String × V) → List (String × V)
  delete key ((name, old) ∷ entries) =
      if name == key then delete key entries else (name, old) ∷ delete key entries
  delete key [] = []

  pub lookup-insert :
      (key wanted : String) (value : V) (entries : List (String × V))
      → lookup wanted (insert key value entries)
        ≡ (if key == wanted then some value else lookup wanted entries)
  unfolding lookup insert
  lookup-insert key wanted value ((name, old) ∷ entries) =
      let later = lookup-insert key wanted value entries in
      ground (arith, later, eq_iff name wanted, eq_iff key wanted, eq_iff name key)
  lookup-insert key wanted value [] = refl

  pub lookup-insert_self :
      (key : String) (value : V) (entries : List (String × V))
      → lookup key (insert key value entries) ≡ some value
  lookup-insert_self key value entries =
      ground (arith, lookup-insert key key value entries, eq_refl key)

  pub lookup-delete :
      (key wanted : String) (entries : List (String × V))
      → lookup wanted (delete key entries) ≡ (if key == wanted then none else lookup wanted entries)
  unfolding lookup delete
  lookup-delete key wanted ((name, old) ∷ entries) =
      let later = lookup-delete key wanted entries in
      ground (arith, later, eq_iff name wanted, eq_iff key wanted, eq_iff name key)
  lookup-delete key wanted [] = ground arith

  pub lookup-delete_self :
      (key : String) (entries : List (String × V)) → lookup key (delete key entries) ≡ none
  lookup-delete_self key entries = ground (arith, lookup-delete key key entries, eq_refl key)
