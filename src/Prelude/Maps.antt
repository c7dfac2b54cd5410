-- ===== src/Prelude/Maps.antt =====
-- Go maps keyed by strings: an association list in which a key stands once. The laws are stated
-- through `lookup`, the only way in which the program reads a map by its key.

use Prim.Native.String.{String}
use mathlib.Core.Path.{◌≡◌, refl}
use mathlib.Core.Bool.{true}
use mathlib.Core.Option.{Option, none, some}
use mathlib.Core.List.{List, [], ◌∷◌}
use native.Mathlib.Omega.{arith}
use text.Mathlib.TextEquality.{eq_iff}
use text.Mathlib.TextPositions.{eq_refl}
use inngestgo.Prelude.Tests.{str_eq, if◌then◌else◌}

abbrev pub Map {ℓ} : Type ℓ → Type ℓ
Map V = List (String × V)

module _ {ℓ} {V : Type ℓ} where
  -- `v, ok := m[key]`
  unfoldable pub lookup : String → Map V → Option V
  lookup key [] = none
  lookup key (entry ∷ rest) = if str_eq entry.0 key then some entry.1 else lookup key rest

  -- `delete(m, key)`
  unfoldable pub erase : String → Map V → Map V
  erase key [] = []
  erase key (entry ∷ rest) =
      let others = erase key rest in if str_eq entry.0 key then others else entry ∷ others

  -- `m[key] = val`
  unfoldable pub insert : String → V → Map V → Map V
  insert key val [] = (key, val) ∷ []
  insert key val (entry ∷ rest) =
      let others = insert key val rest in
      if str_eq entry.0 key then (key, val) ∷ rest else entry ∷ others

  pub lookup-erase :
      (key other : String) (m : Map V)
      → lookup other (erase key m) ≡ (if str_eq key other then none else lookup other m)
  unfolding lookup erase
  lookup-erase key other [] = ground arith
  lookup-erase key other (entry ∷ rest) = ground (
    arith,
    lookup-erase key other rest,
    eq_iff entry.0 other,
    eq_iff entry.0 key,
    eq_iff key other,
  )

  pub lookup-insert :
      (key other : String) (val : V) (m : Map V)
      → lookup other (insert key val m) ≡ (if str_eq key other then some val else lookup other m)
  unfolding lookup insert
  lookup-insert key other val [] = refl
  lookup-insert key other val (entry ∷ rest) = ground (
    arith,
    lookup-insert key other val rest,
    eq_iff entry.0 other,
    eq_iff entry.0 key,
    eq_iff key other,
  )

  pub lookup-erase_self : (key : String) (m : Map V) → lookup key (erase key m) ≡ none
  lookup-erase_self key m = simp (lookup-erase, eq_refl)

  pub lookup-insert_self :
      (key : String) (val : V) (m : Map V) → lookup key (insert key val m) ≡ some val
  lookup-insert_self key val m = simp (lookup-insert, eq_refl)

pub str_eq_refl : (s : String) → str_eq s s ≡ true
str_eq_refl s = eq_refl s
