-- ===== src/Prelude/Maps.antt =====
-- JavaScript maps and objects keyed by text, in insertion order.
use Prim.Native.String.{String}
use mathlib.Core.Path.{◌≡◌, refl}
use mathlib.Core.Bool.{Bool, true, false}
use mathlib.Core.Option.{Option, none, some}
use mathlib.Core.List.{List, [], ◌∷◌, map}
use native.Mathlib.Omega.{arith}
use text.Mathlib.Text.{◌==◌}
use text.Mathlib.TextEquality.{eq_iff}
use text.Mathlib.TextPositions.{eq_refl}
use frame_oldbackend_public.Prelude.Tests.{if◌then◌else◌}

abbrev pub Map {ℓ} : Type ℓ → Type ℓ
Map V = List (String × V)

module _ {ℓ} {V : Type ℓ} where
  -- `m.get(key)`, `m[key]`
  unfoldable pub lookup : String → Map V → Option V
  lookup key [] = none
  lookup key ((other, value) ∷ rest) = if other == key then some value else lookup key rest

  -- `m.set(key, value)`, `m[key] = value`
  unfoldable pub insert : String → V → Map V → Map V
  insert key value [] = (key, value) ∷ []
  insert key value ((other, held) ∷ rest) =
      if other == key then (key, value) ∷ rest else (other, held) ∷ insert key value rest

  -- `m.delete(key)`, `delete m[key]`
  unfoldable pub erase : String → Map V → Map V
  erase key [] = []
  erase key ((other, held) ∷ rest) =
      if other == key then erase key rest else (other, held) ∷ erase key rest

  -- `Object.keys(m)`
  abbrev pub keys : Map V → List String
  keys = map (λ e. e.0)

  -- `Object.values(m)`
  abbrev pub values : Map V → List V
  values = map (λ e. e.1)

  pub lookup-insert :
      (key other : String) (value : V) (rest : Map V)
      → lookup other (insert key value rest)
        ≡ (if key == other then some value else lookup other rest)
  unfolding lookup insert
  lookup-insert key other value [] = refl
  lookup-insert key other value ((name, held) ∷ rest) = ground (
    arith,
    eq_iff key other,
    eq_iff name key,
    eq_iff name other,
    lookup-insert key other value rest,
  )

  pub lookup-insert_self :
      (key : String) (value : V) (rest : Map V) → lookup key (insert key value rest) ≡ some value
  lookup-insert_self key value rest = simp (lookup-insert, eq_refl)

  pub lookup-erase :
      (key other : String) (rest : Map V)
      → lookup other (erase key rest) ≡ (if key == other then none else lookup other rest)
  unfolding lookup erase
  lookup-erase key other [] = ground arith
  lookup-erase key other ((name, held) ∷ rest) =
      ground
        (arith, eq_iff key other, eq_iff name key, eq_iff name other, lookup-erase key other rest)

  pub lookup-erase_self : (key : String) (rest : Map V) → lookup key (erase key rest) ≡ none
  lookup-erase_self key rest = simp (lookup-erase, eq_refl)

-- `list.includes(x)`
unfoldable pub includes : String → List String → Bool
includes x [] = false
includes x (y ∷ ys) = if y == x then true else includes x ys

pub ruleset map_laws = (lookup-insert, lookup-erase, lookup-insert_self, lookup-erase_self, eq_refl)
