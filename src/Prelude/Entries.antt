-- ===== src/Prelude/Entries.antt =====
-- Predicates on the entries of a map and on lists, by recursion.
use Prim.Native.String.{String}
use mathlib.Core.Path.{◌≡◌, refl}
use mathlib.Core.Option.{none, some}
use mathlib.Core.List.{[], ◌∷◌}
use native.Mathlib.Omega.{arith}
use text.Mathlib.TextEquality.{eq_iff}
use frame_oldbackend_public.Prelude.Maps.{Map, lookup, insert, erase, lookup-insert, lookup-erase}

module _ {ℓ κ} {V : Type ℓ} where
  -- Every entry satisfies `P`.
  abbrev pub Entries : (String → V → Type κ) → Map V → Type κ
  Entries P [] = Unit
  Entries P ((k, v) ∷ m) = P k v × Entries P m

  pub lookup-Entries :
      (P : String → V → Type κ) (k : String) (v : V) (m : Map V)
      → Entries P m
      → lookup k m ≡ some v
      → P k v
  unfolding lookup
  lookup-Entries P k v [] h e = cc
  lookup-Entries P k v ((j, w) ∷ m) h e = ground (arith, eq_iff j k, lookup-Entries P k v m h.1)

  pub insert-Entries :
      (P : String → V → Type κ) (k : String) (v : V) (m : Map V)
      → Entries P m
      → P k v
      → Entries P (insert k v m)
  unfolding insert
  insert-Entries P k v [] h p = (p, tt)
  insert-Entries P k v ((j, w) ∷ m) h p = ground (arith, eq_iff j k, insert-Entries P k v m h.1 p)

  pub erase-Entries :
      (P : String → V → Type κ) (k : String) (m : Map V) → Entries P m → Entries P (erase k m)
  unfolding erase
  erase-Entries P k [] h = tt
  erase-Entries P k ((j, w) ∷ m) h = ground (arith, erase-Entries P k m h.1)

module _ {ℓ} {V : Type ℓ} where
  -- No key stands twice.
  abbrev pub IsDistinct : Map V → Type ℓ
  IsDistinct [] = Unit
  IsDistinct ((k, v) ∷ m) = (lookup k m ≡ none) × IsDistinct m

  pub insert-IsDistinct :
      (k : String) (v : V) (m : Map V) → IsDistinct m → IsDistinct (insert k v m)
  unfolding insert lookup
  insert-IsDistinct k v [] h = (refl, tt)
  insert-IsDistinct k v ((j, w) ∷ m) h =
      ground (arith, eq_iff j k, eq_iff k j, lookup-insert k j v m, insert-IsDistinct k v m h.1)

  pub erase-IsDistinct : (k : String) (m : Map V) → IsDistinct m → IsDistinct (erase k m)
  unfolding erase
  erase-IsDistinct k [] h = tt
  erase-IsDistinct k ((j, w) ∷ m) h =
      ground (arith, eq_iff j k, eq_iff k j, lookup-erase k j m, erase-IsDistinct k m h.1)

pub Entries-imp {ℓ κ ι} :
    {V : Type ℓ} (P : String → V → Type κ) (Q : String → V → Type ι) (m : Map V)
    → ((k : String) (v : V) → P k v → Q k v)
    → Entries P m
    → Entries Q m
Entries-imp P Q [] f h = tt
Entries-imp P Q ((k, v) ∷ m) f h = (f k v h.0, Entries-imp P Q m f h.1)

-- In a map with distinct keys a lookup finds each entry.
pub Entries-lookup {ℓ} :
    {V : Type ℓ} (m : Map V) → IsDistinct m → Entries (λ k v. lookup k m ≡ some v) m
unfolding lookup
Entries-lookup [] h = tt
Entries-lookup ((k, v) ∷ m) h = (
  ground (arith, eq_iff k k),
  Entries-imp (λ j w. lookup j m ≡ some w) (λ j w. lookup j ((k, v) ∷ m) ≡ some w) m
      (λ j w e. ground (arith, eq_iff k j)) (Entries-lookup m h.1),
)
