-- ===== src/Prelude/Timers.antt =====
-- The timers that are set, by their identities: `clearTimeout`, and whether a timer is still set.
use frame_oldbackend_public.Prelude.Tests.{nat_eq, if◌then◌else◌}
use Prim.Native.Nat.{ℕ, suc, ◌<◌}
use mathlib.Core.Path.{◌≡◌, refl}
use mathlib.Core.Bool.{Bool, false, ◌||◌}
use mathlib.Core.List.{List, [], ◌∷◌}
use native.Mathlib.Omega.{arith}

unfoldable pub without_timer : ℕ → List ℕ → List ℕ
without_timer t [] = []
without_timer t (x ∷ xs) = let rest = without_timer t xs in if nat_eq x t then rest else x ∷ rest

unfoldable pub is_set : ℕ → List ℕ → Bool
is_set t [] = false
is_set t (x ∷ xs) = nat_eq x t || is_set t xs

-- Every timer that is set is older than the next one.
abbrev pub AreOld : ℕ → List ℕ → Type 0
AreOld next [] = Unit
AreOld next (t ∷ ts) = (t < next) × AreOld next ts

pub without_timer-old :
    (t : ℕ) (timers : List ℕ) → AreOld t timers → without_timer t timers ≡ timers
unfolding without_timer
without_timer-old t [] old = refl
without_timer-old t (u ∷ us) old = ground (arith, without_timer-old t us old.1)

pub AreOld-suc : (n : ℕ) (ts : List ℕ) → AreOld n ts → AreOld (suc n) ts
AreOld-suc n [] h = tt
AreOld-suc n (t ∷ ts) h = (omega arith, AreOld-suc n ts h.1)

pub is_set-old : (t : ℕ) (timers : List ℕ) → AreOld t timers → is_set t timers ≡ false
unfolding is_set
is_set-old t [] old = refl
is_set-old t (u ∷ us) old = ground (arith, is_set-old t us old.1)
