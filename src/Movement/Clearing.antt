-- ===== src/Movement/Clearing.antt =====
-- frame/webapp/core/movementProtocol.ts, `clearBuffer`: it leaves no byte behind.
use frame_oldbackend_public.Prelude.{
  ℕ, zero, suc, Bool, true, false, ◌&&◌, ◌||◌, ◌≡◌, refl, ◌⊎◌, inl, inr, List, [], ◌∷◌, ◌+◌, ◌≤◌,
  ◌<◌, arith, ltb, leb, nat_eq, Bool-cases,
}
use frame_oldbackend_public.Movement.Fields.{Field, address, is_base_pos}
use frame_oldbackend_public.Movement.Transport.{
  Packet, Transport, set_16, set_32, cleared_fields, clear_field, clear_fields, clear_buffer, tick,
}
use frame_oldbackend_public.Movement.Layout.{width}

abbrev lies_in : Field → ℕ → Bool
lies_in f i = leb (address f) i && ltb i (address f + width f)

unfoldable covers : List Field → ℕ → Bool
unfolding address is_base_pos
covers [] i = false
covers (f ∷ fs) i = lies_in f i || covers fs i

set_16-zero : (o i : ℕ) (p : Packet) → (p i ≡ 0) ⊎ ((o ≤ i) × (i < o + 2)) → set_16 o 0 p i ≡ 0
set_16-zero o i p h = ground arith

set_32-zero : (o i : ℕ) (p : Packet) → (p i ≡ 0) ⊎ ((o ≤ i) × (i < o + 4)) → set_32 o 0 p i ≡ 0
set_32-zero o i p h = ground arith

clear_field-zero :
    (f : Field) (i : ℕ) (p : Packet) → (p i ≡ 0) ⊎ (lies_in f i ≡ true) → clear_field f p i ≡ 0
unfolding clear_field
clear_field-zero f i p h = elim (Bool-cases (is_base_pos f)) [
  | inl e ↦ rw e (set_32-zero (address f) i p (ground arith))
  | inr e ↦ rw e (set_16-zero (address f) i p (ground arith))
]

clear_fields-zero :
    (fs : List Field) (i : ℕ) (p : Packet)
    → (p i ≡ 0) ⊎ (covers fs i ≡ true)
    → clear_fields fs p i ≡ 0
unfolding clear_fields covers
clear_fields-zero [] i p h = ground arith
clear_fields-zero (f ∷ fs) i p h = elim (Bool-cases (lies_in f i)) [
  | inl e ↦ clear_fields-zero fs i (clear_field f p) (inl (clear_field-zero f i p (inr e)))
  | inr e ↦ elim h [
    | inl z ↦ clear_fields-zero fs i (clear_field f p) (inl (clear_field-zero f i p (inl z)))
    | inr c ↦ clear_fields-zero fs i (clear_field f p) (inr (ground arith))
  ]
]

-- A test holds of every number below a bound.
unfoldable all_below : ℕ → (ℕ → Bool) → Bool
all_below zero test = true
all_below (suc n) test = test n && all_below n test

all_below-at : (n i : ℕ) (test : ℕ → Bool) → all_below n test ≡ true → i < n → test i ≡ true
unfolding all_below
all_below-at zero i test h below = ground arith
all_below-at (suc n) i test h below = elim (Bool-cases (nat_eq i n)) [
  | inl e ↦ let same : i ≡ n = ground arith in rw same (ground arith)
  | inr e ↦ all_below-at n i test (ground arith) (ground arith)
]

all_covered : all_below 78 (λ i. ltb i 2 || covers cleared_fields i) ≡ true
unfolding all_below covers
all_covered = refl

within : (i : ℕ) → i < 78 → (p : Packet) → (set_16 0 0 p i ≡ 0) ⊎ (covers cleared_fields i ≡ true)
within i below p = elim (Bool-cases (ltb i 2)) [
  | inl e ↦ inl (set_16-zero 0 i p (ground arith))
  | inr e ↦
      inr
        (or_right e (all_below-at 78 i (λ j. ltb j 2 || covers cleared_fields j) all_covered below))
]
  where
    or_right : {a b : Bool} → a ≡ false → (a || b) ≡ true → b ≡ true
    or_right {a = true} h k = ground arith
    or_right {a = false} h k = k

-- After the timer has fired, each of the 78 bytes of the packet is zero, and so is the header that
-- the next frames add to.
pub tick-zero :
    (full : Bool) (t : Transport) (i : ℕ)
    → i < 78
    → ((tick full t).0.send_packet i ≡ 0) × ((tick full t).0.input_header ≡ 0)
unfolding tick clear_buffer
tick-zero full t i below = (
  clear_fields-zero cleared_fields i (set_16 0 0 t.send_packet) (within i below t.send_packet),
  refl,
)
