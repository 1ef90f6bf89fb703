-- ===== src/Movement/Reading.antt =====
-- frame/webapp/core/movementProtocol.ts: what a packet says of a field after it was written.
use frame_oldbackend_public.Prelude.{
  ℕ, true, false, ◌≡◌, refl, ◌≢◌, ◌⊎◌, inl, inr, ◌+◌, ◌≤◌, ◌<◌, arith, if◌then◌else◌, Bool-cases,
  none, some, [], ◌∷◌, ap, ◌∙◌,
}
use frame_oldbackend_public.Movement.Fields.{Field, address, is_base_pos}
use frame_oldbackend_public.Movement.Transport.{
  Floats, Packet, set_16, set_32, get_16, get_32, write_field, Transport, MovementFrame, set_fields,
  add_full_packet, set_movement,
}
use frame_oldbackend_public.Movement.Layout.{
  position, width, address_above, fields-IsApart, get_16-set_16,
}

get_32-set_32 : (o bits : ℕ) (p : Packet) → bits < 4294967296 → get_32 o (set_32 o bits p) ≡ bits
get_32-set_32 o bits p h = ground arith

-- Ranges of two or four bytes that do not overlap.
abbrev Apart : ℕ → ℕ → ℕ → ℕ → Type 0
Apart a n b k = (a + n ≤ b) ⊎ (b + k ≤ a)

-- The number that a packet holds for a field.
abbrev read_field : (fl : Floats) → Field → Packet → fl.Float
read_field fl field packet =
    if is_base_pos field
    then fl.float32 (get_32 (address field) packet)
    else fl.float16 (get_16 (address field) packet)

-- The number as the packet can hold it.
abbrev pub rounded : (fl : Floats) → Field → fl.Float → fl.Float
rounded fl field v = if is_base_pos field then fl.fround v else fl.f16round v

read_field-write_field :
    (fl : Floats) (f : Field) (v : fl.Float) (p : Packet)
    → read_field fl f (write_field fl f v p) ≡ rounded fl f v
unfolding write_field
read_field-write_field fl f v p = elim (Bool-cases (is_base_pos f)) [
  | inl e ↦
      rw e (
        rw (get_32-set_32 (address f) (fl.float32_bits v) p (fl.float32_bound v))
          (fl.float32_law v))
  | inr e ↦ rw e (
      rw
        (get_16-set_16 (address f) (fl.float16_bits (fl.f16round v)) p
          (fl.float16_bound (fl.f16round v)))
        (fl.float16_law v))
]

byte-set_16 : (o i bits : ℕ) (p : Packet) → (i < o) ⊎ (o + 2 ≤ i) → set_16 o bits p i ≡ p i
byte-set_16 o i bits p h = ground arith

byte-set_32 : (o i bits : ℕ) (p : Packet) → (i < o) ⊎ (o + 4 ≤ i) → set_32 o bits p i ≡ p i
byte-set_32 o i bits p h = ground arith

-- Every byte of a range that is apart from a write is as before.
byte-write_field :
    (fl : Floats) (f : Field) (v : fl.Float) (p : Packet) (i : ℕ)
    → (i < address f) ⊎ (address f + width f ≤ i)
    → write_field fl f v p i ≡ p i
unfolding write_field
byte-write_field fl f v p i h = elim (Bool-cases (is_base_pos f)) [
  | inl e ↦ rw e (byte-set_32 (address f) i (fl.float32_bits v) p (rw e at h))
  | inr e ↦ rw e (byte-set_16 (address f) i (fl.float16_bits (fl.f16round v)) p (rw e at h))
]

-- A write to another field, or to the header, leaves a field as it was.
read_field-same :
    (fl : Floats) (f : Field) (p q : Packet)
    → ((i : ℕ) → address f ≤ i → i < address f + width f → q i ≡ p i)
    → read_field fl f q ≡ read_field fl f p
read_field-same fl f p q same = elim (Bool-cases (is_base_pos f)) [
  | inl e ↦ rw e (ap fl.float32 (four same e))
  | inr e ↦ rw e (ap fl.float16 (two same e))
]
  where
    four :
        ((i : ℕ) → address f ≤ i → i < address f + width f → q i ≡ p i)
        → is_base_pos f ≡ true
        → get_32 (address f) q ≡ get_32 (address f) p
    four h e =
        rw
          (
            h (address f) (omega arith) (rw e omega arith),
            h (address f + 1) (omega arith) (rw e omega arith),
            h (address f + 2) (omega arith) (rw e omega arith),
            h (address f + 2 + 1) (omega arith) (rw e omega arith),
          )
          refl

    two :
        ((i : ℕ) → address f ≤ i → i < address f + width f → q i ≡ p i)
        → is_base_pos f ≡ false
        → get_16 (address f) q ≡ get_16 (address f) p
    two h e =
        rw
          (
            h (address f) (omega arith) (rw e omega arith),
            h (address f + 1) (omega arith) (rw e omega arith),
          )
          refl

read_field-write_apart :
    (fl : Floats) (f g : Field) (v : fl.Float) (p : Packet)
    → position f ≢ position g
    → read_field fl f (write_field fl g v p) ≡ read_field fl f p
read_field-write_apart fl f g v p different =
    read_field-same fl f p (write_field fl g v p)
      λ i low high. byte-write_field fl g v p i (ground (arith, fields-IsApart f g different))

read_field-set_header :
    (fl : Floats) (f : Field) (header : ℕ) (p : Packet)
    → read_field fl f (set_16 0 header p) ≡ read_field fl f p
read_field-set_header fl f header p =
    read_field-same fl f p (set_16 0 header p)
      λ i low high. byte-set_16 0 i header p (inr (ground (arith, address_above f)))

-- The field is not among those of the frame.
abbrev IsAbsent : (fl : Floats) → Field → MovementFrame fl → Type 0
IsAbsent fl f [] = Unit
IsAbsent fl f ((g, _) ∷ frame) = (position f ≢ position g) × IsAbsent fl f frame

-- No field stands twice in the frame.
abbrev pub HasDistinctFields : (fl : Floats) → MovementFrame fl → Type 0
HasDistinctFields fl [] = Unit
HasDistinctFields fl ((f, _) ∷ frame) = IsAbsent fl f frame × HasDistinctFields fl frame

-- Every field that the frame defines is in the packet, rounded.
abbrev pub AreRead : (fl : Floats) → MovementFrame fl → Packet → Type 0
AreRead fl [] p = Unit
AreRead fl ((f, none) ∷ frame) p = AreRead fl frame p
AreRead fl ((f, some v) ∷ frame) p = (read_field fl f p ≡ rounded fl f v) × AreRead fl frame p

set_fields-absent :
    (fl : Floats) (f : Field) (frame : MovementFrame fl) (t : Transport)
    → IsAbsent fl f frame
    → read_field fl f (set_fields fl frame t).send_packet ≡ read_field fl f t.send_packet
unfolding set_fields
set_fields-absent fl f [] t absent = refl
set_fields-absent fl f ((g, none) ∷ frame) t absent = set_fields-absent fl f frame t absent.1
set_fields-absent fl f ((g, some v) ∷ frame) t absent =
    set_fields-absent fl f frame _ absent.1 ∙ read_field-write_apart fl f g v t.send_packet absent.0

set_fields-AreRead :
    (fl : Floats) (frame : MovementFrame fl) (t : Transport)
    → HasDistinctFields fl frame
    → AreRead fl frame (set_fields fl frame t).send_packet
unfolding set_fields
set_fields-AreRead fl [] t distinct = tt
set_fields-AreRead fl ((f, none) ∷ frame) t distinct = set_fields-AreRead fl frame t distinct.1
set_fields-AreRead fl ((f, some v) ∷ frame) t distinct = (
  set_fields-absent fl f frame _ distinct.0 ∙ read_field-write_field fl f v t.send_packet,
  set_fields-AreRead fl frame _ distinct.1,
)

AreRead-header :
    (fl : Floats) (frame : MovementFrame fl) (header : ℕ) (p : Packet)
    → AreRead fl frame p
    → AreRead fl frame (set_16 0 header p)
AreRead-header fl [] header p h = tt
AreRead-header fl ((f, none) ∷ frame) header p h = AreRead-header fl frame header p h
AreRead-header fl ((f, some v) ∷ frame) header p h =
    (read_field-set_header fl f header p ∙ h.0, AreRead-header fl frame header p h.1)

-- After a frame in which no field stands twice was set, the packet holds every field that the frame
-- defines, rounded to the size of the field, whatever the packet held before.
pub set_movement-AreRead :
    (fl : Floats) (frame : MovementFrame fl) (t : Transport)
    → HasDistinctFields fl frame
    → AreRead fl frame (set_movement fl frame t).send_packet
unfolding set_movement
set_movement-AreRead fl frame t distinct =
    AreRead-header fl frame (add_full_packet (set_fields fl frame t).input_header)
      (set_fields fl frame t).send_packet (set_fields-AreRead fl frame t distinct)
