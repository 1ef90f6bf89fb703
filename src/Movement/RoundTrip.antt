-- ===== src/Movement/RoundTrip.antt =====
-- frame/webapp/core/movementProtocol.ts: what becomes of a frame that is set, sent and read.
use frame_oldbackend_public.Prelude.{
  ℕ, true, false, ◌≡◌, refl, ◌⊎◌, none, some, [], ◌∷◌, arith, ◌∙◌, ◌<◌, ◌+◌, if◌then◌else◌, ap,
}
use frame_oldbackend_public.Movement.Fields.{
  address, is_base_pos, part, bit, full_packet, frequent, base_pos_x, base_pos_y, base_pos_z,
  base_rot_w, base_rot_x, base_rot_y, base_rot_z, head_rot_w, head_rot_x, head_rot_y, head_rot_z,
}
use frame_oldbackend_public.Movement.Transport.{
  Floats, Packet, Transport, MovementFrame, get_16, has_bit, set_bit, set_fields, add_full_packet,
  set_movement, to_send, tick,
}
use frame_oldbackend_public.Movement.Json.{Movement, avatar, movement_to_json, read_avatar}
use frame_oldbackend_public.Movement.Layout.{get_16-set_16, position}
use frame_oldbackend_public.Movement.Reading.{AreRead, HasDistinctFields, set_movement-AreRead}

-- An avatar's frame: where it stands, how it is turned, and how its head is turned.
abbrev pub avatar_frame :
    (fl : Floats) (px py pz bw bx by bz hw hx hy hz : fl.Float) → MovementFrame fl
avatar_frame fl px py pz bw bx by bz hw hx hy hz =
    (base_pos_x, some px)
    ∷ (base_pos_y, some py)
    ∷ (base_pos_z, some pz)
    ∷ (base_rot_w, some bw)
    ∷ (base_rot_x, some bx)
    ∷ (base_rot_y, some by)
    ∷ (base_rot_z, some bz)
    ∷ (head_rot_w, some hw)
    ∷ (head_rot_x, some hx)
    ∷ (head_rot_y, some hy)
    ∷ (head_rot_z, some hz)
    ∷ []

module _ (fl : Floats) (px py pz bw bx by bz hw hx hy hz : fl.Float) where
  abbrev frame : MovementFrame fl
  frame = avatar_frame fl px py pz bw bx by bz hw hx hy hz

  -- What is read of the frame.
  abbrev seen : Movement fl.Float
  seen =
      avatar false (fl.fround px ∷ fl.fround py ∷ fl.fround pz ∷ [])
        (fl.f16round bx ∷ fl.f16round by ∷ fl.f16round bz ∷ fl.f16round bw ∷ [])
        (fl.f16round hx ∷ fl.f16round hy ∷ fl.f16round hz ∷ fl.f16round hw ∷ []) none

  frame-HasDistinctFields : HasDistinctFields fl frame
  unfolding position
  frame-HasDistinctFields = ground arith

  -- The header of the frame is basePos, baseRot and headRot.
  read_avatar-seen : (p : Packet) → AreRead fl frame p → read_avatar fl 11 p ≡ seen
  unfolding read_avatar is_base_pos address
  read_avatar-seen p (r0, (r1, (r2, (r3, (r4, (r5, (r6, (r7, (r8, (r9, (r10, rest))))))))))) =
      rw (r0, r1, r2, r3, r4, r5, r6, r7, r8, r9, r10) refl

-- The fields of an avatar's frame are set where the header was empty, and the timer fires while
-- full packets are not asked for: one packet of 36 bytes is sent, from which the receiver reads
-- one avatar with the numbers of the frame, rounded, that is not frequent and has no game piece.
pub tick-avatar_frame :
    (fl : Floats) (px py pz bw bx by bz hw hx hy hz : fl.Float) (p : Packet)
    → let t =
        set_movement fl
          (avatar_frame fl px py pz bw bx by bz hw hx hy hz)
          (record { input_header = 0; send_packet = p }) in
      ((tick false t).1 ≡ (36, t.send_packet) ∷ [])
      × (movement_to_json fl (36, t.send_packet)
          ≡ some (
              avatar false
                (fl.fround px ∷ fl.fround py ∷ fl.fround pz ∷ [])
                (fl.f16round bx ∷ fl.f16round by ∷ fl.f16round bz ∷ fl.f16round bw ∷ [])
                (fl.f16round hx ∷ fl.f16round hy ∷ fl.f16round hz ∷ fl.f16round hw ∷ [])
                none
              ∷ []))
unfolding set_movement tick movement_to_json
tick-avatar_frame fl px py pz bw bx by bz hw hx hy hz p = (
  refl,
  ap (λ a. some (a ∷ []))
      (read_avatar-seen fl px py pz bw bx by bz hw hx hy hz
        (set_movement fl (avatar_frame fl px py pz bw bx by bz hw hx hy hz)
          (record { input_header = 0; send_packet = p })).send_packet
        (set_movement-AreRead fl (avatar_frame fl px py pz bw bx by bz hw hx hy hz)
          (record { input_header = 0; send_packet = p })
          (frame-HasDistinctFields fl px py pz bw bx by bz hw hx hy hz))),
)

-- The fullPacket bit is added once more: it is carried over into the bit for frequent packets.
add_full_packet-twice :
    (h : ℕ)
    → h < 1024
    → (has_bit h 16 ≡ true) ⊎ ((has_bit h 64 ≡ true) ⊎ (has_bit h 256 ≡ true))
    → add_full_packet (add_full_packet h) ≡ h + 2048
unfolding add_full_packet
add_full_packet-twice h small set = ground arith

-- The parts of the frame's defined fields are in the header already.
abbrev AreSet : (fl : Floats) → MovementFrame fl → ℕ → Type 0
AreSet fl [] header = Unit
AreSet fl ((f, none) ∷ frame) header = AreSet fl frame header
AreSet fl ((f, some v) ∷ frame) header =
    (has_bit header (bit (part f)) ≡ true) × AreSet fl frame header

set_bit_idle : (header mask : ℕ) → has_bit header mask ≡ true → set_bit header mask ≡ header
unfolding set_bit
set_bit_idle header mask h = rw (h, if◌then◌else◌) refl

set_fields-header :
    (fl : Floats) (frame : MovementFrame fl) (t : Transport)
    → AreSet fl frame t.input_header
    → (set_fields fl frame t).input_header ≡ t.input_header
unfolding set_fields
set_fields-header fl [] t h = refl
set_fields-header fl ((f, none) ∷ frame) t h = set_fields-header fl frame t h
set_fields-header fl ((f, some v) ∷ frame) t h =
    let same = set_bit_idle t.input_header (bit (part f)) h.0 in
    set_fields-header fl frame _ (rw same h.1) ∙ same

to_send-frequent : (h : ℕ) (p : Packet) → h < 1024 → get_16 0 p ≡ h + 2048 → to_send false p ≡ []
unfolding to_send
to_send-frequent h p small e = rw (e, to_send) ground arith

-- A hand's or the game piece's position was set, so that the header `h` has got the fullPacket bit.
-- A second frame that defines fields of the same parts is set before the packet is sent: the bit is
-- added again, which takes it away and marks the packet as frequent, and the packet is not sent.
pub set_movement-twice :
    (fl : Floats) (frame : MovementFrame fl) (t : Transport) (h : ℕ)
    → h < 1024
    → (has_bit h 16 ≡ true) ⊎ ((has_bit h 64 ≡ true) ⊎ (has_bit h 256 ≡ true))
    → t.input_header ≡ add_full_packet h
    → AreSet fl frame t.input_header
    → let t' = set_movement fl frame t in
      (t'.input_header ≡ h + 2048)
      × (has_bit t'.input_header full_packet ≡ false)
      × (has_bit t'.input_header frequent ≡ true)
      × ((tick false t').1 ≡ [])
unfolding set_movement tick
set_movement-twice fl frame t h small hands called set =
    let header =
      ap add_full_packet (set_fields-header fl frame t set ∙ called)
      ∙ add_full_packet-twice h small hands in
    (
      header,
      rw header ground arith,
      rw header ground arith,
      to_send-frequent h (set_movement fl frame t).send_packet small
          (get_16-set_16 0 _ (set_fields fl frame t).send_packet (rw header omega arith) ∙ header),
    )
