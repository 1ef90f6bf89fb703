-- ===== src/Movement/Tests.antt =====
-- frame/webapp/core/movementProtocol.ts: runs with numbers that are their own encodings.
use frame_oldbackend_public.Prelude.{
  ℕ, true, false, ◌≡◌, refl, inl, some, none, [], ◌∷◌, ◌%◌, arith,
}
use frame_oldbackend_public.Movement.Fields.{
  full_packet, frequent, base_pos_x, head_pos_x, head_pos_y, head_pos_z, left_hand_pos_x,
  left_hand_pos_y, part, bit,
}
use frame_oldbackend_public.Movement.Transport.{
  Floats, Transport, MovementFrame, has_bit, set_movement, add_full_packet, tick,
}
use frame_oldbackend_public.Movement.Json.{movement_to_json, avatar}
use frame_oldbackend_public.Movement.Layout.{position}
use frame_oldbackend_public.Movement.Reading.{AreRead, set_movement-AreRead}
use frame_oldbackend_public.Movement.RoundTrip.{avatar_frame, tick-avatar_frame, set_movement-twice}
use frame_oldbackend_public.Movement.Clearing.{tick-zero}
use frame_oldbackend_public.Movement.Timer.{
  Sender, start_sending, stop_sending, is_sending, fire, stop_sending-start_sending,
}

modulo_twice : (v : ℕ) → v % 65536 % 65536 ≡ v % 65536
modulo_twice v = omega arith

-- Naturals that are cut to the width of the field.
abbrev naturals : Floats
naturals = record {
  Float = ℕ;
  fround = λ v. v % 4294967296;
  f16round = λ v. v % 65536;
  float32_bits = λ v. v % 4294967296;
  float16_bits = λ v. v % 65536;
  float32 = λ n. n;
  float16 = λ n. n;
  float32_bound = λ v. omega arith;
  float16_bound = λ v. omega arith;
  float32_law = λ v. refl;
  float16_law = modulo_twice;
}

abbrev idle : Transport
idle = record { input_header = 0; send_packet = λ i. 7 }

abbrev hand_frame : MovementFrame naturals
hand_frame = (base_pos_x, some 70000) ∷ (left_hand_pos_x, some 5) ∷ (left_hand_pos_y, none) ∷ []

set_movement-AreRead_example :
    AreRead naturals hand_frame (set_movement naturals hand_frame idle).send_packet
unfolding position
set_movement-AreRead_example =
    set_movement-AreRead naturals hand_frame idle
      ((ground arith, (ground arith, tt)), ((ground arith, tt), (tt, tt)))

abbrev avatar_set : Transport
avatar_set = set_movement naturals (avatar_frame naturals 1 2 3 4 5 6 7 8 9 10 11) idle

tick-avatar_frame_example :
    ((tick false avatar_set).1 ≡ (36, avatar_set.send_packet) ∷ [])
    × (movement_to_json naturals (36, avatar_set.send_packet)
        ≡ some
            (avatar false (1 ∷ 2 ∷ 3 ∷ []) (5 ∷ 6 ∷ 7 ∷ 4 ∷ []) (9 ∷ 10 ∷ 11 ∷ 8 ∷ []) none ∷ []))
tick-avatar_frame_example = tick-avatar_frame naturals 1 2 3 4 5 6 7 8 9 10 11 idle.send_packet

-- A frame of an avatar with the position of its head is not sent.
unsent_head :
    (tick false (
      set_movement naturals
        ((head_pos_x, some 12)
          ∷ (head_pos_y, some 13)
          ∷ (head_pos_z, some 14)
          ∷ avatar_frame naturals 1 2 3 4 5 6 7 8 9 10 11)
        idle)).1
    ≡ []
unfolding set_movement tick
unsent_head = refl

-- The header of `hand_frame`, with the fullPacket bit.
abbrev hand_set : Transport
hand_set = record { input_header = 1041; send_packet = λ i. 0 }

set_movement-twice_example :
    ((set_movement naturals hand_frame hand_set).input_header ≡ 2065)
    × (has_bit (set_movement naturals hand_frame hand_set).input_header full_packet ≡ false)
    × (has_bit (set_movement naturals hand_frame hand_set).input_header frequent ≡ true)
    × ((tick false (set_movement naturals hand_frame hand_set)).1 ≡ [])
unfolding part bit add_full_packet
set_movement-twice_example =
    set_movement-twice naturals hand_frame hand_set 17 (omega arith) (inl refl) refl
      (refl, (refl, tt))

tick-zero_example :
    ((tick false avatar_set).0.send_packet 16 ≡ 0) × ((tick false avatar_set).0.input_header ≡ 0)
tick-zero_example = tick-zero false avatar_set 16 (omega arith)

-- An earlier timer is still set.
abbrev stopped_before : Sender
stopped_before = record {
  transport = avatar_set;
  timer_id = some 3;
  timers = 2 ∷ [];
  next_timer = 4;
}

stop_sending-start_sending_example :
    ((stop_sending (start_sending stopped_before)).timers ≡ 2 ∷ [])
    × (fire false 4 (stop_sending (start_sending stopped_before))
        ≡ (stop_sending (start_sending stopped_before), []))
    × (is_sending (stop_sending (start_sending stopped_before)) ≡ true)
stop_sending-start_sending_example =
    stop_sending-start_sending false stopped_before (omega arith, tt)
