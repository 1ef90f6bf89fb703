-- ===== src/Movement/Transport.antt =====
-- frame/webapp/core/movementProtocol.ts, `MovementTransport`: the packet that is filled by
-- `setMovement` and sent at intervals. A header is its 16 bits as a natural number; a packet gives
-- the byte at each offset.
use frame_oldbackend_public.Prelude.{
  ℕ, Bool, ◌&&◌, ◌||◌, Option, none, some, List, [], ◌∷◌, ◌+◌, ◌*◌, ◌/◌, ◌%◌, ◌<◌, ◌≡◌,
  if◌then◌else◌, nat_eq, ltb, leb,
}
use frame_oldbackend_public.Movement.Fields.{
  Field, part, address, bit, full_packet, is_base_pos, base_pos_x, base_pos_y, base_pos_z,
  base_rot_w, base_rot_x, base_rot_y, base_rot_z, head_pos_x, head_pos_y, head_pos_z, head_rot_w,
  head_rot_x, head_rot_y, head_rot_z, left_hand_pos_x, left_hand_pos_y, left_hand_pos_z,
  left_hand_rot_w, left_hand_rot_x, left_hand_rot_y, left_hand_rot_z, right_hand_pos_x,
  right_hand_pos_y, right_hand_pos_z, right_hand_rot_w, right_hand_rot_x, right_hand_rot_y,
  right_hand_rot_z, game_piece_pos_x, game_piece_pos_y, game_piece_pos_z, game_piece_rot_w,
  game_piece_rot_x, game_piece_rot_y, game_piece_rot_z,
}

-- Numbers and their encodings: `setFloat32` of a DataView, and `f16round` and `setFloat16` of the
-- package float16. What is read of what was written is the number, rounded.
pub record Floats : Type 1 where
  pub Float : Type 0
  pub fround : Float → Float
  pub f16round : Float → Float
  pub float32_bits : Float → ℕ
  pub float16_bits : Float → ℕ
  pub float32 : ℕ → Float
  pub float16 : ℕ → Float
  pub float32_bound : (v : Float) → float32_bits v < 4294967296
  pub float16_bound : (v : Float) → float16_bits v < 65536
  pub float32_law : (v : Float) → float32 (float32_bits v) ≡ fround v
  pub float16_law : (v : Float) → float16 (float16_bits (f16round v)) ≡ f16round v

abbrev pub Packet : Type 0
Packet = ℕ → ℕ

abbrev pub set_byte : ℕ → ℕ → Packet → Packet
set_byte offset b packet i = if nat_eq offset i then b else packet i

-- Little-endian writes of two and four bytes.
abbrev pub set_16 : ℕ → ℕ → Packet → Packet
set_16 offset bits packet =
    set_byte (offset + 1) (bits / 256 % 256) (set_byte offset (bits % 256) packet)

abbrev pub set_32 : ℕ → ℕ → Packet → Packet
set_32 offset bits packet = set_16 (offset + 2) (bits / 65536) (set_16 offset (bits % 65536) packet)

abbrev pub get_16 : ℕ → Packet → ℕ
get_16 offset packet = packet offset + 256 * packet (offset + 1)

abbrev pub get_32 : ℕ → Packet → ℕ
get_32 offset packet = get_16 offset packet + 65536 * get_16 (offset + 2) packet

-- `header & mask`, where `mask` is one bit
abbrev pub has_bit : ℕ → ℕ → Bool
has_bit header mask = nat_eq (header / mask % 2) 1

-- `setInputHeaderBitIdempotently`
unfoldable pub set_bit : ℕ → ℕ → ℕ
set_bit header mask = if has_bit header mask then header else (header + mask) % 65536

pub record Transport : Type 0 where
  pub input_header : ℕ
  pub send_packet : Packet

unfoldable pub write_field : (fl : Floats) → Field → fl.Float → Packet → Packet
unfolding address is_base_pos
write_field fl field v packet =
    if is_base_pos field
    then set_32 (address field) (fl.float32_bits v) packet
    else set_16 (address field) (fl.float16_bits (fl.f16round v)) packet

-- A frame is its properties in order; an undefined one is skipped.
abbrev pub MovementFrame : Floats → Type 0
MovementFrame fl = List (Field × Option fl.Float)

-- The loop of `setMovement`.
unfoldable pub set_fields : (fl : Floats) → MovementFrame fl → Transport → Transport
unfolding set_bit write_field part bit
set_fields fl [] t = t
set_fields fl ((field, none) ∷ frame) t = set_fields fl frame t
set_fields fl ((field, some v) ∷ frame) t = set_fields fl frame (record {
  input_header = set_bit t.input_header (bit (part field));
  send_packet = write_field fl field v t.send_packet;
})

-- The header with the fullPacket bit added where a hand's or the game piece's position is set.
unfoldable pub add_full_packet : ℕ → ℕ
add_full_packet header =
    if has_bit header 16 || has_bit header 64 || has_bit header 256
    then (header + full_packet) % 65536
    else header

unfoldable pub set_movement : (fl : Floats) → MovementFrame fl → Transport → Transport
unfolding set_fields add_full_packet
set_movement fl frame t =
    let t1 = set_fields fl frame t in
    let header = add_full_packet t1.input_header in
    record { input_header = header; send_packet = set_16 0 header t1.send_packet }

-- The fields that `clearBuffer` zeroes after the header, in its order.
abbrev pub cleared_fields : List Field
cleared_fields =
    base_pos_x ∷ base_pos_y ∷ base_pos_z ∷ base_rot_w ∷ base_rot_w ∷ base_rot_x ∷ base_rot_y
    ∷ base_rot_z ∷ head_pos_x ∷ head_pos_y ∷ head_pos_z ∷ head_rot_w ∷ head_rot_x ∷ head_rot_y
    ∷ head_rot_z ∷ left_hand_pos_x ∷ left_hand_pos_y ∷ left_hand_pos_z ∷ left_hand_rot_w
    ∷ left_hand_rot_x ∷ left_hand_rot_y ∷ left_hand_rot_z ∷ right_hand_pos_x ∷ right_hand_pos_y
    ∷ right_hand_pos_z ∷ right_hand_rot_w ∷ right_hand_rot_x ∷ right_hand_rot_y ∷ right_hand_rot_z
    ∷ game_piece_pos_x ∷ game_piece_pos_y ∷ game_piece_pos_z ∷ game_piece_rot_w ∷ game_piece_rot_x
    ∷ game_piece_rot_y ∷ game_piece_rot_z ∷ []

unfoldable pub clear_field : Field → Packet → Packet
unfolding address is_base_pos
clear_field field packet =
    if is_base_pos field then set_32 (address field) 0 packet else set_16 (address field) 0 packet

unfoldable pub clear_fields : List Field → Packet → Packet
unfolding clear_field
clear_fields [] packet = packet
clear_fields (field ∷ fields) packet = clear_fields fields (clear_field field packet)

-- The bits of the float 0.0 are all zero, in either byte order.
unfoldable pub clear_buffer : Packet → Packet
unfolding clear_fields
clear_buffer packet = clear_fields cleared_fields (set_16 0 0 packet)

-- What is sent: the first bytes of the packet, by their number.
abbrev pub Sent : Type 0
Sent = ℕ × Packet

-- `header < 15`, for a header that is read with its sign
abbrev is_small : ℕ → Bool
is_small header = ltb header 15 || leb 32768 header

-- What the timer's callback sends; `full` says whether the page's address asks for full packets.
unfoldable pub to_send : Bool → Packet → List Sent
to_send full packet =
    let header = get_16 0 packet in
    if has_bit header 1 && has_bit header full_packet || full
    then (78, packet) ∷ []
    else if has_bit header 1 && is_small header
    then (36, packet) ∷ []
    else []

-- The callback of `startSendingMovement`.
unfoldable pub tick : Bool → Transport → Transport × List Sent
unfolding to_send clear_buffer
tick full t = (
  record { input_header = 0; send_packet = clear_buffer t.send_packet },
  to_send full t.send_packet,
)
