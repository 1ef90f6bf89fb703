-- ===== src/Movement/Json.antt =====
-- frame/webapp/core/movementProtocol.ts, `movementToJSON`: what a receiver reads from a packet.
use frame_oldbackend_public.Prelude.{ℕ, Bool, Option, none, some, List, [], ◌∷◌, if◌then◌else◌, leb}
use frame_oldbackend_public.Movement.Fields.{
  Field, address, frequent, base_pos_x, base_pos_y, base_pos_z, base_rot_w, base_rot_x, base_rot_y,
  base_rot_z, head_rot_w, head_rot_x, head_rot_y, head_rot_z, left_hand_pos_x, left_hand_pos_y,
  left_hand_pos_z, left_hand_rot_w, left_hand_rot_x, left_hand_rot_y, left_hand_rot_z,
  right_hand_pos_x, right_hand_pos_y, right_hand_pos_z, right_hand_rot_w, right_hand_rot_x,
  right_hand_rot_y, right_hand_rot_z, game_piece_pos_x, game_piece_pos_y, game_piece_pos_z,
  game_piece_rot_w, game_piece_rot_x, game_piece_rot_y, game_piece_rot_z,
}
use frame_oldbackend_public.Movement.Transport.{Floats, Packet, Sent, get_16, get_32, has_bit}

-- An element of `MovementArray`: the avatar with its game piece, or a hand.
pub data Movement (F : Type 0) : Type 0 where
  avatar :
      (frequent : Bool) (position body_rot rotation : List F)
      (game_piece : Option (List F × List F))
      → Movement F
  left right : (position rotation : List F) → Movement F

-- `getFloat16` and `getFloat32` at the address of a field
abbrev read_16 : (fl : Floats) → Field → Packet → fl.Float
read_16 fl field packet = fl.float16 (get_16 (address field) packet)

abbrev read_32 : (fl : Floats) → Field → Packet → fl.Float
read_32 fl field packet = fl.float32 (get_32 (address field) packet)

unfoldable pub game_piece : (fl : Floats) → Packet → List fl.Float × List fl.Float
unfolding address
game_piece fl packet = (
  read_16 fl game_piece_pos_x packet
      ∷ read_16 fl game_piece_pos_y packet
      ∷ read_16 fl game_piece_pos_z packet
      ∷ [],
  read_16 fl game_piece_rot_x packet
      ∷ read_16 fl game_piece_rot_y packet
      ∷ read_16 fl game_piece_rot_z packet
      ∷ read_16 fl game_piece_rot_w packet
      ∷ [],
)

unfoldable pub read_avatar : (fl : Floats) → ℕ → Packet → Movement fl.Float
unfolding address game_piece
read_avatar fl header packet =
    avatar (has_bit header frequent)
      (read_32 fl base_pos_x packet
        ∷ read_32 fl base_pos_y packet
        ∷ read_32 fl base_pos_z packet
        ∷ [])
      (read_16 fl base_rot_x packet
        ∷ read_16 fl base_rot_y packet
        ∷ read_16 fl base_rot_z packet
        ∷ read_16 fl base_rot_w packet
        ∷ [])
      (read_16 fl head_rot_x packet
        ∷ read_16 fl head_rot_y packet
        ∷ read_16 fl head_rot_z packet
        ∷ read_16 fl head_rot_w packet
        ∷ [])
      (if has_bit header 256 then some (game_piece fl packet) else none)

unfoldable pub read_left : (fl : Floats) → Packet → Movement fl.Float
unfolding address
read_left fl packet =
    left
      (read_16 fl left_hand_pos_x packet
        ∷ read_16 fl left_hand_pos_y packet
        ∷ read_16 fl left_hand_pos_z packet
        ∷ [])
      (read_16 fl left_hand_rot_x packet
        ∷ read_16 fl left_hand_rot_y packet
        ∷ read_16 fl left_hand_rot_z packet
        ∷ read_16 fl left_hand_rot_w packet
        ∷ [])

unfoldable pub read_right : (fl : Floats) → Packet → Movement fl.Float
unfolding address
read_right fl packet =
    right
      (read_16 fl right_hand_pos_x packet
        ∷ read_16 fl right_hand_pos_y packet
        ∷ read_16 fl right_hand_pos_z packet
        ∷ [])
      (read_16 fl right_hand_rot_x packet
        ∷ read_16 fl right_hand_rot_y packet
        ∷ read_16 fl right_hand_rot_z packet
        ∷ read_16 fl right_hand_rot_w packet
        ∷ [])

-- A part of the array that is read if its bit is set; a read past the end of the buffer throws a
-- RangeError. `last` is the end of the last number that is read.
abbrev read_part {ℓ} : {A : Type ℓ} → Bool → ℕ → ℕ → A → Option (List A) → Option (List A)
read_part present length last movement none = none
read_part present length last movement (some rest) =
    if present then (if leb last length then some (movement ∷ rest) else none) else some rest

-- The end of the last number that is read for the avatar.
abbrev avatar_end : ℕ → ℕ
avatar_end header = if has_bit header 256 then 78 else 36

-- `none` stands for a RangeError.
unfoldable pub movement_to_json : (fl : Floats) → Sent → Option (List (Movement fl.Float))
unfolding read_avatar read_left read_right
movement_to_json fl (length, packet) =
    let header = get_16 0 packet in
    if leb 2 length
    then read_part (has_bit header 1) length (avatar_end header) (read_avatar fl header packet) (
        read_part (has_bit header 16) length 50 (read_left fl packet)
          (read_part (has_bit header 64) length 64 (read_right fl packet) (some [])))
    else none
