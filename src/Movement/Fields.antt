-- ===== src/Movement/Fields.antt =====
-- frame/webapp/core/movementProtocol.ts: the fields of a movement frame, their addresses in the packet,
-- and the bits of the header.
use frame_oldbackend_public.Prelude.{ℕ, Bool, true, false}

-- The names of `PacketHeader` that stand for a part of the frame: a field's name without its axis.
pub data Part : Type 0 where
  base_pos base_rot head_pos head_rot : Part
  left_hand_pos left_hand_rot right_hand_pos right_hand_rot : Part
  game_piece_pos game_piece_rot : Part

-- `MovementFrame`
pub data Field : Type 0 where
  base_pos_x base_pos_y base_pos_z : Field
  base_rot_w base_rot_x base_rot_y base_rot_z : Field
  head_pos_x head_pos_y head_pos_z : Field
  head_rot_w head_rot_x head_rot_y head_rot_z : Field
  left_hand_pos_x left_hand_pos_y left_hand_pos_z : Field
  left_hand_rot_w left_hand_rot_x left_hand_rot_y left_hand_rot_z : Field
  right_hand_pos_x right_hand_pos_y right_hand_pos_z : Field
  right_hand_rot_w right_hand_rot_x right_hand_rot_y right_hand_rot_z : Field
  game_piece_pos_x game_piece_pos_y game_piece_pos_z : Field
  game_piece_rot_w game_piece_rot_x game_piece_rot_y game_piece_rot_z : Field

-- `field.slice(0, -1)`
unfoldable pub part : Field → Part
part base_pos_x = base_pos
part base_pos_y = base_pos
part base_pos_z = base_pos
part base_rot_w = base_rot
part base_rot_x = base_rot
part base_rot_y = base_rot
part base_rot_z = base_rot
part head_pos_x = head_pos
part head_pos_y = head_pos
part head_pos_z = head_pos
part head_rot_w = head_rot
part head_rot_x = head_rot
part head_rot_y = head_rot
part head_rot_z = head_rot
part left_hand_pos_x = left_hand_pos
part left_hand_pos_y = left_hand_pos
part left_hand_pos_z = left_hand_pos
part left_hand_rot_w = left_hand_rot
part left_hand_rot_x = left_hand_rot
part left_hand_rot_y = left_hand_rot
part left_hand_rot_z = left_hand_rot
part right_hand_pos_x = right_hand_pos
part right_hand_pos_y = right_hand_pos
part right_hand_pos_z = right_hand_pos
part right_hand_rot_w = right_hand_rot
part right_hand_rot_x = right_hand_rot
part right_hand_rot_y = right_hand_rot
part right_hand_rot_z = right_hand_rot
part game_piece_pos_x = game_piece_pos
part game_piece_pos_y = game_piece_pos
part game_piece_pos_z = game_piece_pos
part game_piece_rot_w = game_piece_rot
part game_piece_rot_x = game_piece_rot
part game_piece_rot_y = game_piece_rot
part game_piece_rot_z = game_piece_rot

-- `MovementAddress`
unfoldable pub address : Field → ℕ
address base_pos_x = 2
address base_pos_y = 6
address base_pos_z = 10
address base_rot_w = 14
address base_rot_x = 16
address base_rot_y = 18
address base_rot_z = 20
address head_pos_x = 22
address head_pos_y = 24
address head_pos_z = 26
address head_rot_w = 28
address head_rot_x = 30
address head_rot_y = 32
address head_rot_z = 34
address left_hand_pos_x = 36
address left_hand_pos_y = 38
address left_hand_pos_z = 40
address left_hand_rot_w = 42
address left_hand_rot_x = 44
address left_hand_rot_y = 46
address left_hand_rot_z = 48
address right_hand_pos_x = 50
address right_hand_pos_y = 52
address right_hand_pos_z = 54
address right_hand_rot_w = 56
address right_hand_rot_x = 58
address right_hand_rot_y = 60
address right_hand_rot_z = 62
address game_piece_pos_x = 64
address game_piece_pos_y = 66
address game_piece_pos_z = 68
address game_piece_rot_w = 70
address game_piece_rot_x = 72
address game_piece_rot_y = 74
address game_piece_rot_z = 76

-- `PacketHeader`
unfoldable pub bit : Part → ℕ
bit base_pos = 1
bit base_rot = 2
bit head_pos = 4
bit head_rot = 8
bit left_hand_pos = 16
bit left_hand_rot = 32
bit right_hand_pos = 64
bit right_hand_rot = 128
bit game_piece_pos = 256
bit game_piece_rot = 512

abbrev pub full_packet : ℕ
full_packet = 1024

abbrev pub frequent : ℕ
frequent = 2048

-- The fields of the base position are float32, all others float16.
unfoldable pub is_base_pos : Field → Bool
is_base_pos base_pos_x = true
is_base_pos base_pos_y = true
is_base_pos base_pos_z = true
is_base_pos _ = false
