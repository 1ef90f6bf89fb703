-- ===== src/Movement/Layout.antt =====
-- frame/webapp/core/movementProtocol.ts: where the fields lie in the packet.
use frame_oldbackend_public.Prelude.{
  ℕ, ◌≡◌, refl, ◌≢◌, ◌⊎◌, ◌+◌, ◌*◌, ◌≤◌, ◌<◌, arith, if◌then◌else◌, ltb,
}
use frame_oldbackend_public.Movement.Fields.{
  Field, address, is_base_pos, base_pos_x, base_pos_y, base_pos_z, base_rot_w, base_rot_x,
  base_rot_y, base_rot_z, head_pos_x, head_pos_y, head_pos_z, head_rot_w, head_rot_x, head_rot_y,
  head_rot_z, left_hand_pos_x, left_hand_pos_y, left_hand_pos_z, left_hand_rot_w, left_hand_rot_x,
  left_hand_rot_y, left_hand_rot_z, right_hand_pos_x, right_hand_pos_y, right_hand_pos_z,
  right_hand_rot_w, right_hand_rot_x, right_hand_rot_y, right_hand_rot_z, game_piece_pos_x,
  game_piece_pos_y, game_piece_pos_z, game_piece_rot_w, game_piece_rot_x, game_piece_rot_y,
  game_piece_rot_z,
}
use frame_oldbackend_public.Movement.Transport.{Packet, set_16, get_16}

-- The place of a field in `MovementFrame`.
unfoldable pub position : Field → ℕ
position base_pos_x = 0
position base_pos_y = 1
position base_pos_z = 2
position base_rot_w = 3
position base_rot_x = 4
position base_rot_y = 5
position base_rot_z = 6
position head_pos_x = 7
position head_pos_y = 8
position head_pos_z = 9
position head_rot_w = 10
position head_rot_x = 11
position head_rot_y = 12
position head_rot_z = 13
position left_hand_pos_x = 14
position left_hand_pos_y = 15
position left_hand_pos_z = 16
position left_hand_rot_w = 17
position left_hand_rot_x = 18
position left_hand_rot_y = 19
position left_hand_rot_z = 20
position right_hand_pos_x = 21
position right_hand_pos_y = 22
position right_hand_pos_z = 23
position right_hand_rot_w = 24
position right_hand_rot_x = 25
position right_hand_rot_y = 26
position right_hand_rot_z = 27
position game_piece_pos_x = 28
position game_piece_pos_y = 29
position game_piece_pos_z = 30
position game_piece_rot_w = 31
position game_piece_rot_x = 32
position game_piece_rot_y = 33
position game_piece_rot_z = 34

abbrev start : ℕ → ℕ
start n = if ltb n 3 then 2 + 4 * n else 8 + 2 * n

address-position : (f : Field) → address f ≡ start (position f)
unfolding address position
address-position base_pos_x = refl
address-position base_pos_y = refl
address-position base_pos_z = refl
address-position base_rot_w = refl
address-position base_rot_x = refl
address-position base_rot_y = refl
address-position base_rot_z = refl
address-position head_pos_x = refl
address-position head_pos_y = refl
address-position head_pos_z = refl
address-position head_rot_w = refl
address-position head_rot_x = refl
address-position head_rot_y = refl
address-position head_rot_z = refl
address-position left_hand_pos_x = refl
address-position left_hand_pos_y = refl
address-position left_hand_pos_z = refl
address-position left_hand_rot_w = refl
address-position left_hand_rot_x = refl
address-position left_hand_rot_y = refl
address-position left_hand_rot_z = refl
address-position right_hand_pos_x = refl
address-position right_hand_pos_y = refl
address-position right_hand_pos_z = refl
address-position right_hand_rot_w = refl
address-position right_hand_rot_x = refl
address-position right_hand_rot_y = refl
address-position right_hand_rot_z = refl
address-position game_piece_pos_x = refl
address-position game_piece_pos_y = refl
address-position game_piece_pos_z = refl
address-position game_piece_rot_w = refl
address-position game_piece_rot_x = refl
address-position game_piece_rot_y = refl
address-position game_piece_rot_z = refl

is_base_pos-position : (f : Field) → is_base_pos f ≡ ltb (position f) 3
unfolding is_base_pos position
is_base_pos-position base_pos_x = refl
is_base_pos-position base_pos_y = refl
is_base_pos-position base_pos_z = refl
is_base_pos-position base_rot_w = refl
is_base_pos-position base_rot_x = refl
is_base_pos-position base_rot_y = refl
is_base_pos-position base_rot_z = refl
is_base_pos-position head_pos_x = refl
is_base_pos-position head_pos_y = refl
is_base_pos-position head_pos_z = refl
is_base_pos-position head_rot_w = refl
is_base_pos-position head_rot_x = refl
is_base_pos-position head_rot_y = refl
is_base_pos-position head_rot_z = refl
is_base_pos-position left_hand_pos_x = refl
is_base_pos-position left_hand_pos_y = refl
is_base_pos-position left_hand_pos_z = refl
is_base_pos-position left_hand_rot_w = refl
is_base_pos-position left_hand_rot_x = refl
is_base_pos-position left_hand_rot_y = refl
is_base_pos-position left_hand_rot_z = refl
is_base_pos-position right_hand_pos_x = refl
is_base_pos-position right_hand_pos_y = refl
is_base_pos-position right_hand_pos_z = refl
is_base_pos-position right_hand_rot_w = refl
is_base_pos-position right_hand_rot_x = refl
is_base_pos-position right_hand_rot_y = refl
is_base_pos-position right_hand_rot_z = refl
is_base_pos-position game_piece_pos_x = refl
is_base_pos-position game_piece_pos_y = refl
is_base_pos-position game_piece_pos_z = refl
is_base_pos-position game_piece_rot_w = refl
is_base_pos-position game_piece_rot_x = refl
is_base_pos-position game_piece_rot_y = refl
is_base_pos-position game_piece_rot_z = refl

position-below : (f : Field) → position f < 35
unfolding position
position-below base_pos_x = omega arith
position-below base_pos_y = omega arith
position-below base_pos_z = omega arith
position-below base_rot_w = omega arith
position-below base_rot_x = omega arith
position-below base_rot_y = omega arith
position-below base_rot_z = omega arith
position-below head_pos_x = omega arith
position-below head_pos_y = omega arith
position-below head_pos_z = omega arith
position-below head_rot_w = omega arith
position-below head_rot_x = omega arith
position-below head_rot_y = omega arith
position-below head_rot_z = omega arith
position-below left_hand_pos_x = omega arith
position-below left_hand_pos_y = omega arith
position-below left_hand_pos_z = omega arith
position-below left_hand_rot_w = omega arith
position-below left_hand_rot_x = omega arith
position-below left_hand_rot_y = omega arith
position-below left_hand_rot_z = omega arith
position-below right_hand_pos_x = omega arith
position-below right_hand_pos_y = omega arith
position-below right_hand_pos_z = omega arith
position-below right_hand_rot_w = omega arith
position-below right_hand_rot_x = omega arith
position-below right_hand_rot_y = omega arith
position-below right_hand_rot_z = omega arith
position-below game_piece_pos_x = omega arith
position-below game_piece_pos_y = omega arith
position-below game_piece_pos_z = omega arith
position-below game_piece_rot_w = omega arith
position-below game_piece_rot_x = omega arith
position-below game_piece_rot_y = omega arith
position-below game_piece_rot_z = omega arith

pub address_above : (f : Field) → 2 ≤ address f
address_above f = rw (address-position f) ground arith

-- The number of bytes of a field.
abbrev pub width : Field → ℕ
width f = if is_base_pos f then 4 else 2

-- Of two fields at different places of the frame, the first lies behind the header and within the
-- 78 bytes of the packet, and the two do not overlap.
pub fields-IsApart :
    (f g : Field)
    → position f ≢ position g
    → (2 ≤ address f)
      × (address f + width f ≤ 78)
      × ((address f + width f ≤ address g) ⊎ (address g + width g ≤ address f))
fields-IsApart f g different =
    rw (address-position f, address-position g, is_base_pos-position f, is_base_pos-position g)
      ground (arith, position-below f, position-below g)

pub get_16-set_16 : (o bits : ℕ) (p : Packet) → bits < 65536 → get_16 o (set_16 o bits p) ≡ bits
get_16-set_16 o bits p h = ground arith

pub get_16-set_16_apart :
    (a o bits : ℕ) (p : Packet)
    → (o + 2 ≤ a) ⊎ (a + 2 ≤ o)
    → get_16 a (set_16 o bits p) ≡ get_16 a p
get_16-set_16_apart a o bits p h = ground arith
