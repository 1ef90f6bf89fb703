-- ===== src/Avatar/Packets.antt =====
-- frame/webapp/core/avatar.ts, `updatePeerMovement`: the buffer of a movement server is taken apart
-- into one packet for each peer.
pub mod Uuid
pub mod Ending
pub mod Joined
pub mod Delivered
use Prim.Native.Char.{Char}
use frame_oldbackend_public.Prelude.{
  ℕ, zero, suc, ◌+◌, ◌-◌, ◌*◌, ◌/◌, ◌%◌, String, Bool, Option, none, some, List, [], ◌∷◌,
  if◌then◌else◌, nat_eq, ltb,
}
use frame_oldbackend_public.Prelude.Maps.{Map, insert}
use frame_oldbackend_public.Prelude.Lists.{length, take, drop, get_or}
use frame_oldbackend_public.Types.{Guid}
use frame_oldbackend_public.Movement.Fields.{full_packet}
use frame_oldbackend_public.Movement.Transport.{Floats, Sent, has_bit}
use frame_oldbackend_public.Movement.Json.{Movement, movement_to_json}

-- An ArrayBuffer: its bytes.
abbrev pub Buffer : Type 0
Buffer = List ℕ

-- `buffer.slice(start, end)`
abbrev pub slice : ℕ → ℕ → Buffer → Buffer
slice start end buffer = take (end - start) (drop start buffer)

char_at : ℕ → String → Char
char_at i String.[] = "0"
char_at zero (String.◌∷◌ c s) = c
char_at (suc i) (String.◌∷◌ c s) = char_at i s

unfoldable pub hex_digit : ℕ → Char
unfolding char_at
hex_digit n = char_at n "0123456789abcdef"

-- The two digits of a byte, before a text: `byte.toString(16).padStart(2, "0")`.
unfoldable pub byte_to_hex : ℕ → String → String
byte_to_hex byte rest = String.◌∷◌ (hex_digit (byte / 16)) (String.◌∷◌ (hex_digit (byte % 16)) rest)

unfoldable pub hex : Buffer → String → String
unfolding byte_to_hex
hex [] rest = rest
hex (byte ∷ bytes) rest = byte_to_hex byte (hex bytes rest)

abbrev dash : String → String
dash s = String.◌∷◌ "-" s

-- `none` stands for the Error that is thrown for a buffer that is not of 16 bytes.
unfoldable pub array_buffer_to_uuid : Buffer → Option Guid
unfolding hex
array_buffer_to_uuid buffer =
    if nat_eq (length buffer) 16
    then some (
        hex (slice 0 4 buffer) (
          dash (
            hex (slice 4 6 buffer) (
              dash (
                hex (slice 6 8 buffer)
                  (dash (hex (slice 8 10 buffer) (dash (hex (slice 10 16 buffer) String.[])))))))))
    else none

abbrev pub uuid_size : ℕ
uuid_size = 16

abbrev pub full_packet_size : ℕ
full_packet_size = 78

abbrev pub short_packet_size : ℕ
short_packet_size = 36

-- The size of the packet that begins with these bytes, by its header: `getUint16(offset, true)`.
unfoldable pub packet_size : Buffer → ℕ
packet_size buffer =
    if has_bit (get_or buffer 0 0 + 256 * get_or buffer 1 0) full_packet
    then full_packet_size
    else short_packet_size

-- What the loop comes to: the map, an exception, or the end of the fuel.
pub data Unpacked : Type 0 where
  unpacked : Map Buffer → Unpacked
  thrown : Unpacked
  out_of_fuel : Unpacked

-- A round of the loop, with `again` for the rounds after it. `rest` are the bytes from `offset` on. An
-- incomplete uuid or header throws; an incomplete movement state is logged, and taken as it is.
unfoldable pub unpack_one : (Buffer → Map Buffer → Unpacked) → Buffer → Map Buffer → Unpacked
unfolding array_buffer_to_uuid packet_size
unpack_one again rest movement_state = elim (array_buffer_to_uuid (slice 0 uuid_size rest)) [
  | none ↦ thrown
  | some uuid ↦
      let after = drop uuid_size rest in
      if ltb (length after) 2
      then thrown
      else again (drop (packet_size after) after)
          (insert uuid (slice 0 (packet_size after) after) movement_state)
]

unfoldable pub unpack : ℕ → Buffer → Map Buffer → Unpacked
unfolding unpack_one
unpack fuel [] movement_state = unpacked movement_state
unpack zero (byte ∷ bytes) movement_state = out_of_fuel
unpack (suc fuel) (byte ∷ bytes) movement_state =
    unpack_one (unpack fuel) (byte ∷ bytes) movement_state

-- Every round takes a byte at least.
unfoldable pub packed_binary_to_map : Buffer → Unpacked
unfolding unpack
packed_binary_to_map packed_binary = unpack (length packed_binary) packed_binary []

-- A packet as `movementToJSON` reads it.
abbrev pub view : Buffer → Sent
view buffer = (length buffer, λ i. get_or buffer i 0)

-- The calls of the handler, in order. One packet that cannot be read ends the loop.
unfoldable pub hand_over : (fl : Floats) → Map Buffer → List (Guid × List (Movement fl.Float))
unfolding movement_to_json
hand_over fl [] = []
hand_over fl ((peer_id, packet) ∷ rest) = elim (movement_to_json fl (view packet)) [
  | none ↦ []
  | some movement ↦ (peer_id, movement) ∷ hand_over fl rest
]

-- The calls of `peerMovementHandler`; `handled` says whether it is set. What is thrown is caught.
unfoldable pub update_peer_movement :
    (fl : Floats) → Bool → Buffer → List (Guid × List (Movement fl.Float))
unfolding packed_binary_to_map hand_over
update_peer_movement fl handled packed = elim (packed_binary_to_map packed) [
  | unpacked movement_state ↦ if handled then hand_over fl movement_state else []
  | thrown ↦ []
  | out_of_fuel ↦ []
]
