-- ===== src/Avatar/Sending.antt =====
-- frame/webapp/core/avatar.ts, `participate`: the two functions that it installs as `sendMovement`.
pub mod Changes
mod Tests
use frame_oldbackend_public.Prelude.{
  ℕ, zero, suc, Bool, true, false, ◌&&◌, List, [], ◌∷◌, ◌++◌, nat_eq, if◌then◌else◌,
}
use frame_oldbackend_public.Prelude.Lists.{length}
use frame_oldbackend_public.Avatar.Packets.{Buffer}

-- `equal`: the lengths, then byte by byte.
unfoldable pub equal : Buffer → Buffer → Bool
equal [] [] = true
equal [] (y ∷ ys) = false
equal (x ∷ xs) [] = false
equal (x ∷ xs) (y ∷ ys) = nat_eq x y && equal xs ys

-- `new ArrayBuffer(n)`
abbrev pub new_buffer : ℕ → Buffer
new_buffer zero = []
new_buffer (suc n) = 0 ∷ new_buffer n

-- `currentMovement`, `movementChannelClosedWarning`, and what was sent.
pub record Outgoing : Type 0 where
  pub current_movement : Buffer
  pub warned : Bool
  pub sent : List Buffer

abbrev pub new_outgoing : Bool → Outgoing
new_outgoing warned = record { current_movement = new_buffer 148; warned = warned; sent = [] }

-- The copy of what was sent. A buffer of another length is made anew, and stays zero.
abbrev pub keep_movement : Buffer → Outgoing → Outgoing
keep_movement movement o = record o {
  current_movement =
      if nat_eq (length o.current_movement) (length movement)
      then movement
      else new_buffer (length movement);
}

-- To the regional movement server, whose websocket is open or not.
unfoldable pub send_regional : Bool → Buffer → Outgoing → Outgoing
unfolding equal
send_regional is_open movement o =
    if equal o.current_movement movement
    then o
    else if is_open
    then keep_movement movement (record o { sent = o.sent ++ (movement ∷ []) })
    else if o.warned
    then o
    else keep_movement movement (record o { warned = true })

-- Through the data channel of the movement producer.
unfoldable pub send_data_channel : Bool → Buffer → Outgoing → Outgoing
send_data_channel is_open movement o =
    if is_open
    then record o { sent = o.sent ++ (movement ∷ []); warned = false }
    else record o { warned = true }

-- Several movements, while the websocket stays open.
unfoldable pub send_all : List Buffer → Outgoing → Outgoing
unfolding send_regional
send_all [] o = o
send_all (movement ∷ movements) o = send_all movements (send_regional true movement o)
