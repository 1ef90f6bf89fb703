-- ===== src/Avatar/Sending/Tests.antt =====
-- frame/webapp/core/avatar.ts, `participate`: movements that are sent, and one that is not.
use frame_oldbackend_public.Prelude.{true, false, List, [], ◌∷◌, ◌++◌, ◌≡◌, refl, arith}
use frame_oldbackend_public.Avatar.Packets.{Buffer}
use frame_oldbackend_public.Avatar.Sending.{Outgoing, equal, send_regional, send_all}
use frame_oldbackend_public.Avatar.Sending.Changes.{Changes, send_all-Changes, send_regional-lost}

-- The last movement, of two bytes.
abbrev standing : Outgoing
standing = record { current_movement = 1 ∷ 2 ∷ []; warned = false; sent = [] }

abbrev three_movements : List Buffer
three_movements = (1 ∷ 2 ∷ []) ∷ (3 ∷ 4 ∷ []) ∷ (3 ∷ 4 ∷ []) ∷ []

send_all-Changes_example :
    (sent : List Buffer) × Changes (1 ∷ 2 ∷ []) three_movements sent
    × ((send_all three_movements standing).sent ≡ standing.sent ++ sent)
send_all-Changes_example = send_all-Changes three_movements standing (refl, (refl, (refl, tt)))

three_movements_sent : (send_all three_movements standing).sent ≡ (3 ∷ 4 ∷ []) ∷ []
unfolding send_all send_regional equal
three_movements_sent = refl

send_regional-lost_example :
    let o' = send_regional false (3 ∷ 4 ∷ []) standing in
    (o'.sent ≡ []) × (send_regional true (3 ∷ 4 ∷ []) o' ≡ o')
send_regional-lost_example = send_regional-lost (3 ∷ 4 ∷ []) standing refl (λ e. ground arith) refl
