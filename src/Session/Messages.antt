-- ===== src/Session/Messages.antt =====
-- frame/bin/api.ts, where it forwards the messages between the clients and the process of the peer
-- connection manager; the requests in what avatar.ts does, and what it reads from the replies.
use frame_oldbackend_public.Prelude.{
  List, [], ◌∷◌, ◌++◌, ◌==◌, map, ◌≡◌, refl, ap, inl, inr, arith, eq_iff, if◌then◌else◌,
}
use frame_oldbackend_public.Prelude.Lists.{length, drop, IsIn}
use frame_oldbackend_public.Types.{Guid, Json, PeerCounter, Communication, Effect, ipc_send}
use frame_oldbackend_public.Types.Commands.{RequestMessage}
use frame_oldbackend_public.State.{State}
use frame_oldbackend_public.PeerConnectionManager.Command.{command}
use frame_oldbackend_public.Avatar.State.{ClientEffect, signalled, Avatar}
use frame_oldbackend_public.Avatar.Signals.{Signal, incoming_signal}

-- What a client sends through its websocket.
unfoldable pub requests_in : List ClientEffect → List RequestMessage
requests_in [] = []
requests_in (signalled message ∷ effects) = message ∷ requests_in effects
requests_in (effect ∷ effects) = requests_in effects

-- What the manager's process sends for a websocket.
unfoldable pub replies_to : Guid → List Effect → List Communication
replies_to ws [] = []
replies_to ws (ipc_send wsid communication ∷ effects) =
    let rest = replies_to ws effects in if wsid == ws then communication ∷ rest else rest
replies_to ws (effect ∷ effects) = replies_to ws effects

-- The manager's process takes the requests of a websocket in their order. `uuid` is what uuid4 returns
-- for a request of an identity; a client makes one each time that its websocket opens.
unfoldable pub serve : Guid → Guid → List RequestMessage → State → State
unfolding command
serve uuid ws [] s = s
serve uuid ws (message ∷ messages) s = serve uuid ws messages (command uuid ws message s).0

-- What a client reads from a reply; `encode` is the JSON text of a counter.
unfoldable pub parsed : (PeerCounter → Json) → Communication → Signal
parsed encode (Communication.identity id region) = Signal.identity id
parsed encode (Communication.peer_disconnect peer) = Signal.peer_disconnect peer
parsed encode (Communication.peer_count counts) =
    Signal.peer_count (map (λ c. (c.0, encode c.1)) counts)
parsed encode (Communication.hushed peer_id) = Signal.hushed peer_id
parsed encode (Communication.boot_user peer_id) = Signal.boot_user
parsed encode (Communication.peer_indicators indicators peer_id) =
    Signal.peer_indicators peer_id indicators
parsed encode (Communication.peer_indicators_reply indicators peer_id) =
    Signal.peer_indicators_reply peer_id indicators

-- The client takes the replies in their order.
unfoldable pub deliver : (PeerCounter → Json) → List Communication → Avatar → Avatar
unfolding parsed incoming_signal
deliver encode [] a = a
deliver encode (reply ∷ replies) a =
    deliver encode replies (incoming_signal (parsed encode reply) a)

-- A client does something, the server serves what the client sends for it, and the client takes what
-- the server sends for its websocket. The results are both as they are then.
unfoldable pub exchange :
    (PeerCounter → Json) → Guid → Guid → (Avatar → Avatar) → Avatar → State → Avatar × State
exchange encode uuid ws act a s =
    let b = act a in
    let s' = serve uuid ws (requests_in (drop (length a.trace) b.trace)) s in
    (deliver encode (replies_to ws (drop (length s.trace) s'.trace)) b, s')

pub requests_in-append :
    (xs ys : List ClientEffect) → requests_in (xs ++ ys) ≡ requests_in xs ++ requests_in ys
unfolding requests_in
requests_in-append [] ys = refl
requests_in-append (signalled message ∷ xs) ys = ap (λ l. message ∷ l) (requests_in-append xs ys)
requests_in-append (x ∷ xs) ys = ground (arith, requests_in-append xs ys)

pub replies_to-IsIn :
    (ws : Guid) (communication : Communication) (effects : List Effect)
    → IsIn (ipc_send ws communication) effects
    → IsIn communication (replies_to ws effects)
unfolding replies_to
replies_to-IsIn ws communication [] h = elim h [ ]
replies_to-IsIn ws communication (effect ∷ effects) (inl e) = rw (← e) ground (arith, eq_iff ws ws)
replies_to-IsIn ws communication (effect ∷ effects) (inr h) =
    ground (arith, replies_to-IsIn ws communication effects h)
