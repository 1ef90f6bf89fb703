-- ===== src/Session/Farewell.antt =====
-- A client leaves a room, the api server tells the others, and they close what they have of it.
use frame_oldbackend_public.Prelude.{String, true, some, List, [], ◌∷◌, ◌≡◌, refl, ◌≢◌, inl, inr}
use frame_oldbackend_public.Prelude.Lists.{length, drop, drop-append, IsIn}
use frame_oldbackend_public.Prelude.Maps.{lookup}
use frame_oldbackend_public.Types.{Guid, Json, Peer, PeerCounter, Room, Communication, ipc_send}
use frame_oldbackend_public.Types.Commands.{RequestMessage}
use frame_oldbackend_public.State.{State, Outcome, done, thrown, state_of}
use frame_oldbackend_public.PeerConnectionManager.Command.{dispatch, caught, command}
use frame_oldbackend_public.PeerConnectionManager.Invariant.Base.{Inv}
use frame_oldbackend_public.PeerConnectionManager.Leaving.{announce_leave, leave_room}
use frame_oldbackend_public.PeerConnectionManager.Told.{announce_leave-exact}
use frame_oldbackend_public.PeerConnectionManager.Told.Sends.{IsSent}
use frame_oldbackend_public.Avatar.State.{Consumer, Avatar}
use frame_oldbackend_public.Avatar.Leaving.{Page, left, leave_frame}
use frame_oldbackend_public.Session.Messages.{
  requests_in, replies_to, serve, deliver, replies_to-IsIn,
}
use frame_oldbackend_public.Session.Leaving.{leave_frame-requests, leave_room-told}
use frame_oldbackend_public.Session.Parting.{IsHeard, IsParted, deliver-parts}

IsSent-IsIn : {A : Type 0} (e : A) (xs : List A) → IsSent e xs → IsIn e xs
IsSent-IsIn e [] h = elim h [ ]
IsSent-IsIn e (x ∷ xs) (inl same) = inl same
IsSent-IsIn e (x ∷ xs) (inr h) = inr (IsSent-IsIn e xs h)

pub caught-state_of : (ws : Guid) (o : Outcome) → (caught ws o).0 ≡ state_of o
caught-state_of ws (done s) = refl
caught-state_of ws (thrown s) = refl

serve-leave_room :
    (uuid ws id : Guid) (room : String) (s : State)
    → serve uuid ws (RequestMessage.leave_room id room ∷ []) s ≡ state_of (leave_room id room s)
unfolding serve command dispatch
serve-leave_room uuid ws id room s = caught-state_of ws (leave_room id room s)

-- The peer that is left in the room is told.
serve-told :
    (uuid ws id other : Guid) (room : String) (s : State) (peer q : Peer) (held : Room)
    → Inv s
    → s.has_ipc ≡ true
    → lookup id s.peers ≡ some peer
    → lookup room s.rooms ≡ some held
    → lookup other s.peers ≡ some q
    → q.room ≡ some room
    → other ≢ id
    → let s' = serve uuid ws (RequestMessage.leave_room id room ∷ []) s in
      IsIn
        (Communication.peer_disconnect id)
        (replies_to q.transport_signal (drop (length s.trace) s'.trace))
serve-told uuid ws id other room s peer q held v ipc found in_rooms found_other inside apart =
    let message = ipc_send q.transport_signal (Communication.peer_disconnect id) in
    let exact = announce_leave-exact s room id message v ipc in
    let sent = exact.1 (other, q, found_other, inside, apart, refl) in
    let told =
      leave_room-told id room s peer held message found in_rooms
        (IsSent-IsIn message (announce_leave s room id) sent) in
    let (effects, whole, among) = told in
    rw
      (serve-leave_room uuid ws id room s, whole, drop-append s.trace effects (length s.trace) refl)
      (replies_to-IsIn q.transport_signal (Communication.peer_disconnect id) effects among)

-- A client whose websocket is open leaves a room that the api server has on record, and nothing
-- throws; the server, in a state with the invariant and in a process with a channel, serves what the
-- client sends; the client of another peer of the room, which has a movement consumer of the one that
-- left, takes what the server sends for its websocket. Then every consumer that it had of that peer is
-- closed, and it has none in the lists of movement, frame events and screens.
pub leave_frame-parts :
    (encode : PeerCounter → Json) (uuid ws other : Guid) (room : String) (page : Page)
    (a b : Avatar) (s : State) (peer q : Peer) (held : Room) (watcher : Avatar) (c : Consumer)
    → leave_frame room page a ≡ left b
    → a.websocket_ready ≡ true
    → Inv s
    → s.has_ipc ≡ true
    → lookup a.avatar_id s.peers ≡ some peer
    → lookup room s.rooms ≡ some held
    → lookup other s.peers ≡ some q
    → q.room ≡ some room
    → other ≢ a.avatar_id
    → IsHeard a.avatar_id c watcher
    → let s' = serve uuid ws (requests_in (drop (length a.trace) b.trace)) s in
      let replies = replies_to q.transport_signal (drop (length s.trace) s'.trace) in
      IsParted a.avatar_id c (deliver encode replies watcher)
leave_frame-parts encode uuid ws other room page a b s peer q held watcher c e open_ready v ipc
      found in_rooms found_other inside apart heard =
    let told =
      serve-told uuid ws a.avatar_id other room s peer q held v ipc found in_rooms found_other
        inside apart in
    rw (leave_frame-requests room page a b e open_ready)
      (deliver-parts encode _ a.avatar_id other c watcher apart told heard)
