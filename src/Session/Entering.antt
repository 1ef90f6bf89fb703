-- ===== src/Session/Entering.antt =====
-- A client connects and enters a room: what the api server and the client then know of each other.
use frame_oldbackend_public.Prelude.{
  String, true, Option, some, [], ◌∷◌, ◌≡◌, refl, ◌∙◌, ◌≢◌, inl, inr, arith, eq_iff, Option-cases,
}
use frame_oldbackend_public.Prelude.Lists.{length, drop, drop-append}
use frame_oldbackend_public.Prelude.Maps.{lookup, values, lookup-insert_self}
use frame_oldbackend_public.Types.{Guid, Json, Peer, PeerCounter, Communication}
use frame_oldbackend_public.Types.Commands.{RequestMessage}
use frame_oldbackend_public.State.{State, state_of}
use frame_oldbackend_public.SignalRouter.Servers.{ok}
use frame_oldbackend_public.SignalRouter.Router.{get_ingress, get_egress, get_movement}
use frame_oldbackend_public.PeerConnectionManager.Command.{dispatch, command}
use frame_oldbackend_public.PeerConnectionManager.Peers.{
  send_signal, find_transport, identified, create_peer,
}
use frame_oldbackend_public.PeerConnectionManager.Identity.{
  find_transport-signal, identified-region,
}
use frame_oldbackend_public.PeerConnectionManager.Joining.{join_room}
use frame_oldbackend_public.PeerConnectionManager.Entrance.{join_room-joins}
use frame_oldbackend_public.Avatar.State.{Avatar, send}
use frame_oldbackend_public.Avatar.Signals.{incoming_signal}
use frame_oldbackend_public.Avatar.Participation.{on_websocket_open, enter_frame}
use frame_oldbackend_public.Session.Messages.{
  requests_in, replies_to, serve, parsed, deliver, exchange,
}
use frame_oldbackend_public.Session.Farewell.{caught-state_of}

identified-signal :
    (uuid ws : Guid) (region : String) (s : State)
    → (identified uuid ws region s).transport_signal ≡ ws
unfolding identified
identified-signal uuid ws region s = elim (Option-cases (find_transport ws (values s.peers))) [
  | inl e ↦ rw (identified, e) refl
  | inr (peer, e) ↦ rw (identified, e) (find_transport-signal ws (values s.peers) peer e)
]

-- The client sends one request.
on_websocket_open-requests :
    (region : String) (a : Avatar)
    → requests_in (drop (length a.trace) (on_websocket_open region a).trace)
      ≡ RequestMessage.request_identity region ∷ []
unfolding on_websocket_open send requests_in
on_websocket_open-requests region a = rw (drop-append a.trace _ (length a.trace) refl) refl

enter_frame-requests :
    (room : String) (a : Avatar)
    → a.websocket_ready ≡ true
    → requests_in (drop (length a.trace) (enter_frame room a).trace)
      ≡ RequestMessage.join_room a.avatar_id room ∷ []
unfolding enter_frame send requests_in
enter_frame-requests room a e = rw (e, drop-append a.trace _ (length a.trace) refl) refl

serve-request_identity :
    (uuid ws : Guid) (region : String) (s : State)
    → serve uuid ws (RequestMessage.request_identity region ∷ []) s ≡ create_peer uuid ws region s
unfolding serve command dispatch
serve-request_identity uuid ws region s = refl

-- The server sends one reply.
create_peer-replies :
    (uuid ws : Guid) (region : String) (s : State)
    → s.has_ipc ≡ true
    → replies_to ws (drop (length s.trace) (create_peer uuid ws region s).trace)
      ≡ Communication.identity (identified uuid ws region s).id (identified uuid ws region s).region
        ∷ []
unfolding create_peer send_signal replies_to
create_peer-replies uuid ws region s ipc =
    rw (ipc, drop-append s.trace _ (length s.trace) refl, identified-signal uuid ws region s) ground
      (arith, eq_iff ws ws)

-- The client as it is once it knows its identity.
identified_client : (PeerCounter → Json) → Peer → String → Avatar → Avatar
identified_client encode peer region a =
    incoming_signal (parsed encode (Communication.identity peer.id peer.region))
      (on_websocket_open region a)

exchange-identity :
    (encode : PeerCounter → Json) (uuid ws : Guid) (region : String) (a : Avatar) (s : State)
    → s.has_ipc ≡ true
    → exchange encode uuid ws (on_websocket_open region) a s ≡ (
      identified_client encode (identified uuid ws region s) region a,
      create_peer uuid ws region s,
    )
unfolding exchange deliver identified_client
exchange-identity encode uuid ws region a s ipc =
    rw
      (
        on_websocket_open-requests region a,
        serve-request_identity uuid ws region s,
        create_peer-replies uuid ws region s ipc,
      )
      refl

identified_client-ready :
    (encode : PeerCounter → Json) (peer : Peer) (region : String) (a : Avatar)
    → let b = identified_client encode peer region a in
      (b.avatar_id ≡ peer.id) × (b.websocket_ready ≡ true)
unfolding identified_client incoming_signal parsed on_websocket_open send
identified_client-ready encode peer region a = (refl, refl)

create_peer-found :
    (uuid ws : Guid) (region : String) (s : State)
    → let peer = identified uuid ws region s in
      (lookup peer.id (create_peer uuid ws region s).peers ≡ some peer)
      × ((create_peer uuid ws region s).router ≡ s.router)
unfolding create_peer
create_peer-found uuid ws region s = (
  lookup-insert_self (identified uuid ws region s).id (identified uuid ws region s) s.peers,
  refl,
)

exchange-join_room :
    (encode : PeerCounter → Json) (uuid ws : Guid) (room : String) (a : Avatar) (s : State)
    → a.websocket_ready ≡ true
    → (exchange encode uuid ws (enter_frame room) a s).1 ≡ state_of (join_room a.avatar_id room s)
unfolding exchange serve command dispatch
exchange-join_room encode uuid ws room a s e =
    rw (enter_frame-requests room a e) (caught-state_of ws (join_room a.avatar_id room s))

-- A client's websocket opens, in a process with a channel, and the client then enters a room, each
-- time with what the server serves and answers. If the selections for its region return an ingress
-- and an egress server with ids that are not empty, and do not throw for the movement server, then the
-- server has a peer on record under the id that the client now has; the peer has the client's
-- websocket, and is in the room with the chosen servers.
pub enter_frame-enters :
    (encode : PeerCounter → Json) (uuid uuid' ws : Guid) (region room : String) (a : Avatar)
    (s : State) (i e : Guid) (m : Option Guid)
    → s.has_ipc ≡ true
    → get_ingress s.router region ≡ ok (some i)
    → get_egress s.router region ≡ ok (some e)
    → get_movement s.router region ≡ ok m
    → i ≢ ""
    → e ≢ ""
    → let first = exchange encode uuid ws (on_websocket_open region) a s in
      let second = exchange encode uuid' ws (enter_frame room) first.0 first.1 in
      (peer : Peer) × (lookup first.0.avatar_id second.1.peers ≡ some peer)
      × (peer.transport_signal ≡ ws)
      × (peer.room ≡ some room)
      × (peer.ingress ≡ some i)
      × (peer.egress ≡ some e)
enter_frame-enters encode uuid uuid' ws region room a s i e m ipc chosen_i chosen_e chosen_m named_i
      named_e =
    let peer = identified uuid ws region s in
    let s1 = create_peer uuid ws region s in
    let (id, ready) = identified_client-ready encode peer region a in
    let (found, router) = create_peer-found uuid ws region s in
    let (s2, joined, returns, there, in_rooms, in_table, in_ingress, in_egress) =
      join_room-joins peer.id room room s1 peer i e m found
        (rw (router, identified-region uuid ws region s) chosen_i)
        (rw (router, identified-region uuid ws region s) chosen_e)
        (rw (router, identified-region uuid ws region s) chosen_m) named_i named_e in
    let b = identified_client encode peer region a in
    let served : (exchange encode uuid' ws (enter_frame room) b s1).1 ≡ s2 =
      exchange-join_room encode uuid' ws room b s1 ready ∙ rw (id, returns) refl in
    rw (exchange-identity encode uuid ws region a s ipc, served, id)
      (_, there, identified-signal uuid ws region s, refl, refl, refl)
