-- ===== src/PeerConnectionManager/Joining.antt =====
-- frame/libs/peerConnectionManager.ts, `joinRoom`. A peer's object is shared with the map of
-- peers, so its room is set also where the call then returns or throws. A room's object is shared
-- by `rooms` and the routing table, and is changed only on the way to being stored in both.
use frame_oldbackend_public.Prelude.{
  String, Bool, not, ◌&&◌, Option, none, some, List, [], ◌∷◌, ◌++◌, ◌==◌, opt_eq, if◌then◌else◌,
}
use frame_oldbackend_public.Prelude.Maps.{lookup, insert, values, includes}
use frame_oldbackend_public.Types.{Guid, Peer, Room, Effect}
use frame_oldbackend_public.State.{State, done, thrown, Action, emit}
use frame_oldbackend_public.SignalRouter.Servers.{Result, ok, throws, or_default}
use frame_oldbackend_public.SignalRouter.Router.{
  Router, empty_room, set_route, get_ingress, get_egress, get_movement,
}
use frame_oldbackend_public.SignalRouter.Requests.{request_join}
use frame_oldbackend_public.PeerConnectionManager.Peers.{set_peer, with_peer, for_peers}

-- `joiningRoom.egress.forEach(…)`
unfoldable pub join_egress : Router → String → Guid → List Guid → List Effect
unfolding request_join
join_egress r room ws [] = []
join_egress r room ws (id ∷ ids) =
    request_join r room ws "egress" (some id) ++ join_egress r room ws ids

-- A text that is defined and not empty.
abbrev pub defined : Option String → Option String
defined none = none
defined (some a) = if a == "" then none else some a

-- `if (!list.includes(id)) list.push(id)`
unfoldable pub push_new : Guid → List Guid → List Guid
unfolding includes
push_new id ids = if includes id ids then ids else ids ++ id ∷ []

-- What the selected movement server adds: to the writes, the peer and the room.
abbrev join_movement : State → String → Peer → Option Guid → List Effect
join_movement s room peer none = []
join_movement s room peer (some id) =
    request_join s.router room peer.transport_signal "movement" (some id)

-- The peer with its servers; its movement server stays if none is selected.
unfoldable pub joined_peer : Option Guid → Guid → Guid → Peer → Peer
joined_peer none ingress egress peer = record peer { ingress = some ingress; egress = some egress }
joined_peer (some id) ingress egress peer = record peer {
  movement = some id;
  ingress = some ingress;
  egress = some egress;
}

abbrev room_movement : Option Guid → List Guid → List Guid
room_movement none ids = ids
room_movement (some id) ids = push_new id ids

-- Whether a peer has to be told of a new egress server of the room.
abbrev needs_egress : String → Guid → Peer → Bool
needs_egress room egress peer =
    opt_eq peer.room (some room) && not (opt_eq peer.egress (some egress))

-- If the egress server is new in the room, the peers of the room and the joining one join it.
unfoldable pub join_new_egress : State → String → Peer → Guid → List Guid → List Effect
unfolding includes for_peers request_join
join_new_egress s room peer egress ids =
    if includes egress ids
    then []
    else for_peers (needs_egress room egress)
        (λ other. request_join s.router room other.transport_signal "egress" (some egress))
        (values s.peers)
      ++ request_join s.router room peer.transport_signal "egress" (some egress)

-- The servers are selected: `ingress` and `egress` are defined.
unfoldable pub join_servers :
    Guid → String → Peer → Room → Guid → Guid → Option Guid → State → State
unfolding request_join push_new insert joined_peer join_new_egress set_route
join_servers peer_id room peer joining ingress egress movement s =
    let joined = joined_peer movement ingress egress peer in
    let s1 = set_peer peer_id joined (
      emit
        (request_join s.router room peer.transport_signal "ingress" (some ingress)
          ++ join_movement s room peer movement)
        s) in
    let joined_room = record joining {
      movement = room_movement movement joining.movement;
      ingress = push_new ingress joining.ingress;
      egress = push_new egress joining.egress;
    } in
    let s2 = emit (join_new_egress s1 room joined egress joining.egress) s1 in
    record s2 {
      rooms = insert room joined_room s2.rooms;
      router = set_route room joined_room s2.router;
    }

-- Without an ingress or an egress server the peer does not join.
abbrev pub join_selected :
    Guid → String → Peer → Room → Option Guid → Option Guid → Option Guid → Action
join_selected peer_id room peer joining none egress movement s = done s
join_selected peer_id room peer joining (some ingress) none movement s = done s
join_selected peer_id room peer joining (some ingress) (some egress) movement s =
    done (join_servers peer_id room peer joining ingress egress movement s)

-- The selection of a server throws where no load is left in a region that has servers on record.
abbrev pub selecting : Result (Option Guid) → (Option Guid → Action) → Action
selecting throws f s = thrown s
selecting (ok server) f s = f (defined server) s

unfoldable pub join_peer : Guid → String → Peer → Room → Action
unfolding join_egress get_ingress get_egress get_movement join_servers
join_peer peer_id room peer joining s =
    let s' = emit (join_egress s.router room peer.transport_signal joining.egress) s in
    selecting (get_ingress s.router peer.region)
      (λ ingress. selecting (get_egress s.router peer.region) (λ egress.
        selecting (get_movement s.router peer.region)
          (λ movement. join_selected peer_id room peer joining ingress egress movement)))
      s'

-- `joinRoom`
unfoldable pub join_room : Guid → String → Action
unfolding lookup insert join_peer
join_room peer_id room = with_peer peer_id λ peer s.
    let joining_peer = record peer { room = some room } in
    join_peer peer_id room joining_peer (or_default empty_room (lookup room s.rooms))
      (set_peer peer_id joining_peer s)
