-- ===== src/PeerConnectionManager/Tests.antt =====
-- frame/libs/peerConnectionManager.ts: runs of the manager with two peers in one room.
pub mod Messages
use frame_oldbackend_public.Prelude.{
  true, false, ◌≡◌, refl, ◌++◌, none, some, List, [], ◌∷◌, arith, not_empty,
}
use frame_oldbackend_public.Prelude.Counters.{pos}
use frame_oldbackend_public.Prelude.Maps.{lookup, includes}
use frame_oldbackend_public.Prelude.Entries.{Entries}
use frame_oldbackend_public.Types.{Guid, Peer, PeerCounter, Room}
use frame_oldbackend_public.Types.Commands.{RequestMessage}
use frame_oldbackend_public.State.{State, done, new_state, state_of}
use frame_oldbackend_public.SignalRouter.Servers.{ServerPool, get_server}
use frame_oldbackend_public.SignalRouter.Regions.{resolve_region}
use frame_oldbackend_public.SignalRouter.Router.{
  Router, new_router, get_ingress, get_egress, get_movement,
}
use frame_oldbackend_public.PeerConnectionManager.Peers.{find_transport, new_peer}
use frame_oldbackend_public.PeerConnectionManager.Counts.{zero_counter}
use frame_oldbackend_public.PeerConnectionManager.Joining.{join_room}
use frame_oldbackend_public.PeerConnectionManager.Leaving.{leave_room}
use frame_oldbackend_public.PeerConnectionManager.Disconnect.{disconnect_peer_websocket, drop_route}
use frame_oldbackend_public.PeerConnectionManager.Command.{
  Event, on_command, on_server_close, on_timer, handle_all, command,
}
use frame_oldbackend_public.PeerConnectionManager.Agreement.{command-Agrees}
use frame_oldbackend_public.PeerConnectionManager.Agreement.Rooms.{Agrees}
use frame_oldbackend_public.SignalRouter.Close.{on_close}
use frame_oldbackend_public.PeerConnectionManager.Invariant.Base.{Inv}
use frame_oldbackend_public.PeerConnectionManager.Invariant.{handle_all-Inv}
use frame_oldbackend_public.PeerConnectionManager.DropRoute.{IsOffRoute, drop_route-clears}
use frame_oldbackend_public.PeerConnectionManager.Entrance.{join_room-joins}
use frame_oldbackend_public.PeerConnectionManager.Departure.{
  outside, without_peer, IsClosedOrKept, leave_room-leaves,
}
use frame_oldbackend_public.PeerConnectionManager.Disconnection.{
  IsLeftBehind, disconnect_peer_websocket-removes,
}
use frame_oldbackend_public.PeerConnectionManager.Stale.{leave_room-disconnect_peer_websocket}

abbrev servers : Guid → ServerPool
servers id = record {
  servers = (id, 1) ∷ [];
  regions = ("us-east-1", id ∷ []) ∷ [];
  load = ("us-east-1", (id, 3) ∷ []) ∷ [];
}

abbrev router : Router
router = record new_router {
  ingress = servers "i1";
  egress = servers "e1";
  movement = servers "m1";
}

-- Two clients, and both in the room "lounge" with their ingress transports.
abbrev pub ready : State
ready = record new_state { router = router }

abbrev arrivals : List Event
arrivals =
    on_command "p1" "w1" (RequestMessage.request_identity "JFK50-P1")
    ∷ on_command "p2" "w2" (RequestMessage.request_identity "JFK50-P1")
    ∷ on_command "" "w1" (RequestMessage.join_room "p1" "lounge")
    ∷ on_command "" "w2" (RequestMessage.join_room "p2" "lounge")
    ∷ on_command "" "w1" (RequestMessage.create_ingress_transport "p1" "{}" "{}")
    ∷ on_command "" "w2" (RequestMessage.create_ingress_transport "p2" "{}" "{}")
    ∷ []

ready-Inv : Inv ready
ready-Inv = record { peers = tt; distinct = tt; rooms = tt; counts = tt }

-- One client closes its websocket, the egress server goes down, and the other one tries to join.
abbrev departures : List Event
departures =
    on_command "" "w1" (RequestMessage.disconnect_peer_websocket "w1")
    ∷ on_server_close 1
    ∷ on_command "" "w2" (RequestMessage.join_room "p2" "hall")
    ∷ on_timer 0
    ∷ []

handle_all-Inv_example : Inv (state_of (handle_all (arrivals ++ departures) ready))
handle_all-Inv_example = handle_all-Inv (arrivals ++ departures) ready ready-Inv

abbrev peer_1 : Peer
peer_1 = new_peer "p1" "w1" "JFK50-P1"

abbrev peer_2 : Peer
peer_2 = record (new_peer "p2" "w2" "JFK50-P1") {
  room = some "lounge";
  ingress = some "i1";
  egress = some "e1";
  movement = some "m1";
}

abbrev lounge : Room
lounge = record { ingress = "i1" ∷ []; egress = "e1" ∷ []; movement = "m1" ∷ [] }

abbrev one_in_lobby : PeerCounter
one_in_lobby = record zero_counter { lobby_count = pos 1; peer_count = pos 1 }

-- The first peer is in no room, the second one in the lobby of the lounge.
abbrev half_full : State
half_full = record ready {
  peers = ("p1", peer_1) ∷ ("p2", peer_2) ∷ [];
  rooms = ("lounge", lounge) ∷ [];
  peer_count = ("lounge", one_in_lobby) ∷ [];
}

join_room-joins_example :
    (s' : State) × (joined : Room) × (join_room "p1" "lounge" half_full ≡ done s')
    × (lookup "p1" s'.peers
        ≡ some (record peer_1 {
          room = some "lounge";
          ingress = some "i1";
          egress = some "e1";
          movement = some "m1";
        }))
    × (lookup "lounge" s'.rooms ≡ some joined)
    × (lookup "lounge" s'.router.routing_table ≡ some joined)
    × (includes "i1" joined.ingress ≡ true)
    × (includes "e1" joined.egress ≡ true)
unfolding get_ingress get_egress get_movement get_server resolve_region lookup
join_room-joins_example =
    join_room-joins "p1" "lounge" "lounge" half_full peer_1 "i1" "e1" (some "m1") refl refl refl
      refl (not_empty "i1" refl) (not_empty "e1" refl)

-- No load of an ingress server is left in us-east-1, though a server is on record.
abbrev unserved : State
unserved = record half_full {
  router = record router { ingress = record (servers "i1") { load = ("us-east-1", []) ∷ [] } };
}

-- Both peers are in the lounge, the second one as a participant.
abbrev pub guest : Peer
guest = record peer_1 {
  room = some "lounge";
  ingress = some "i1";
  egress = some "e1";
  movement = some "m1";
}

abbrev pub host : Peer
host = record peer_2 { is_participant = true; is_lobby = false }

abbrev counts : PeerCounter
counts = record zero_counter { lobby_count = pos 1; peer_count = pos 2; participant_count = pos 1 }

abbrev pub full : State
full = record ready {
  peers = ("p1", guest) ∷ ("p2", host) ∷ [];
  rooms = ("lounge", lounge) ∷ [];
  peer_count = ("lounge", counts) ∷ [];
}

pub full-Inv : Inv full
unfolding lookup
full-Inv = record {
  peers = (
    record { named = refl; outside = λ h. ground arith },
    (record { named = refl; outside = λ h. ground arith }, tt),
  );
  distinct = (refl, (refl, tt));
  rooms = (record { ingress = ground arith; egress = ground arith }, tt);
  counts = (tt, tt);
}

leave_room-leaves_example :
    (s' : State) × (leave_room "p1" "lounge" full ≡ done s')
    × (lookup "p1" s'.peers ≡ some (outside guest))
    × IsClosedOrKept "lounge" guest lounge (without_peer guest counts) s'
unfolding lookup
leave_room-leaves_example = leave_room-leaves "p1" "lounge" full guest lounge counts refl refl refl

disconnect_peer_websocket-removes_example :
    (s' : State) × (disconnect_peer_websocket "w2" full ≡ done s')
    × (lookup "p1" s'.peers ≡ some guest)
    × IsLeftBehind "lounge" "p2" lounge one_in_lobby full s'
unfolding lookup find_transport
disconnect_peer_websocket-removes_example =
    disconnect_peer_websocket-removes "w2" full host "lounge" lounge counts "p1"
      (not_empty "w2" refl) refl refl (not_empty "lounge" refl) refl refl (refl, (refl, tt))

leave_room-disconnect_peer_websocket_example :
    (s1 : State) × (s2 : State) × (leave_room "p1" "lounge" full ≡ done s1)
    × (disconnect_peer_websocket "w1" s1 ≡ done s2)
    × (lookup "p1" s2.peers ≡ some (outside guest))
unfolding lookup find_transport
leave_room-disconnect_peer_websocket_example =
    leave_room-disconnect_peer_websocket "p1" "lounge" full guest lounge counts full-Inv
      (not_empty "w1" refl) refl refl refl refl

-- The egress server of the lounge goes away.
abbrev dropped : State
dropped = state_of (drop_route "e1" full)

drop_route-clears_example : Entries (IsOffRoute "e1") dropped.rooms × (dropped.router ≡ router)
unfolding drop_route
drop_route-clears_example = drop_route-clears "e1" full dropped refl

-- The lounge is in the routing table as well; the movement server has a connection of its own.
abbrev routed : State
routed = record full {
  router = record router {
    movement = record (servers "m1") { servers = ("m1", 3) ∷ [] };
    routing_table = ("lounge", lounge) ∷ [];
  };
}

routed-Agrees : Agrees routed
unfolding lookup
routed-Agrees = record { routed = (refl, tt); distinct = (refl, tt) }

command-Agrees_example : Agrees (command "" "w1" (RequestMessage.leave_room "p1" "lounge") routed).0
command-Agrees_example =
    command-Agrees "" "w1" (RequestMessage.leave_room "p1" "lounge") routed routed-Agrees

-- The movement server closes: the lounge is still on record, but is in the routing table no more.
movement_close :
    (lookup "lounge" (state_of (on_close drop_route 3 routed)).rooms ≡ some lounge)
    × (lookup "lounge" (state_of (on_close drop_route 3 routed)).router.routing_table ≡ none)
unfolding on_close drop_route lookup
movement_close = (refl, refl)
