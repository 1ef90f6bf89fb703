-- ===== src/PeerConnectionManager/Disconnect.antt =====
-- frame/libs/peerConnectionManager.ts: `disconnectPeerWebsocket`, `bootUser`, `dropRoute`.
use frame_oldbackend_public.Prelude.{
  String, Bool, true, not, ◌&&◌, ◌||◌, Option, none, some, List, [], ◌∷◌, ◌==◌, opt_eq,
  if◌then◌else◌,
}
use frame_oldbackend_public.Prelude.Counters.{is_positive}
use frame_oldbackend_public.Prelude.Maps.{Map, lookup, insert, erase, keys, values, includes}
use frame_oldbackend_public.Types.{
  Guid, Peer, PeerCounter, Room, Effect, disconnect_transport, destroy_router_group,
  peer_disconnect, boot_user, reset_default_slide, update_last_visited,
}
use frame_oldbackend_public.State.{State, done, thrown, Action, ◌>>◌, modify, emit}
use frame_oldbackend_public.SignalRouter.Requests.{close_ingress_transport, close_room}
use frame_oldbackend_public.PeerConnectionManager.Peers.{
  send_signal, with_peer, find_transport, for_peers,
}
use frame_oldbackend_public.PeerConnectionManager.Counts.{
  set_count, send_peer_count, count_departure,
}
use frame_oldbackend_public.PeerConnectionManager.Leaving.{
  close_each_egress, delete_room, delete_count,
}

abbrev pub delete_peer : Guid → State → State
delete_peer id s = record s { peers = erase id s.peers }

-- `onLastPeerDisconnect`
unfoldable pub on_last_peer_disconnect : String → List Effect
on_last_peer_disconnect room = reset_default_slide room ∷ update_last_visited room ∷ []

-- Whether the last loop counts and tells a peer.
abbrev pub is_left_in : String → Peer → Bool
is_left_in room peer = not (peer.id == "") && opt_eq peer.room (some room)

unfoldable pub is_empty_room : String → List Peer → Bool
is_empty_room room [] = true
is_empty_room room (peer ∷ peers) = not (is_left_in room peer) && is_empty_room room peers

-- The room has no peer left: it is deleted, and the media servers close it.
unfoldable pub close_empty_room : String → State → State
unfolding erase close_room
close_empty_room room s =
    let s1 = delete_room room (delete_count room s) in
    emit (close_room s1.router "api" (destroy_router_group (some room)) (some room)) s1

-- The peers of the room are told, and an empty room is closed.
unfoldable pub announce_disconnect : Guid → String → State → State
unfolding for_peers send_signal is_empty_room close_empty_room
announce_disconnect id room s =
    let s1 =
      emit
        (for_peers (is_left_in room)
          (λ other. send_signal s other.transport_signal (peer_disconnect id)) (values s.peers))
        s in
    if is_empty_room room (values s.peers) then close_empty_room room s1 else s1

-- The peer is taken off the counter and deleted.
unfoldable pub uncount_peer : Peer → String → PeerCounter → State → State
unfolding insert erase count_departure on_last_peer_disconnect send_peer_count
uncount_peer peer room count s =
    let count' = count_departure peer count in
    let last = if is_positive count'.participant_count then [] else on_last_peer_disconnect room in
    delete_peer peer.id (send_peer_count (some peer.id) room (set_count room count' (emit last s)))

-- A room without a counter throws.
unfoldable pub disconnect_counted : Peer → String → Action
unfolding lookup uncount_peer announce_disconnect
disconnect_counted peer room s = elim (lookup room s.peer_count) [
  | none ↦ thrown s
  | some count ↦ done (announce_disconnect peer.id room (uncount_peer peer room count s))
]

unfoldable pub disconnect_from : Guid → Peer → String → Action
unfolding lookup erase close_each_egress disconnect_counted
disconnect_from transport peer room s = elim (lookup room s.rooms) [
  | none ↦ done (delete_peer peer.id s)
  | some room_data ↦ disconnect_counted peer room (
      emit (close_each_egress s.router transport (disconnect_transport peer.id) room_data.egress) s)
]

-- A peer that is in no room is not deleted.
abbrev pub disconnect_room : Guid → Peer → Option String → Action
disconnect_room transport peer none s = done s
disconnect_room transport peer (some room) s =
    if room == "" then done s else disconnect_from transport peer room s

unfoldable pub disconnect_peer : Guid → Peer → Action
unfolding close_ingress_transport disconnect_from
disconnect_peer transport peer s = disconnect_room transport peer peer.room (
    emit (close_ingress_transport s.router transport (disconnect_transport peer.id) peer.ingress) s)

-- `disconnectPeerWebsocket`
unfoldable pub disconnect_peer_websocket : Guid → Action
unfolding find_transport disconnect_peer
disconnect_peer_websocket transport s =
    if transport == "" then done s else elim (find_transport transport (values s.peers)) [
      | none ↦ done s
      | some peer ↦ disconnect_peer transport peer s
    ]

unfoldable pub boot_peer : Guid → Action
unfolding lookup send_signal disconnect_peer_websocket
boot_peer peer_id = with_peer peer_id λ peer s.
    disconnect_peer_websocket peer.transport_signal
      (emit (send_signal s peer.transport_signal (boot_user peer_id)) s)

-- Whether a peer is served by the route.
abbrev pub is_on_route : Guid → Peer → Bool
is_on_route route_id peer =
    opt_eq peer.egress (some route_id) || opt_eq peer.ingress (some route_id)

-- The loop of `dropRoute` over the ids of the peers, as they are when it begins: a peer that the
-- loop deletes is not met again.
unfoldable pub drop_peers : Guid → List Guid → Action
unfolding lookup disconnect_peer_websocket
drop_peers route_id [] s = done s
drop_peers route_id (id ∷ ids) s =
    let rest = drop_peers route_id ids in
    elim (lookup id s.peers) [
      | none ↦ rest s
      | some peer ↦
          if is_on_route route_id peer
          then (disconnect_peer_websocket peer.transport_signal >> rest) s
          else rest s
    ]

unfoldable pub drop_rooms : Guid → Map Room → Map Room
unfolding includes
drop_rooms route_id [] = []
drop_rooms route_id ((name, room) ∷ rooms) =
    let rest = drop_rooms route_id rooms in
    if includes route_id room.egress || includes route_id room.ingress
    then rest
    else (name, room) ∷ rest

-- `dropRoute`
unfoldable pub drop_route : Guid → Action
unfolding drop_peers drop_rooms
drop_route route_id s =
    (drop_peers route_id (keys s.peers)
        >> modify (λ s'. record s' { rooms = drop_rooms route_id s'.rooms }))
      s
