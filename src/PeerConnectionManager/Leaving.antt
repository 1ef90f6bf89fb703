-- ===== src/PeerConnectionManager/Leaving.antt =====
-- frame/libs/peerConnectionManager.ts, `leaveRoom`.
use frame_oldbackend_public.Prelude.{
  String, Bool, true, false, ◌&&◌, none, some, List, [], ◌∷◌, ◌++◌, truthy, if◌then◌else◌,
}
use frame_oldbackend_public.Prelude.Counters.{is_zero}
use frame_oldbackend_public.Prelude.Maps.{lookup, insert, erase, values}
use frame_oldbackend_public.Types.{
  Guid, Peer, PeerCounter, MediaMessage, disconnect_transport, destroy_router_group,
  peer_disconnect, Effect,
}
use frame_oldbackend_public.State.{State, done, Action, emit}
use frame_oldbackend_public.SignalRouter.Router.{Router}
use frame_oldbackend_public.SignalRouter.Requests.{
  close_egress_transport, close_ingress_transport, close_room,
}
use frame_oldbackend_public.PeerConnectionManager.Peers.{
  send_signal, set_peer, with_peer, for_peers, is_other_in,
}
use frame_oldbackend_public.PeerConnectionManager.Counts.{
  set_count, send_peer_count, count_departure,
}

-- `room.egress.forEach(egressId => closeEgressTransport(closeTransportSignal, egressId))`
unfoldable pub close_each_egress : Router → Guid → MediaMessage → List Guid → List Effect
unfolding close_egress_transport
close_each_egress r ws message [] = []
close_each_egress r ws message (id ∷ ids) =
    close_egress_transport r ws message (some id) ++ close_each_egress r ws message ids

-- The peer as it is outside of every room. Its movement server stays.
unfoldable pub reset_peer : Peer → Peer
reset_peer peer = record peer {
  room = none;
  is_lobby = true;
  is_spectator = false;
  is_participant = false;
  ingress = none;
  egress = none;
}

-- `rooms.delete(room)`
abbrev pub delete_room : String → State → State
delete_room room s = record s { rooms = erase room s.rooms }

-- `this.peerCount.delete(room)`
abbrev pub delete_count : String → State → State
delete_count room s = record s { peer_count = erase room s.peer_count }

-- A room with no participant and nobody in the lobby.
abbrev pub is_deserted : PeerCounter → Bool
is_deserted count = is_zero count.participant_count && is_zero count.lobby_count

-- The room is deleted and the media servers are told to close it.
unfoldable pub destroy_room : String → Peer → State → State
unfolding erase close_room
destroy_room room peer s =
    let s1 = if truthy peer.room then delete_count room s else s in
    let s2 = delete_room room s1 in
    emit (close_room s2.router "api" (destroy_router_group peer.room) peer.room) s2

unfoldable pub leave_counted : Guid → String → Peer → PeerCounter → State → State
unfolding insert count_departure send_peer_count destroy_room reset_peer
leave_counted leaving_id room peer count s =
    let count' = count_departure peer count in
    let s1 = send_peer_count (some peer.id) room (set_count room count' s) in
    let s2 = if is_deserted count' then destroy_room room peer s1 else s1 in
    set_peer leaving_id (reset_peer peer) s2

-- The other peers of the room are told.
unfoldable pub announce_leave : State → String → Guid → List Effect
unfolding for_peers send_signal
announce_leave s room leaving_id =
    for_peers (is_other_in (some room) leaving_id)
      (λ other. send_signal s other.transport_signal (peer_disconnect leaving_id)) (values s.peers)

-- `leaveRoom`; where the room or its counter is not known, the call returns early.
unfoldable pub leave_room : Guid → String → Action
unfolding lookup close_ingress_transport close_each_egress announce_leave leave_counted
leave_room leaving_id room = with_peer leaving_id λ peer s.
    let message = disconnect_transport leaving_id in
    let ws = peer.transport_signal in
    let s1 = emit (close_ingress_transport s.router ws message peer.ingress) s in
    elim (lookup room s.rooms) [
      | none ↦ done s1
      | some room_data ↦
          let s2 =
            emit
              (close_each_egress s.router ws message room_data.egress
                ++ announce_leave s room leaving_id)
              s1 in
          elim (lookup room s.peer_count) [
            | none ↦ done s2
            | some count ↦ done (leave_counted leaving_id room peer count s2)
          ]
    ]
