-- ===== src/PeerConnectionManager/Transports.antt =====
-- frame/libs/peerConnectionManager.ts: the transports of a peer, up to an ingress server and down
-- from the egress servers.
use frame_oldbackend_public.Prelude.{
  String, true, Option, none, some, ◌==◌, truthy, opt_eq, if◌then◌else◌,
}
use frame_oldbackend_public.Prelude.Counters.{increment}
use frame_oldbackend_public.Prelude.Maps.{lookup, insert}
use frame_oldbackend_public.Types.{
  Guid, Json, Peer, PeerCounter, request, create_webrtc_ingress, create_webrtc_egress,
  connect_webrtc_ingress, connect_webrtc_egress, restart_ice,
}
use frame_oldbackend_public.State.{State, done, thrown, Action, emit}
use frame_oldbackend_public.SignalRouter.Router.{get_route_egress}
use frame_oldbackend_public.SignalRouter.Requests.{
  request_ingress_transport, request_egress_transport, connect_ingress_transport,
  connect_egress_transport, request_restart_ice,
}
use frame_oldbackend_public.PeerConnectionManager.Peers.{set_peer, with_peer}
use frame_oldbackend_public.PeerConnectionManager.Counts.{
  set_count, count_of, send_peer_count, count_arrival,
}

-- Counts a peer that asked for its ingress transport, if it is in a room.
unfoldable pub count_in : Option String → State → State
unfolding lookup insert count_arrival send_peer_count
count_in none s = s
count_in (some room) s =
    if room == ""
    then s
    else send_peer_count none room (set_count room (count_arrival (count_of s room)) s)

unfoldable pub create_ingress_transport : Guid → Json → Json → Action
unfolding lookup insert get_route_egress request_ingress_transport count_in
create_ingress_transport peer_id sctp_options rtp_capabilities = with_peer peer_id λ peer s.
    let peer' = record peer {
      device_rtp_capabilities = some rtp_capabilities;
      sctp_options = some sctp_options;
    } in
    let s1 = set_peer peer.id peer' s in
    let message =
      create_webrtc_ingress peer.id sctp_options peer.room (get_route_egress s1.router peer.room) in
    let s2 =
      emit
        (request_ingress_transport s1.router (request peer.transport_signal message) peer.ingress)
        s1 in
    done (count_in peer.room s2)

-- The egress server of a request: the one that the client names, or the peer's own.
abbrev egress_or_own : Option Guid → Peer → Option Guid
egress_or_own remote_egress peer = if truthy remote_egress then remote_egress else peer.egress

unfoldable pub create_egress_transport : Guid → Json → Json → Option Guid → Action
unfolding lookup insert request_egress_transport
create_egress_transport peer_id sctp_options rtp_capabilities remote_egress =
    with_peer peer_id λ peer s.
      let peer' = record peer {
        device_capabilities = some rtp_capabilities;
        sctp_options = some sctp_options;
      } in
      let s1 = set_peer peer.id peer' s in
      let message = create_webrtc_egress peer.id sctp_options peer.room in
      done (
        emit
          (request_egress_transport s1.router (request peer.transport_signal message)
            (egress_or_own remote_egress peer))
          s1)

-- One more participant.
abbrev pub count_participant : PeerCounter → PeerCounter
count_participant c = record c { participant_count = increment c.participant_count }

-- A sending peer becomes a participant. The peer is stored before its room's counter is read, and
-- a room without a counter throws.
unfoldable pub connect_send : Guid → Peer → String → Json → Action
unfolding lookup insert send_peer_count connect_ingress_transport
connect_send peer_id peer room dtls_parameters s =
    let s1 = set_peer peer_id (record peer { is_participant = true }) s in
    elim (lookup room s1.peer_count) [
      | none ↦ thrown s1
      | some count ↦
          let s2 = send_peer_count none room (set_count room (count_participant count) s1) in
          done (
            emit
              (connect_ingress_transport s2.router
                (request peer.transport_signal (connect_webrtc_ingress dtls_parameters peer_id))
                peer.ingress)
              s2)
    ]

abbrev pub connect_send_in : Guid → Peer → Option String → Json → Action
connect_send_in peer_id peer none dtls_parameters s = done s
connect_send_in peer_id peer (some room) dtls_parameters s =
    if room == "" then done s else connect_send peer_id peer room dtls_parameters s

unfoldable pub connect_peer_transport : Guid → Option String → Json → Option Guid → Action
unfolding lookup connect_send connect_egress_transport
connect_peer_transport peer_id direction dtls_parameters remote_egress = with_peer peer_id λ peer s.
    if opt_eq direction (some "send")
    then connect_send_in peer_id peer peer.room dtls_parameters s
    else done (
        emit
          (connect_egress_transport s.router
            (request peer.transport_signal (connect_webrtc_egress dtls_parameters peer_id))
            (egress_or_own remote_egress peer))
          s)

-- `restartIce`
unfoldable pub restart_peer_ice : Guid → Guid → Option Guid → Option Guid → Action
unfolding lookup request_restart_ice
restart_peer_ice transport_id peer_id ingress egress = with_peer peer_id λ peer s. done (
    emit
      (request_restart_ice s.router peer.transport_signal (restart_ice transport_id peer_id) ingress
        egress)
      s)
