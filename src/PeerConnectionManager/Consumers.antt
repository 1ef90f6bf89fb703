-- ===== src/PeerConnectionManager/Consumers.antt =====
-- frame/libs/peerConnectionManager.ts: who consumes whose media.
use frame_oldbackend_public.Prelude.{
  String, Bool, true, false, not, ◌&&◌, Option, none, some, List, [], ◌∷◌, ◌==◌, opt_eq, truthy,
  if◌then◌else◌,
}
use frame_oldbackend_public.Prelude.Counters.{increment}
use frame_oldbackend_public.Prelude.Maps.{lookup, insert, values}
use frame_oldbackend_public.Types.{Guid, Json, Peer, PeerCounter, consume, Signal, request}
use frame_oldbackend_public.State.{State, done, thrown, Action, emit}
use frame_oldbackend_public.SignalRouter.Requests.{
  request_all_audio, request_all_video, request_all_movement, request_all_events,
}
use frame_oldbackend_public.PeerConnectionManager.Peers.{set_peer, with_peer, is_other_in}
use frame_oldbackend_public.PeerConnectionManager.Counts.{set_count, leave_lobby}

-- Whether a peer is told of a new producer: it is in the producer's room and out of the lobby, and
-- it is another peer, but for the label FrameEvents.
abbrev pub is_consumer : Peer → String → Peer → Bool
is_consumer producer label peer =
    opt_eq peer.room producer.room
    && not (producer.id == peer.id && not (label == "FrameEvents"))
    && not peer.is_lobby
    && truthy peer.room

-- The message's `type`, and whether it carries RTP capabilities.
abbrev consume_type : String → String → Option String
consume_type type label =
    if type == "audio"
    then some "consumeAudio"
    else if type == "video"
    then some "consumeVideo"
    else if label == "AvatarMovement"
    then some "consumeMovement"
    else if label == "FrameEvents"
    then some "consumeEvents"
    else none

abbrev pub consume_caps : String → Peer → Option Json
consume_caps type peer =
    if type == "audio"
    then peer.device_rtp_capabilities
    else if type == "video"
    then peer.device_rtp_capabilities
    else none

abbrev pub consumer_message : Peer → String → String → Peer → Signal
consumer_message producer type label peer = request peer.transport_signal (
    consume (consume_type type label) peer.id (producer.id ∷ []) peer.room (consume_caps type peer))

unfoldable pub consumer_messages : Peer → String → String → List Peer → List Signal
consumer_messages producer type label [] = []
consumer_messages producer type label (peer ∷ peers) =
    let rest = consumer_messages producer type label peers in
    if is_consumer producer label peer
    then consumer_message producer type label peer ∷ rest
    else rest

-- `createConsumerMessages`; `none` stands for `false`.
unfoldable pub create_consumer_messages : Guid → String → String → State → Option (List Signal)
unfolding lookup consumer_messages
create_consumer_messages peer_id type label s = elim (lookup peer_id s.peers) [
  | none ↦ none
  | some producer ↦ some (consumer_messages producer type label (values s.peers))
]

-- The ids of the other peers of the consumer's room.
unfoldable pub producers_for : Peer → List Peer → List Guid
producers_for consumer [] = []
producers_for consumer (peer ∷ peers) =
    let rest = producers_for consumer peers in
    if is_other_in consumer.room consumer.id peer then peer.id ∷ rest else rest

unfoldable pub consume_all_audio : Guid → Action
unfolding lookup producers_for request_all_audio
consume_all_audio peer_id = with_peer peer_id λ peer s. done (
    emit
      (request_all_audio s.router peer.transport_signal peer.device_rtp_capabilities peer.id
        peer.room (producers_for peer (values s.peers)))
      s)

unfoldable pub consume_all_video : Guid → Action
unfolding lookup producers_for request_all_video
consume_all_video peer_id = with_peer peer_id λ peer s. done (
    emit
      (request_all_video s.router peer.transport_signal peer.device_rtp_capabilities peer.id
        peer.room (producers_for peer (values s.peers)))
      s)

-- A peer leaves the lobby, and may become a spectator.
abbrev pub count_enter : Bool → PeerCounter → PeerCounter
count_enter spectator c = record c {
  lobby_count = leave_lobby c.lobby_count;
  spectator_count = if spectator then increment c.spectator_count else c.spectator_count;
}

abbrev pub enter_peer : Bool → Peer → Peer
enter_peer spectator peer = record peer {
  is_lobby = false;
  is_spectator = if spectator then true else peer.is_spectator;
}

-- The lobby's part of `consumeAllMovement`: the peer after it, or a throw where the room has no
-- counter.
unfoldable pub enter_room : Guid → Bool → Peer → Option String → Action
unfolding lookup insert
enter_room peer_id spectator peer none s = done s
enter_room peer_id spectator peer (some room) s =
    if not peer.is_lobby
    then done s
    else if room == ""
    then done s
    else elim (lookup room s.peer_count) [
      | none ↦ thrown s
      | some count ↦ done (
          set_count room (count_enter spectator count)
            (set_peer peer_id (enter_peer spectator peer) s))
    ]

unfoldable pub request_movement : Guid → Action
unfolding lookup producers_for request_all_movement
request_movement peer_id = with_peer peer_id λ peer s. done (
    emit
      (request_all_movement s.router peer.transport_signal peer.id peer.room
        (producers_for peer (values s.peers)))
      s)

-- `consumeAllMovement`: the second half reads the peer again, whose object the first has changed.
unfoldable pub consume_all_movement : Guid → Bool → Action
unfolding lookup enter_room request_movement
consume_all_movement peer_id spectator = with_peer peer_id λ peer s.
    elim (enter_room peer_id spectator peer peer.room s) [
      | thrown s' ↦ thrown s'
      | done s' ↦ request_movement peer_id s'
    ]

unfoldable pub consume_all_events : Guid → Action
unfolding lookup producers_for request_all_events
consume_all_events peer_id = with_peer peer_id λ peer s. done (
    emit
      (request_all_events s.router peer.transport_signal peer.id peer.room
        (producers_for peer (values s.peers)))
      s)
