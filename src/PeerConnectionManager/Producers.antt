-- ===== src/PeerConnectionManager/Producers.antt =====
-- frame/libs/peerConnectionManager.ts: the producers of a peer.
use frame_oldbackend_public.Prelude.{
  String, Bool, Option, none, some, List, [], ◌∷◌, ◌==◌, if◌then◌else◌,
}
use frame_oldbackend_public.Prelude.Maps.{lookup}
use frame_oldbackend_public.Types.{
  Guid, Json, Producer, Peer, request, Effect, resume_media, pause_media, create_media_producer,
  create_data_producer, create_event_producer, producer_pause, producer_resume, producer_close,
}
use frame_oldbackend_public.State.{done, Action, emit}
use frame_oldbackend_public.SignalRouter.Requests.{
  create_producer, pause_producer, resume_producer, close_producer,
}
use frame_oldbackend_public.PeerConnectionManager.Peers.{with_peer}

-- `createAudioProducer` and `createVideoProducer`, which have one body.
unfoldable pub create_media : Guid → Json → Action
unfolding lookup create_producer
create_media peer_id options = with_peer peer_id λ peer s.
    let message =
      create_media_producer peer_id options peer.room peer.device_capabilities peer.egress in
    done (emit (create_producer s.router (request peer.transport_signal message) peer.ingress) s)

unfoldable pub create_data : Guid → Json → Action
unfolding lookup create_producer
create_data peer_id options = with_peer peer_id λ peer s.
    let message = create_data_producer peer_id options peer.room peer.egress in
    done (emit (create_producer s.router (request peer.transport_signal message) peer.ingress) s)

unfoldable pub create_events : Guid → Json → Action
unfolding lookup create_producer
create_events peer_id options = with_peer peer_id λ peer s.
    let message = create_event_producer peer_id options peer.room peer.egress in
    done (emit (create_producer s.router (request peer.transport_signal message) peer.ingress) s)

-- `muteProducer`: only audio is paused.
unfoldable pub mute_producer : Guid → Guid → String → Action
unfolding lookup pause_producer
mute_producer peer_id producer_id type = with_peer peer_id λ peer s.
    if type == "audio"
    then done (
        emit
          (pause_producer s.router peer.transport_signal (producer_pause peer_id producer_id type)
            peer.ingress)
          s)
    else done s

-- `resumeProducer`
unfoldable pub unmute_producer : Guid → Guid → String → Action
unfolding lookup resume_producer
unmute_producer peer_id producer_id type = with_peer peer_id λ peer s.
    if type == "audio"
    then done (
        emit
          (resume_producer s.router peer.transport_signal (producer_resume peer_id producer_id type)
            peer.ingress)
          s)
    else done s

-- The producer object of a type; any other type is unknown.
abbrev producer_of : String → Peer → Option Producer
producer_of type peer =
    if type == "audio"
    then peer.audio_producer
    else if type == "video"
    then peer.video_producer
    else if type == "desktopAudio"
    then peer.desktop_audio_producer
    else if type == "desktopVideo"
    then peer.desktop_video_producer
    else none

abbrev set_media : Bool → Option Producer → List Effect
set_media state none = []
set_media state (some producer) =
    (if state then resume_media producer else pause_media producer) ∷ []

unfoldable pub set_producer_state : Guid → Bool → String → Action
unfolding lookup
set_producer_state peer_id state type =
    with_peer peer_id λ peer s. done (emit (set_media state (producer_of type peer)) s)

-- `producerClose`
unfoldable pub close_peer_producer : Guid → Guid → String → Action
unfolding lookup close_producer
close_peer_producer peer_id producer_id media_type = with_peer peer_id λ peer s. done (
    emit
      (close_producer s.router peer.transport_signal (producer_close peer_id producer_id media_type)
        peer.ingress peer.egress)
      s)
