-- ===== src/PeerConnectionManager/Invariant.antt =====
-- The invariant of the connection manager: every event keeps it, also one that throws.
pub mod Base
pub mod Counting
pub mod Rooms
pub mod Disconnecting
pub mod Closing
pub mod Messages
pub mod Sending
use frame_oldbackend_public.Prelude.{Bool, true, false, none, List, [], ◌∷◌, ◌==◌, if◌then◌else◌}
use frame_oldbackend_public.Types.{Guid}
use frame_oldbackend_public.Types.Commands.{RequestMessage}
use frame_oldbackend_public.State.{State, Outcome, done, thrown, Action, ◌>>◌, state_of}
use frame_oldbackend_public.PeerConnectionManager.Command.{
  dispatch, caught, command, Event, on_command, on_server_message, on_server_close, on_timer,
  handle, handle_all,
}
use frame_oldbackend_public.PeerConnectionManager.Consumers.{
  create_consumer_messages, consume_all_movement,
}
use frame_oldbackend_public.PeerConnectionManager.Producers.{create_media, set_producer_state}
use Base.{Inv, KeepsInv, >>-KeepsInv}
use Counting.{
  create_peer-Inv, get_peer_count-KeepsInv, create_ingress_transport-KeepsInv,
  create_egress_transport-KeepsInv, connect_peer_transport-KeepsInv, consume_all_movement-KeepsInv,
}
use Rooms.{join_room-KeepsInv, leave_room-KeepsInv}
use Disconnecting.{disconnect_peer_websocket-KeepsInv, boot_peer-KeepsInv}
use Closing.{on_close-KeepsInv}
use Sending.{
  close_peer_producer-KeepsInv, consume_all_audio-KeepsInv, consume_all_events-KeepsInv,
  consume_all_video-KeepsInv, create_data-KeepsInv, create_events-KeepsInv, hush_peer-KeepsInv,
  hush_room-KeepsInv, mute_producer-KeepsInv, reply_peer_indicators-KeepsInv,
  restart_peer_ice-KeepsInv, send_peer_indicators-KeepsInv, unmute_producer-KeepsInv,
  set_producer_state-KeepsInv, create_media-KeepsInv,
}
use Messages.{on_message-Inv, send_stats-Inv, stop_stats-Inv, fire_timer-Inv}

-- Either of two calls that keep the invariant.
if-KeepsInv : (b : Bool) (m n : Action) → KeepsInv m → KeepsInv n → KeepsInv (if b then m else n)
if-KeepsInv true m n first second = first
if-KeepsInv false m n first second = second

done-KeepsInv : KeepsInv done
done-KeepsInv s v = v

-- Every command keeps the invariant, also one that throws.
dispatch-KeepsInv :
    (uuid ws : Guid) (message : RequestMessage) → KeepsInv (dispatch uuid ws message)
unfolding dispatch
dispatch-KeepsInv uuid ws (RequestMessage.request_identity region) s v =
    create_peer-Inv uuid ws region s v
dispatch-KeepsInv uuid ws (RequestMessage.join_room peer room) s v =
    join_room-KeepsInv peer room s v
dispatch-KeepsInv uuid ws (RequestMessage.get_room_metrics peer rooms) s v =
    get_peer_count-KeepsInv peer rooms s v
dispatch-KeepsInv uuid ws (RequestMessage.leave_room peer room) s v =
    leave_room-KeepsInv peer room s v
dispatch-KeepsInv uuid ws (RequestMessage.create_ingress_transport peer streams caps) s v =
    create_ingress_transport-KeepsInv peer streams caps s v
dispatch-KeepsInv uuid ws (RequestMessage.create_egress_transport peer streams caps egress) s v =
    create_egress_transport-KeepsInv peer streams caps egress s v
dispatch-KeepsInv uuid ws (RequestMessage.connect_ingress_transport peer direction dtls) s v =
    connect_peer_transport-KeepsInv peer direction dtls none s v
dispatch-KeepsInv uuid ws (RequestMessage.connect_egress_transport peer direction dtls egress) s v =
    connect_peer_transport-KeepsInv peer direction dtls egress s v
dispatch-KeepsInv uuid ws (RequestMessage.produce_media peer kind options) s v =
    if-KeepsInv (kind == "audio") (create_media peer options)
      (if kind == "video" then create_media peer options else done)
      (create_media-KeepsInv peer options)
      (if-KeepsInv (kind == "video") (create_media peer options) done
        (create_media-KeepsInv peer options) done-KeepsInv)
      s v
dispatch-KeepsInv uuid ws (RequestMessage.produce_data peer options) s v =
    create_data-KeepsInv peer options s v
dispatch-KeepsInv uuid ws (RequestMessage.produce_events peer options) s v =
    create_events-KeepsInv peer options s v
dispatch-KeepsInv uuid ws (RequestMessage.get_room_audio peer) s v =
    consume_all_audio-KeepsInv peer s v
dispatch-KeepsInv uuid ws (RequestMessage.get_room_video peer) s v =
    consume_all_video-KeepsInv peer s v
dispatch-KeepsInv uuid ws (RequestMessage.get_room_movement peer spectator) s v =
    if-KeepsInv (peer == "") done (consume_all_movement peer spectator) done-KeepsInv
      (consume_all_movement-KeepsInv peer spectator) s v
dispatch-KeepsInv uuid ws (RequestMessage.get_room_events peer) s v =
    consume_all_events-KeepsInv peer s v
dispatch-KeepsInv uuid ws (RequestMessage.mute_producer peer producer kind) s v =
    mute_producer-KeepsInv peer producer kind s v
dispatch-KeepsInv uuid ws (RequestMessage.resume_producer peer producer kind) s v =
    unmute_producer-KeepsInv peer producer kind s v
dispatch-KeepsInv uuid ws (RequestMessage.set_audio_state peer state) s v =
    set_producer_state-KeepsInv peer state "audio" s v
dispatch-KeepsInv uuid ws (RequestMessage.set_video_state peer state) s v =
    set_producer_state-KeepsInv peer state "video" s v
dispatch-KeepsInv uuid ws (RequestMessage.set_desktop_state peer state) s v =
    >>-KeepsInv (set_producer_state peer state "desktopAudio")
      (set_producer_state peer state "desktopVideo")
      (set_producer_state-KeepsInv peer state "desktopAudio")
      (set_producer_state-KeepsInv peer state "desktopVideo") s v
dispatch-KeepsInv uuid ws (RequestMessage.hush_peers peer) s v = hush_room-KeepsInv peer s v
dispatch-KeepsInv uuid ws (RequestMessage.hush_user peer hushed) s v =
    hush_peer-KeepsInv peer hushed s v
dispatch-KeepsInv uuid ws (RequestMessage.peer_indicators peer indicators) s v =
    send_peer_indicators-KeepsInv peer indicators none s v
dispatch-KeepsInv uuid ws (RequestMessage.reply_peer_indicators origin peer indicators) s v =
    reply_peer_indicators-KeepsInv origin peer indicators s v
dispatch-KeepsInv uuid ws (RequestMessage.boot_peer peer) s v = boot_peer-KeepsInv peer s v
dispatch-KeepsInv uuid ws (RequestMessage.disconnect_peer_websocket transport) s v =
    disconnect_peer_websocket-KeepsInv transport s v
dispatch-KeepsInv uuid ws (RequestMessage.producer_close peer producer media_type) s v =
    close_peer_producer-KeepsInv peer producer media_type s v
dispatch-KeepsInv uuid ws RequestMessage.begin_sending_stats s v = send_stats-Inv s v
dispatch-KeepsInv uuid ws RequestMessage.end_sending_stats s v = stop_stats-Inv s v
dispatch-KeepsInv uuid ws (RequestMessage.restart_ice transport peer ingress egress) s v =
    restart_peer_ice-KeepsInv transport peer ingress egress s v
dispatch-KeepsInv uuid ws RequestMessage.unknown s v = v

caught-Inv : (ws : Guid) (o : Outcome) → Inv (state_of o) → Inv (caught ws o).0
caught-Inv ws (done s) v = v
caught-Inv ws (thrown s) v = v

handle-KeepsInv : (e : Event) → KeepsInv (handle e)
unfolding handle command
handle-KeepsInv (on_command uuid ws message) s v =
    caught-Inv ws (dispatch uuid ws message s) (dispatch-KeepsInv uuid ws message s v)
handle-KeepsInv (on_server_message c message) s v =
    on_message-Inv create_consumer_messages c message s v
handle-KeepsInv (on_server_close c) s v = on_close-KeepsInv c s v
handle-KeepsInv (on_timer t) s v = fire_timer-Inv t s v

-- The invariant is kept by any sequence of events, and by one that ends in a throw: every peer
-- stands once in the map of peers, under its own id; a peer in no room is in the lobby, is neither
-- participant nor spectator, and has no ingress and no egress server; every room on record has an
-- ingress and an egress server; and no count of a lobby is negative.
pub handle_all-Inv :
    (events : List Event) (s : State) → Inv s → Inv (state_of (handle_all events s))
unfolding handle_all
handle_all-Inv [] s v = v
handle_all-Inv (e ∷ events) s v =
    >>-KeepsInv (handle e) (handle_all events) (handle-KeepsInv e)
      (λ t w. handle_all-Inv events t w) s v
