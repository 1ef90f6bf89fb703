-- ===== src/PeerConnectionManager/Agreement.antt =====
-- The rooms of the connection manager and the routing table agree, whatever the clients command.
pub mod Untouched
pub mod Rooms
pub mod Departures
use frame_oldbackend_public.Prelude.{
  String, Bool, true, false, refl, none, ◌==◌, arith, if◌then◌else◌, Option-cases, Bool-cases,
}
use frame_oldbackend_public.Types.{Guid}
use frame_oldbackend_public.Types.Commands.{RequestMessage}
use frame_oldbackend_public.State.{State, Outcome, done, thrown, Action, ◌>>◌, state_of}
use frame_oldbackend_public.PeerConnectionManager.Command.{
  send_stats, stop_stats, dispatch, caught, command,
}
use frame_oldbackend_public.PeerConnectionManager.Consumers.{
  consume_all_movement, consume_all_audio, consume_all_video, consume_all_events,
}
use frame_oldbackend_public.PeerConnectionManager.Producers.{
  create_media, create_data, create_events, mute_producer, unmute_producer, set_producer_state,
  close_peer_producer,
}
use frame_oldbackend_public.PeerConnectionManager.Announcements.{
  hush_room, hush_peer, send_peer_indicators, reply_peer_indicators,
}
use frame_oldbackend_public.PeerConnectionManager.Transports.{restart_peer_ice}
use frame_oldbackend_public.PeerConnectionManager.Peers.{create_peer}
use frame_oldbackend_public.PeerConnectionManager.Counts.{get_peer_count}
use frame_oldbackend_public.PeerConnectionManager.Transports.{
  create_ingress_transport, create_egress_transport, connect_peer_transport,
}
use Untouched.{
  IsKept, >>-Keeps, close_peer_producer-Keeps, connect_peer_transport-Keeps,
  consume_all_audio-Keeps, consume_all_events-Keeps, consume_all_movement-Keeps,
  consume_all_video-Keeps, create_data-Keeps, create_egress_transport-Keeps, create_events-Keeps,
  create_ingress_transport-Keeps, create_media-Keeps, get_peer_count-Keeps, hush_peer-Keeps,
  hush_room-Keeps, mute_producer-Keeps, reply_peer_indicators-Keeps, restart_peer_ice-Keeps,
  send_peer_indicators-Keeps, set_producer_state-Keeps, unmute_producer-Keeps,
}
use Rooms.{Agrees, KeepsAgreement, kept-Agrees, Keeps-KeepsAgreement, join_room-KeepsAgreement}
use Departures.{
  leave_room-KeepsAgreement, disconnect_peer_websocket-KeepsAgreement, boot_peer-KeepsAgreement,
}

if-KeepsAgreement :
    (b : Bool) (m n : Action)
    → KeepsAgreement m
    → KeepsAgreement n
    → KeepsAgreement (if b then m else n)
if-KeepsAgreement true m n first second = first
if-KeepsAgreement false m n first second = second

create_peer-IsKept :
    (uuid ws : Guid) (region : String) (s : State) → IsKept s (create_peer uuid ws region s)
unfolding create_peer
create_peer-IsKept uuid ws region s = (refl, refl)

send_stats-IsKept : (s : State) → IsKept s (send_stats s)
unfolding send_stats
send_stats-IsKept s = ground (arith, Bool-cases s.has_ipc)

stop_stats-IsKept : (s : State) → IsKept s (stop_stats s)
unfolding stop_stats
stop_stats-IsKept s = ground (arith, Option-cases s.stats_timeout)

dispatch-KeepsAgreement :
    (uuid ws : Guid) (m : RequestMessage) → KeepsAgreement (dispatch uuid ws m)
unfolding dispatch
dispatch-KeepsAgreement uuid ws (RequestMessage.request_identity region) s v =
    kept-Agrees s (create_peer uuid ws region s) (create_peer-IsKept uuid ws region s) v
dispatch-KeepsAgreement uuid ws (RequestMessage.join_room peer room) s v =
    join_room-KeepsAgreement peer room s v
dispatch-KeepsAgreement uuid ws (RequestMessage.get_room_metrics peer rooms) s v =
    Keeps-KeepsAgreement (get_peer_count peer rooms) (get_peer_count-Keeps peer rooms) s v
dispatch-KeepsAgreement uuid ws (RequestMessage.leave_room peer room) s v =
    leave_room-KeepsAgreement peer room s v
dispatch-KeepsAgreement uuid ws (RequestMessage.create_ingress_transport peer streams caps) s v =
    Keeps-KeepsAgreement (create_ingress_transport peer streams caps)
      (create_ingress_transport-Keeps peer streams caps) s v
dispatch-KeepsAgreement uuid ws (RequestMessage.create_egress_transport peer streams caps egress) s
      v =
    Keeps-KeepsAgreement (create_egress_transport peer streams caps egress)
      (create_egress_transport-Keeps peer streams caps egress) s v
dispatch-KeepsAgreement uuid ws (RequestMessage.connect_ingress_transport peer direction dtls) s v =
    Keeps-KeepsAgreement (connect_peer_transport peer direction dtls none)
      (connect_peer_transport-Keeps peer direction dtls none) s v
dispatch-KeepsAgreement uuid ws (RequestMessage.connect_egress_transport peer direction dtls egress)
      s v =
    Keeps-KeepsAgreement (connect_peer_transport peer direction dtls egress)
      (connect_peer_transport-Keeps peer direction dtls egress) s v
dispatch-KeepsAgreement uuid ws (RequestMessage.produce_media peer kind options) s v =
    if-KeepsAgreement (kind == "audio") (create_media peer options)
      (if kind == "video" then create_media peer options else done)
      (Keeps-KeepsAgreement (create_media peer options) (create_media-Keeps peer options))
      (if-KeepsAgreement (kind == "video") (create_media peer options) done
        (Keeps-KeepsAgreement (create_media peer options) (create_media-Keeps peer options))
        (λ t w. w))
      s v
dispatch-KeepsAgreement uuid ws (RequestMessage.produce_data peer options) s v =
    Keeps-KeepsAgreement (create_data peer options) (create_data-Keeps peer options) s v
dispatch-KeepsAgreement uuid ws (RequestMessage.produce_events peer options) s v =
    Keeps-KeepsAgreement (create_events peer options) (create_events-Keeps peer options) s v
dispatch-KeepsAgreement uuid ws (RequestMessage.get_room_audio peer) s v =
    Keeps-KeepsAgreement (consume_all_audio peer) (consume_all_audio-Keeps peer) s v
dispatch-KeepsAgreement uuid ws (RequestMessage.get_room_video peer) s v =
    Keeps-KeepsAgreement (consume_all_video peer) (consume_all_video-Keeps peer) s v
dispatch-KeepsAgreement uuid ws (RequestMessage.get_room_movement peer spectator) s v =
    if-KeepsAgreement (peer == "") done (consume_all_movement peer spectator) (λ t w. w)
      (Keeps-KeepsAgreement (consume_all_movement peer spectator)
        (consume_all_movement-Keeps peer spectator))
      s v
dispatch-KeepsAgreement uuid ws (RequestMessage.get_room_events peer) s v =
    Keeps-KeepsAgreement (consume_all_events peer) (consume_all_events-Keeps peer) s v
dispatch-KeepsAgreement uuid ws (RequestMessage.mute_producer peer producer kind) s v =
    Keeps-KeepsAgreement (mute_producer peer producer kind) (mute_producer-Keeps peer producer kind)
      s v
dispatch-KeepsAgreement uuid ws (RequestMessage.resume_producer peer producer kind) s v =
    Keeps-KeepsAgreement (unmute_producer peer producer kind)
      (unmute_producer-Keeps peer producer kind) s v
dispatch-KeepsAgreement uuid ws (RequestMessage.set_audio_state peer state) s v =
    Keeps-KeepsAgreement (set_producer_state peer state "audio")
      (set_producer_state-Keeps peer state "audio") s v
dispatch-KeepsAgreement uuid ws (RequestMessage.set_video_state peer state) s v =
    Keeps-KeepsAgreement (set_producer_state peer state "video")
      (set_producer_state-Keeps peer state "video") s v
dispatch-KeepsAgreement uuid ws (RequestMessage.set_desktop_state peer state) s v =
    Keeps-KeepsAgreement
      (set_producer_state peer state "desktopAudio" >> set_producer_state peer state "desktopVideo")
      (>>-Keeps (set_producer_state peer state "desktopAudio")
        (set_producer_state peer state "desktopVideo")
        (set_producer_state-Keeps peer state "desktopAudio")
        (set_producer_state-Keeps peer state "desktopVideo"))
      s v
dispatch-KeepsAgreement uuid ws (RequestMessage.hush_peers peer) s v =
    Keeps-KeepsAgreement (hush_room peer) (hush_room-Keeps peer) s v
dispatch-KeepsAgreement uuid ws (RequestMessage.hush_user peer hushed) s v =
    Keeps-KeepsAgreement (hush_peer peer hushed) (hush_peer-Keeps peer hushed) s v
dispatch-KeepsAgreement uuid ws (RequestMessage.peer_indicators peer indicators) s v =
    Keeps-KeepsAgreement (send_peer_indicators peer indicators none)
      (send_peer_indicators-Keeps peer indicators none) s v
dispatch-KeepsAgreement uuid ws (RequestMessage.reply_peer_indicators origin peer indicators) s v =
    Keeps-KeepsAgreement (reply_peer_indicators origin peer indicators)
      (reply_peer_indicators-Keeps origin peer indicators) s v
dispatch-KeepsAgreement uuid ws (RequestMessage.boot_peer peer) s v =
    boot_peer-KeepsAgreement peer s v
dispatch-KeepsAgreement uuid ws (RequestMessage.disconnect_peer_websocket transport) s v =
    disconnect_peer_websocket-KeepsAgreement transport s v
dispatch-KeepsAgreement uuid ws (RequestMessage.producer_close peer producer media_type) s v =
    Keeps-KeepsAgreement (close_peer_producer peer producer media_type)
      (close_peer_producer-Keeps peer producer media_type) s v
dispatch-KeepsAgreement uuid ws RequestMessage.begin_sending_stats s v =
    kept-Agrees s (send_stats s) (send_stats-IsKept s) v
dispatch-KeepsAgreement uuid ws RequestMessage.end_sending_stats s v =
    kept-Agrees s (stop_stats s) (stop_stats-IsKept s) v
dispatch-KeepsAgreement uuid ws (RequestMessage.restart_ice transport peer ingress egress) s v =
    Keeps-KeepsAgreement (restart_peer_ice transport peer ingress egress)
      (restart_peer_ice-Keeps transport peer ingress egress) s v
dispatch-KeepsAgreement uuid ws RequestMessage.unknown s v = v

caught-Agrees : (ws : Guid) (o : Outcome) → Agrees (state_of o) → Agrees (caught ws o).0
caught-Agrees ws (done s) v = v
caught-Agrees ws (thrown s) v = v

-- If each room on record is in the routing table with the same servers, and no name stands twice
-- among the rooms, then this holds after any command as well, also after one that fails.
pub command-Agrees :
    (uuid ws : Guid) (m : RequestMessage) (s : State) → Agrees s → Agrees (command uuid ws m s).0
unfolding command
command-Agrees uuid ws m s v =
    caught-Agrees ws (dispatch uuid ws m s) (dispatch-KeepsAgreement uuid ws m s v)
