-- ===== src/PeerConnectionManager/Command.antt =====
-- frame/libs/peerConnectionManager.ts: `command`, which runs a client's command and catches what
-- it throws, and the timers of the statistics.
use frame_oldbackend_public.Prelude.{ℕ, suc, Option, none, some, List, [], ◌∷◌, ◌==◌, if◌then◌else◌}
use frame_oldbackend_public.Types.{Guid, ipc_stats, NetSocket, ParseMessages}
use frame_oldbackend_public.Types.Commands.{RequestMessage}
use frame_oldbackend_public.Prelude.Timers.{without_timer, is_set}
use frame_oldbackend_public.State.{State, Outcome, done, thrown, Action, ◌>>◌, modify, emit}
use frame_oldbackend_public.SignalRouter.Close.{on_close}
use frame_oldbackend_public.SignalRouter.Receive.{on_message}
use frame_oldbackend_public.PeerConnectionManager.Peers.{create_peer}
use frame_oldbackend_public.PeerConnectionManager.Counts.{get_peer_count}
use frame_oldbackend_public.PeerConnectionManager.Joining.{join_room}
use frame_oldbackend_public.PeerConnectionManager.Leaving.{leave_room}
use frame_oldbackend_public.PeerConnectionManager.Transports.{
  create_ingress_transport, create_egress_transport, connect_peer_transport, restart_peer_ice,
}
use frame_oldbackend_public.PeerConnectionManager.Consumers.{
  create_consumer_messages, consume_all_audio, consume_all_video, consume_all_movement,
  consume_all_events,
}
use frame_oldbackend_public.PeerConnectionManager.Producers.{
  create_media, create_data, create_events, mute_producer, unmute_producer, set_producer_state,
  close_peer_producer,
}
use frame_oldbackend_public.PeerConnectionManager.Announcements.{
  hush_room, hush_peer, send_peer_indicators, reply_peer_indicators,
}
use frame_oldbackend_public.PeerConnectionManager.Disconnect.{
  disconnect_peer_websocket, boot_peer, drop_route,
}

-- `setTimeout(beginSendingStats, 1000)`
abbrev set_timer : State → State
set_timer s = record s {
  timers = s.next_timer ∷ s.timers;
  stats_timeout = some s.next_timer;
  next_timer = suc s.next_timer;
}

-- One round of the statistics. `rooms` is copied by `Object.assign({}, rooms)`, which copies
-- nothing out of a `Map`, so only the peers are sent.
unfoldable pub send_stats : State → State
send_stats s = set_timer (if s.has_ipc then emit (ipc_stats s.peers ∷ []) s else s)

-- A timer that is set fires: it is no longer set, and the next round begins.
unfoldable pub fire_timer : ℕ → State → State
unfolding is_set without_timer send_stats
fire_timer t s =
    if is_set t s.timers then send_stats (record s { timers = without_timer t s.timers }) else s

-- `clearTimeout(this.#statsTimeout)`
unfoldable pub stop_stats : State → State
unfolding without_timer
stop_stats s = elim s.stats_timeout [
  | none ↦ s
  | some t ↦ record s { timers = without_timer t s.timers }
]

-- The `switch` of `command`; `uuid` is what the package uuid4 would return.
unfoldable pub dispatch : Guid → Guid → RequestMessage → Action
dispatch uuid ws (RequestMessage.request_identity region) = modify (create_peer uuid ws region)
dispatch uuid ws (RequestMessage.join_room peer room) = join_room peer room
dispatch uuid ws (RequestMessage.get_room_metrics peer rooms) = get_peer_count peer rooms
dispatch uuid ws (RequestMessage.leave_room peer room) = leave_room peer room
dispatch uuid ws (RequestMessage.create_ingress_transport peer streams caps) =
    create_ingress_transport peer streams caps
dispatch uuid ws (RequestMessage.create_egress_transport peer streams caps egress) =
    create_egress_transport peer streams caps egress
dispatch uuid ws (RequestMessage.connect_ingress_transport peer direction dtls) =
    connect_peer_transport peer direction dtls none
dispatch uuid ws (RequestMessage.connect_egress_transport peer direction dtls egress) =
    connect_peer_transport peer direction dtls egress
dispatch uuid ws (RequestMessage.produce_media peer kind options) =
    if kind == "audio"
    then create_media peer options
    else if kind == "video"
    then create_media peer options
    else done
dispatch uuid ws (RequestMessage.produce_data peer options) = create_data peer options
dispatch uuid ws (RequestMessage.produce_events peer options) = create_events peer options
dispatch uuid ws (RequestMessage.get_room_audio peer) = consume_all_audio peer
dispatch uuid ws (RequestMessage.get_room_video peer) = consume_all_video peer
dispatch uuid ws (RequestMessage.get_room_movement peer spectator) =
    if peer == "" then done else consume_all_movement peer spectator
dispatch uuid ws (RequestMessage.get_room_events peer) = consume_all_events peer
dispatch uuid ws (RequestMessage.mute_producer peer producer kind) =
    mute_producer peer producer kind
dispatch uuid ws (RequestMessage.resume_producer peer producer kind) =
    unmute_producer peer producer kind
dispatch uuid ws (RequestMessage.set_audio_state peer state) = set_producer_state peer state "audio"
dispatch uuid ws (RequestMessage.set_video_state peer state) = set_producer_state peer state "video"
dispatch uuid ws (RequestMessage.set_desktop_state peer state) =
    set_producer_state peer state "desktopAudio" >> set_producer_state peer state "desktopVideo"
dispatch uuid ws (RequestMessage.hush_peers peer) = hush_room peer
dispatch uuid ws (RequestMessage.hush_user peer hushed) = hush_peer peer hushed
dispatch uuid ws (RequestMessage.peer_indicators peer indicators) =
    send_peer_indicators peer indicators none
dispatch uuid ws (RequestMessage.reply_peer_indicators origin peer indicators) =
    reply_peer_indicators origin peer indicators
dispatch uuid ws (RequestMessage.boot_peer peer) = boot_peer peer
dispatch uuid ws (RequestMessage.disconnect_peer_websocket transport) =
    disconnect_peer_websocket transport
dispatch uuid ws (RequestMessage.producer_close peer producer media_type) =
    close_peer_producer peer producer media_type
dispatch uuid ws RequestMessage.begin_sending_stats = modify send_stats
dispatch uuid ws RequestMessage.end_sending_stats = modify stop_stats
dispatch uuid ws (RequestMessage.restart_ice transport peer ingress egress) =
    restart_peer_ice transport peer ingress egress
dispatch uuid ws RequestMessage.unknown = done

-- What the promise of `command` resolves to: undefined, or `{ ws, communication: false }`.
pub data Reply : Type 0 where
  no_reply : Reply
  failed : (ws : Guid) → Reply

abbrev pub caught : Guid → Outcome → State × Reply
caught ws (done s) = (s, no_reply)
caught ws (thrown s) = (s, failed ws)

-- `command`
unfoldable pub command : Guid → Guid → RequestMessage → State → State × Reply
unfolding dispatch
command uuid ws message s = caught ws (dispatch uuid ws message s)

-- What the peer manager's process reacts to, with the callbacks that its constructor hands over.
pub data Event : Type 0 where
  on_command : (uuid ws : Guid) → RequestMessage → Event
  on_server_message : NetSocket → Option ParseMessages → Event
  on_server_close : NetSocket → Event
  on_timer : ℕ → Event

-- One event; a throw outside of `command` ends the process.
unfoldable pub handle : Event → Action
unfolding command create_consumer_messages drop_route on_message on_close fire_timer
handle (on_command uuid ws message) s = done (command uuid ws message s).0
handle (on_server_message connection message) s =
    done (on_message create_consumer_messages connection message s)
handle (on_server_close connection) s = on_close drop_route connection s
handle (on_timer t) s = done (fire_timer t s)

unfoldable pub handle_all : List Event → Action
unfolding handle
handle_all [] s = done s
handle_all (e ∷ es) s = (handle e >> handle_all es) s
