-- ===== src/Avatar/Participation.antt =====
-- frame/webapp/core/avatar.ts: `enterFrame`, `participate`, and the handlers of the avatar's transports.
use frame_oldbackend_public.Prelude.{
  String, Bool, true, false, not, ◌&&◌, Option, none, some, List, [], ◌∷◌, ◌==◌, if◌then◌else◌,
  truthy,
}
use frame_oldbackend_public.Prelude.Maps.{lookup, values}
use frame_oldbackend_public.Types.{Guid, Json}
use frame_oldbackend_public.Types.Commands.{
  join_room, get_room_audio, get_room_video, get_room_movement, get_room_events,
  connect_ingress_transport, connect_egress_transport, produce_media, produce_data, produce_events,
  request_identity, hush_peers, boot_peer,
}
use frame_oldbackend_public.Movement.Timer.{start_sending}
use frame_oldbackend_public.Avatar.State.{
  Handle, Producer, producing_data, produced, notified, awaiting_media_id, awaiting_data_id,
  awaiting_producer, awaiting_movement_producer, awaiting_events_producer, Avatar, perform, send,
  add_task,
}

-- `connect`: a new websocket unless one is open, and a new device.
unfoldable pub connect : Avatar → Avatar
connect a = record a { device_loaded = false }

-- The handler `onclose` of the websocket, with the frame's name in the page's state.
unfoldable pub on_websocket_close : Bool → String → Avatar → Avatar
on_websocket_close was_clean frame_name a =
    let a1 = record a { websocket_ready = false; room = frame_name } in
    if not was_clean && truthy (some frame_name) then a1 else perform (notified ∷ []) a1

-- The handler `onopen` of the websocket, with what `region()` returns.
unfoldable pub on_websocket_open : String → Avatar → Avatar
unfolding send
on_websocket_open region a = send (request_identity region) (record a { websocket_ready = true })

unfoldable pub enter_frame : String → Avatar → Avatar
unfolding send
enter_frame frame_name a = send (join_room a.avatar_id frame_name) a

unfoldable pub hush_all : Avatar → Avatar
unfolding send
hush_all a = send (hush_peers a.avatar_id) a

unfoldable pub boot_user : Guid → Avatar → Avatar
unfolding send
boot_user peer_id a = send (boot_peer peer_id) a

-- The four requests for what the others produce.
unfoldable pub get_announcements : Bool → Avatar → Avatar
unfolding send
get_announcements is_spectator a =
    let a1 = send (get_room_audio a.avatar_id) a in
    let a2 = send (get_room_video a1.avatar_id) a1 in
    let a3 = send (get_room_movement a2.avatar_id is_spectator) a2 in
    send (get_room_events a3.avatar_id) a3

-- `participate` from `if (events)` on. Without a transport it returns, and requests nothing.
unfoldable pub emit_events : Bool → Bool → Avatar → Avatar
unfolding get_announcements
emit_events emits is_spectator a =
    if emits
    then elim a.producer_transport [
      | none ↦ a
      | some transport ↦
          add_task (awaiting_events_producer is_spectator)
            (perform (producing_data transport "FrameEvents" ∷ []) a)
    ]
    else get_announcements is_spectator a

-- `participate` from `if (data)` on.
unfoldable pub begin_sending : Bool → Bool → Avatar → Avatar
unfolding emit_events start_sending
begin_sending moves emits a =
    if moves
    then (if a.link.regional_movement_server
        then emit_events emits false (record a { avatar_mover = start_sending a.avatar_mover })
        else elim a.producer_transport [
          | none ↦ emit_events emits false a
          | some transport ↦
              add_task (awaiting_movement_producer emits)
                (perform (producing_data transport "AvatarMovement" ∷ []) a)
        ])
    else emit_events emits (not emits) a

unfoldable pub participate : Bool → Bool → Avatar → Avatar
participate moves emits a = add_task (awaiting_producer moves emits) a

abbrev data_producer : Handle → Producer
data_producer producer = record { handle = producer; kind = ""; paused = false }

unfoldable pub on_movement_producer : Bool → Handle → Avatar → Avatar
unfolding emit_events start_sending
on_movement_producer emits producer a = emit_events emits false (record a {
  avatar_mover = start_sending a.avatar_mover;
  movement_producer = some (data_producer producer);
})

unfoldable pub on_events_producer : Bool → Handle → Avatar → Avatar
unfolding get_announcements
on_events_producer is_spectator producer a =
    get_announcements is_spectator
      (record a { frame_events_producer = some (data_producer producer) })

-- The handlers of `connect`: the direction is that of the transport.
unfoldable pub on_connect_ingress : Json → Avatar → Avatar
unfolding send
on_connect_ingress dtls_parameters a =
    send
      (connect_ingress_transport a.avatar_id
        (elim a.producer_transport [ none ↦ none | some transport ↦ some "send" ]) dtls_parameters)
      a

unfoldable pub on_connect_egress : Json → Option Guid → Avatar → Avatar
unfolding send
on_connect_egress dtls_parameters egress a =
    send (connect_egress_transport a.avatar_id (some "recv") dtls_parameters egress) a

-- The handlers of `connectionstatechange`.
unfoldable pub on_ingress_state : String → Avatar → Avatar
on_ingress_state state a =
    if state == "failed"
    then record (perform (notified ∷ []) a) { producer_connected = false }
    else a

unfoldable pub on_egress_state : String → Avatar → Avatar
on_egress_state state a =
    if state == "failed"
    then record (perform (notified ∷ []) a) { consumer_connected = false }
    else a

-- The handler of `produce`: it tells the media server, and waits for the id.
unfoldable pub on_produce : String → Json → String → String → Avatar → Avatar
unfolding send
on_produce kind options source device_id a =
    add_task (awaiting_media_id source device_id) (send (produce_media a.avatar_id kind options) a)

-- The handler of `producedata`.
unfoldable pub on_produce_data : String → Json → Avatar → Avatar
unfolding send
on_produce_data label options a =
    if label == "AvatarMovement"
    then add_task (awaiting_data_id label) (send (produce_data a.avatar_id options) a)
    else if label == "FrameEvents"
    then add_task (awaiting_data_id label) (send (produce_events a.avatar_id options) a)
    else a

-- The wait for an id that is undefined at first: the callback is not called with an empty one.
abbrev give_id : Option Guid → Avatar → Option Avatar
give_id none a = none
give_id (some id) a = some (if truthy (some id) then perform (produced id ∷ []) a else a)

-- The wait for a screen's id, which is taken as it is.
abbrev give_screen_id : Option Guid → Avatar → Option Avatar
give_screen_id none a = none
give_screen_id (some id) a = some (perform (produced id ∷ []) a)

unfoldable pub on_media_id : String → String → Avatar → Option Avatar
unfolding lookup
on_media_id source device_id a =
    if source == "webcam"
    then give_id a.video_producer_id a
    else if source == "microphone"
    then give_id a.audio_producer_id a
    else if source == "screenVideo"
    then give_screen_id (lookup device_id a.screen_video_producer_ids) a
    else if source == "screenAudio"
    then give_screen_id (lookup device_id a.screen_audio_producer_ids) a
    else some a

unfoldable pub on_data_id : String → Avatar → Option Avatar
on_data_id label a =
    if label == "AvatarMovement"
    then give_id a.movement_producer_id a
    else give_id a.frame_events_producer_id a

abbrev is_open_producer : (Handle → Bool) → Option Producer → Bool
is_open_producer is_open none = false
is_open_producer is_open (some p) = is_open p.handle

-- `allConnectionsConnected`, by whether a transport is connected.
unfoldable pub every_connected : (Handle → Bool) → List Handle → Bool
every_connected is_connected [] = true
every_connected is_connected (t ∷ transports) =
    is_connected t && every_connected is_connected transports

unfoldable pub all_connections_connected : (Handle → Bool) → Avatar → Bool
unfolding every_connected
all_connections_connected is_connected a =
    a.websocket_ready
    && elim a.producer_transport [ none ↦ false | some t ↦ is_connected t ]
    && every_connected is_connected (values a.consumer_transport)

-- `dataChannel`: the producer of the label, if it is open; `is_open` is the state that an object of
-- mediasoup-client reports.
unfoldable pub data_channel : (Handle → Bool) → String → Avatar → Option Producer
data_channel is_open label a =
    if label == "AvatarMovement" && is_open_producer is_open a.movement_producer
    then a.movement_producer
    else if label == "FrameEvents" && is_open_producer is_open a.frame_events_producer
    then a.frame_events_producer
    else none
