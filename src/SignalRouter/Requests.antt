-- ===== src/SignalRouter/Requests.antt =====
-- frame/libs/signalRouter.ts: the signals that the router writes to media servers. Sending changes
-- no state of the router, so each function returns the writes that it makes, in order.
use frame_oldbackend_public.Prelude.{
  String, Option, none, some, List, [], ◌∷◌, ◌++◌, ◌==◌, truthy, if◌then◌else◌,
}
use frame_oldbackend_public.Prelude.Maps.{Map, lookup}
use frame_oldbackend_public.Types.{
  Guid, Json, NetSocket, Room, MediaMessage, Signal, request, Effect, net_write,
  create_router_group, create_webrtc_ingress, create_webrtc_egress, connect_webrtc_ingress,
  connect_webrtc_egress, create_media_producer, create_data_producer, create_event_producer,
  consume, producer_pause, producer_resume, producer_close, consumer_pause, consumer_resume,
  restart_ice, disconnect_transport, destroy_router_group,
}
use frame_oldbackend_public.SignalRouter.Router.{Router, property_key}

-- The field `type` of a message.
unfoldable pub message_type : MediaMessage → String
message_type (create_router_group _) = "createRouterGroup"
message_type (create_webrtc_ingress _ _ _ _) = "createWebRTCIngress"
message_type (create_webrtc_egress _ _ _) = "createWebRTCEgress"
message_type (connect_webrtc_ingress _ _) = "connectWebRTCIngress"
message_type (connect_webrtc_egress _ _) = "connectWebRTCEgress"
message_type (create_media_producer _ _ _ _ _) = "createMediaProducer"
message_type (create_data_producer _ _ _ _) = "createDataProducer"
message_type (create_event_producer _ _ _ _) = "createEventProducer"
message_type (consume kind _ _ _ _) = property_key kind
message_type (producer_pause _ _ _) = "producerPause"
message_type (producer_resume _ _ _) = "producerResume"
message_type (producer_close _ _ _) = "producerClose"
message_type (consumer_pause _ _) = "consumerPause"
message_type (consumer_resume _ _) = "consumerResume"
message_type (restart_ice _ _) = "restartIce"
message_type (disconnect_transport _) = "disconnectTransport"
message_type (destroy_router_group _) = "destroyRouterGroup"

unfoldable pub write_to : Map NetSocket → Option Guid → Signal → List Effect
unfolding lookup
write_to servers id signal = elim (lookup (property_key id) servers) [
  | none ↦ []
  | some connection ↦ net_write connection signal ∷ []
]

unfoldable pub send_ingress : Router → Option Guid → Signal → List Effect
unfolding write_to
send_ingress r = write_to r.ingress.servers

unfoldable pub send_egress : Router → Option Guid → Signal → List Effect
unfolding write_to
send_egress r = write_to r.egress.servers

unfoldable pub send_movement : Router → Option Guid → Signal → List Effect
unfolding write_to
send_movement r = write_to r.movement.servers

-- `ids.forEach(id => send(id, signal))`
unfoldable pub send_each : (Option Guid → Signal → List Effect) → List Guid → Signal → List Effect
send_each send [] signal = []
send_each send (id ∷ ids) signal = send (some id) signal ++ send_each send ids signal

unfoldable pub request_join : Router → String → Guid → String → Option Guid → List Effect
unfolding send_ingress send_egress send_movement
request_join r room ws_transport_id server_type server_id =
    let signal = request ws_transport_id (create_router_group room) in
    if server_type == "ingress"
    then send_ingress r server_id signal
    else if server_type == "egress"
    then send_egress r server_id signal
    else if server_type == "movement"
    then send_movement r server_id signal
    else []

unfoldable pub request_ingress_transport : Router → Signal → Option Guid → List Effect
unfolding send_ingress
request_ingress_transport r message server_id = send_ingress r server_id message

unfoldable pub request_egress_transport : Router → Signal → Option Guid → List Effect
unfolding send_egress
request_egress_transport r message server_id = send_egress r server_id message

unfoldable pub connect_ingress_transport : Router → Signal → Option Guid → List Effect
unfolding send_ingress
connect_ingress_transport r message server_id = send_ingress r server_id message

unfoldable pub connect_egress_transport : Router → Signal → Option Guid → List Effect
unfolding send_egress
connect_egress_transport r message server_id = send_egress r server_id message

-- `createAudioProducer`, `createVideoProducer`, `createMovementProducer` and `createEventProducer`
-- have one body.
unfoldable pub create_producer : Router → Signal → Option Guid → List Effect
unfolding send_ingress
create_producer r message server_id = send_ingress r server_id message

-- The end of `requestAllAudio`, `requestAllVideo`, `requestAllMovement` and `requestAllEvents`.
unfoldable pub send_room_egress : Router → Option String → Signal → List Effect
unfolding lookup send_each send_egress
send_room_egress r room signal = elim (lookup (property_key room) r.routing_table) [
  | none ↦ []
  | some route ↦ send_each (send_egress r) route.egress signal
]

unfoldable pub request_all_audio :
    Router → Guid → Option Json → Guid → Option String → List Guid → List Effect
unfolding send_room_egress
request_all_audio r transport rtp_caps requesting_id room producers =
    send_room_egress r room
      (request transport (consume (some "consumeAudio") requesting_id producers room rtp_caps))

unfoldable pub request_all_video :
    Router → Guid → Option Json → Guid → Option String → List Guid → List Effect
unfolding send_room_egress
request_all_video r transport rtp_caps requesting_id room producers =
    send_room_egress r room
      (request transport (consume (some "consumeVideo") requesting_id producers room rtp_caps))

unfoldable pub request_all_movement : Router → Guid → Guid → Option String → List Guid → List Effect
unfolding send_room_egress
request_all_movement r transport requesting_id room producers =
    send_room_egress r room
      (request transport (consume (some "consumeMovement") requesting_id producers room none))

unfoldable pub request_all_events : Router → Guid → Guid → Option String → List Guid → List Effect
unfolding send_room_egress
request_all_events r transport requesting_id room producers =
    send_room_egress r room
      (request transport (consume (some "consumeEvents") requesting_id producers room none))

-- A message of the wrong type is not sent.
unfoldable pub if_type : String → MediaMessage → List Effect → List Effect
unfolding message_type
if_type expected message effects = if message_type message == expected then effects else []

unfoldable pub pause_producer : Router → Guid → MediaMessage → Option Guid → List Effect
unfolding if_type send_ingress
pause_producer r wsid message server_id =
    if_type "producerPause" message (send_ingress r server_id (request wsid message))

unfoldable pub resume_producer : Router → Guid → MediaMessage → Option Guid → List Effect
unfolding if_type send_ingress
resume_producer r wsid message server_id =
    if_type "producerResume" message (send_ingress r server_id (request wsid message))

unfoldable pub pause_consumer : Router → Guid → MediaMessage → Option Guid → List Effect
unfolding if_type send_egress
pause_consumer r wsid message server_id =
    if_type "consumerPause" message (send_egress r server_id (request wsid message))

unfoldable pub resume_consumer : Router → Guid → MediaMessage → Option Guid → List Effect
unfolding if_type send_egress
resume_consumer r wsid message server_id =
    if_type "consumerResume" message (send_egress r server_id (request wsid message))

unfoldable pub close_producer :
    Router → Guid → MediaMessage → Option Guid → Option Guid → List Effect
unfolding if_type send_egress send_ingress
close_producer r wsid message ingress_id egress_id =
    let signal = request wsid message in
    if_type "producerClose" message
      (send_egress r egress_id signal ++ send_ingress r ingress_id signal)

-- `restartIce`
unfoldable pub request_restart_ice :
    Router → Guid → MediaMessage → Option Guid → Option Guid → List Effect
unfolding send_egress send_ingress
request_restart_ice r wsid message ingress_id egress_id =
    let signal = request wsid message in
    if truthy egress_id
    then send_egress r egress_id signal
    else if truthy ingress_id
    then send_ingress r ingress_id signal
    else []

unfoldable pub close_egress_transport : Router → Guid → MediaMessage → Option Guid → List Effect
unfolding send_egress
close_egress_transport r wsid message server_id = send_egress r server_id (request wsid message)

unfoldable pub close_ingress_transport : Router → Guid → MediaMessage → Option Guid → List Effect
unfolding if_type send_ingress
close_ingress_transport r wsid message server_id =
    if_type "disconnectTransport" message (send_ingress r server_id (request wsid message))

abbrev close_route : Router → Option Room → Signal → List Effect
close_route r none signal = []
close_route r (some route) signal =
    send_each (send_ingress r) route.ingress signal
    ++ (send_each (send_egress r) route.egress signal
        ++ send_each (send_movement r) route.movement signal)

unfoldable pub close_room : Router → Guid → MediaMessage → Option String → List Effect
unfolding if_type lookup send_each send_ingress send_egress send_movement
close_room r wsid message router_network =
    if_type "destroyRouterGroup" message
      (close_route r (lookup (property_key router_network) r.routing_table) (request wsid message))
