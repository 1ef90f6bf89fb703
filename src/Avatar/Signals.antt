-- ===== src/Avatar/Signals.antt =====
-- frame/webapp/core/avatar.ts: `incomingSignal`, with what its awaits leave for later.
use frame_oldbackend_public.Prelude.{
  String, Bool, true, false, not, ◌&&◌, ◌||◌, Option, none, some, List, [], ◌∷◌, ◌++◌, ◌==◌, map,
  if◌then◌else◌, truthy,
}
use frame_oldbackend_public.Prelude.Maps.{Map, insert}
use frame_oldbackend_public.Types.{Guid, Json}
use frame_oldbackend_public.Types.Commands.{create_ingress_transport, create_egress_transport}
use frame_oldbackend_public.Avatar.State.{
  Announcement, audio, video, movement, events, Announced, ClientEffect, identity_handled,
  disconnect_handled, hushed_handled, audio_state_handled, video_state_handled, indicators_handled,
  count_handled, sent_home, awaiting_connection, awaiting_device, awaiting_ingress, awaiting_egress,
  Avatar, perform, send, add_task,
}
use frame_oldbackend_public.Avatar.Consumers.{close_consumers_for_peer}
use frame_oldbackend_public.Avatar.MovementServer.{
  connect_regional_movement_server, connect_undefined,
}

-- The source of what was produced, with the device of a screen.
pub record AppData : Type 0 where
  pub source : String
  pub device_id : String

-- `CommunicationResponse`
pub data Signal : Type 0 where
  identity : (id : Guid) → Signal
  joined_room :
      (capabilities : Bool) (ingress : Bool) (egress : Option Guid) (movement : Bool)
      (server_info : Option (Option String × Option String))
      → Signal
  created_ingress_transport : Signal
  created_egress_transport : (id : Guid) → Signal
  announcement : Announcement → Announced → Signal
  produced_media : (id : Guid) → AppData → Signal
  produced_data produced_events : (data_producer_id : Guid) → Signal
  peer_disconnect : (peer : Guid) → Signal
  set_consumer_state : (peer_id : Guid) (state type : String) → Signal
  hushed : (peer_id : Guid) → Signal
  peer_indicators peer_indicators_reply : (peer_id : Guid) (indicators : Json) → Signal
  peer_count : Map Json → Signal
  boot_user : Signal
  -- What is only logged, and what is not JSON
  other : Signal

-- `joinedRoom`, once the device is loaded. What the device can do is read, which throws before it is
-- loaded; what is thrown is caught around the whole handler.
abbrev requests : Bool → Option Guid → Avatar → Avatar
unfolding send
requests ingress egress a =
    let a1 =
      if ingress
      then send (create_ingress_transport a.avatar_id a.num_streams a.rtp_capabilities) a
      else a in
    if truthy egress
    then send (create_egress_transport a.avatar_id a.num_streams a.rtp_capabilities egress) a1
    else a1

unfoldable pub join_loaded :
    Bool → Option Guid → Bool → Option (Option String × Option String) → Avatar → Avatar
unfolding send connect_regional_movement_server connect_undefined
join_loaded ingress egress moves server_info a =
    if (ingress || truthy egress) && not a.device_loaded
    then a
    else (let a1 = requests ingress egress a in
        if moves
        then elim server_info [
          | none ↦ record a1 { link = connect_undefined a1.link }
          | some (host, room) ↦ record a1 {
            link = connect_regional_movement_server host room a1.link;
            consumer_connected = true;
          }
        ]
        else record a1 { consumer_connected = true })

unfoldable pub joined :
    Bool → Bool → Option Guid → Bool → Option (Option String × Option String) → Avatar → Avatar
unfolding join_loaded
joined capabilities ingress egress moves server_info a =
    if not a.device_loaded && capabilities
    then add_task (awaiting_device ingress egress moves server_info) a
    else join_loaded ingress egress moves server_info a

-- The lobby takes no announcements but those of events.
abbrev pub is_refused : Announcement → Avatar → Bool
is_refused audio a = a.lobby
is_refused video a = a.lobby
is_refused movement a = a.lobby
is_refused events a = false

unfoldable pub announced : Announcement → Announced → Avatar → Avatar
announced kind items a =
    if is_refused kind a then a else add_task (awaiting_connection kind items) a

unfoldable pub on_produced_media : Guid → AppData → Avatar → Avatar
unfolding insert
on_produced_media id app_data a =
    if app_data.source == "microphone"
    then record a { audio_producer_id = some id }
    else if app_data.source == "webcam"
    then record a { video_producer_id = some id }
    else if app_data.source == "screenVideo"
    then record a {
      screen_video_producer_ids = insert app_data.device_id id a.screen_video_producer_ids;
    }
    else if app_data.source == "screenAudio"
    then record a {
      screen_audio_producer_ids = insert app_data.device_id id a.screen_audio_producer_ids;
    }
    else a

abbrev state_effects : Guid → String → String → List ClientEffect
state_effects peer_id state type =
    (if type == "audio" then audio_state_handled peer_id state ∷ [] else [])
    ++ (if type == "video" then video_state_handled peer_id state ∷ [] else [])

-- `incomingSignal`, as far as its first await.
unfoldable pub incoming_signal : Signal → Avatar → Avatar
unfolding joined announced on_produced_media close_consumers_for_peer
incoming_signal (identity id) a = perform (identity_handled id ∷ []) (record a { avatar_id = id })
incoming_signal (joined_room capabilities ingress egress moves server_info) a =
    joined capabilities ingress egress moves server_info a
incoming_signal created_ingress_transport a = add_task awaiting_ingress a
incoming_signal (created_egress_transport id) a = add_task (awaiting_egress id a.collection) a
incoming_signal (announcement kind items) a = announced kind items a
incoming_signal (produced_media id app_data) a = on_produced_media id app_data a
incoming_signal (produced_data id) a = record a { movement_producer_id = some id }
incoming_signal (produced_events id) a = record a { frame_events_producer_id = some id }
incoming_signal (peer_disconnect peer) a =
    perform (disconnect_handled peer ∷ []) (close_consumers_for_peer peer a)
incoming_signal (set_consumer_state peer_id state type) a =
    perform (state_effects peer_id state type) a
incoming_signal (hushed peer_id) a = perform (hushed_handled peer_id ∷ []) a
incoming_signal (peer_indicators peer_id indicators) a =
    perform (indicators_handled peer_id indicators true ∷ []) a
incoming_signal (peer_indicators_reply peer_id indicators) a =
    perform (indicators_handled peer_id indicators false ∷ []) a
incoming_signal (peer_count counts) a = perform (map (λ c. count_handled c.0 c.1) counts) a
incoming_signal boot_user a = perform (sent_home ∷ []) a
incoming_signal other a = a
