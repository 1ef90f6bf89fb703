-- ===== src/Avatar/Events.antt =====
-- frame/webapp/core/avatar.ts: whatever may happen to an avatar, one event after the other.
use frame_oldbackend_public.Prelude.{ℕ, String, Bool, Option, List, [], ◌∷◌}
use frame_oldbackend_public.Types.{Guid, Json}
use frame_oldbackend_public.Avatar.MovementServer.{on_timeout, on_open, on_close}
use frame_oldbackend_public.Avatar.State.{Handle, Track, Avatar}
use frame_oldbackend_public.Avatar.Consumers.{mute_peer, mute_peer_screen, mute_peer_screen_audio}
use frame_oldbackend_public.Avatar.Leaving.{Page, Left, left, failed, leave_frame}
use frame_oldbackend_public.Avatar.Signals.{Signal, incoming_signal}
use frame_oldbackend_public.Avatar.Media.{add_media, set_media_state}
use frame_oldbackend_public.Avatar.ScreenMedia.{add_screen_media}
use frame_oldbackend_public.Avatar.Sources.{
  LocalTrack, LocalVideo, stop_media_source, change_media_source, change_screen_media_source,
}
use frame_oldbackend_public.Avatar.Participation.{
  connect, on_websocket_open, on_websocket_close, enter_frame, participate, hush_all, boot_user,
  on_connect_ingress, on_connect_egress, on_ingress_state, on_egress_state, on_produce,
  on_produce_data,
}
use frame_oldbackend_public.Avatar.FrameEvents.{
  set_frame_events_handler, remove_frame_events_handler, on_frame_event,
}
use frame_oldbackend_public.Avatar.Tasks.{resume, resolve, reject, with_task}

pub data Event : Type 0 where
  -- of the signaling websocket
  signal : Signal → Event
  websocket_open : (region : String) → Event
  websocket_close : (was_clean : Bool) (frame_name : String) → Event
  -- A task goes on, or its promise is fulfilled or rejected.
  resumed : (task : ℕ) → Event
  resolved : (task : ℕ) (object : Handle) → Event
  rejected : (task : ℕ) → Event
  -- of the transports
  connect_ingress : (dtls_parameters : Json) → Event
  connect_egress : (dtls_parameters : Json) (egress : Option Guid) → Event
  ingress_state egress_state : (state : String) → Event
  produce : (kind : String) (options : Json) (source device_id : String) → Event
  produce_data : (label : String) (options : Json) → Event
  frame_event : (type : String) (message : Json) → Event
  -- of the movement server's websocket and timer
  movement_timeout movement_open : ℕ → Event
  movement_close : (was_clean : Bool) (socket : ℕ) → Event
  -- The harness calls a method.
  connects : Event
  enters : (frame_name : String) → Event
  leaves : (frame_name : String) → Page → Event
  participates : (moves emits : Bool) → Event
  adds_media : (audio_stream video_stream : Track) → Event
  adds_screen_media : (audio_stream video_stream : Track) (device_id : String) → Event
  sets_media_state : (audio_state video_state : Option Bool) → Event
  stops_media_source :
      (device_type : String) (audio_tracks : List LocalTrack) (video_track : Option Handle)
      (local_video : LocalVideo) (is_lobby : Bool)
      → Event
  changes_media_source :
      (track : Handle) (kind : String) (mute_state is_lobby : Bool) (local_video : LocalVideo)
      → Event
  changes_screen_media_source : (track : Handle) (kind : String) → Event
  mutes_peer mutes_peer_screen mutes_peer_screen_audio : (mute : Bool) (peer_id : Guid) → Event
  hushes : Event
  boots : (peer_id : Guid) → Event
  sets_events_handler removes_events_handler : (event_name : String) (func : ℕ) → Event

abbrev pub left_avatar : Left → Avatar
left_avatar (left a) = a
left_avatar (failed a) = a

unfoldable pub handle : Event → Avatar → Avatar
unfolding incoming_signal on_websocket_open on_websocket_close resume resolve reject with_task
    on_connect_ingress on_connect_egress on_ingress_state on_egress_state on_produce on_produce_data
    on_frame_event on_timeout on_open on_close connect enter_frame leave_frame participate add_media
    add_screen_media set_media_state stop_media_source change_media_source
    change_screen_media_source mute_peer mute_peer_screen mute_peer_screen_audio hush_all boot_user
    set_frame_events_handler remove_frame_events_handler
handle (signal s) a = incoming_signal s a
handle (websocket_open region) a = on_websocket_open region a
handle (websocket_close was_clean frame_name) a = on_websocket_close was_clean frame_name a
handle (resumed task) a = with_task task resume a
handle (resolved task object) a = with_task task (λ t. resolve t object) a
handle (rejected task) a = with_task task reject a
handle (connect_ingress dtls_parameters) a = on_connect_ingress dtls_parameters a
handle (connect_egress dtls_parameters egress) a = on_connect_egress dtls_parameters egress a
handle (ingress_state state) a = on_ingress_state state a
handle (egress_state state) a = on_egress_state state a
handle (produce kind options source device_id) a = on_produce kind options source device_id a
handle (produce_data label options) a = on_produce_data label options a
handle (frame_event type message) a = on_frame_event type message a
handle (movement_timeout timer) a = record a { link = on_timeout timer a.link }
handle (movement_open socket) a = record a { link = on_open socket a.link }
handle (movement_close was_clean socket) a = record a { link = on_close was_clean socket a.link }
handle connects a = connect a
handle (enters frame_name) a = enter_frame frame_name a
handle (leaves frame_name page) a = left_avatar (leave_frame frame_name page a)
handle (participates moves emits) a = participate moves emits a
handle (adds_media audio_stream video_stream) a = add_media audio_stream video_stream a
handle (adds_screen_media audio_stream video_stream device_id) a =
    add_screen_media audio_stream video_stream device_id a
handle (sets_media_state audio_state video_state) a = set_media_state audio_state video_state a
handle (stops_media_source device_type audio_tracks video_track local_video is_lobby) a =
    stop_media_source device_type audio_tracks video_track local_video is_lobby a
handle (changes_media_source track kind mute_state is_lobby local_video) a =
    change_media_source track kind mute_state is_lobby local_video a
handle (changes_screen_media_source track kind) a = change_screen_media_source track kind a
handle (mutes_peer mute peer_id) a = mute_peer mute peer_id a
handle (mutes_peer_screen mute peer_id) a = mute_peer_screen mute peer_id a
handle (mutes_peer_screen_audio mute peer_id) a = mute_peer_screen_audio mute peer_id a
handle hushes a = hush_all a
handle (boots peer_id) a = boot_user peer_id a
handle (sets_events_handler event_name func) a = set_frame_events_handler event_name func a
handle (removes_events_handler event_name func) a = remove_frame_events_handler event_name func a

unfoldable pub run : List Event → Avatar → Avatar
unfolding handle
run [] a = a
run (event ∷ events) a = run events (handle event a)
