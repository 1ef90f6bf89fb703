-- ===== src/Avatar/Muting/Run.antt =====
-- frame/webapp/core/avatar.ts: muted peers stay muted through any run.
use frame_oldbackend_public.Prelude.{String, List, [], ◌∷◌, arith}
use frame_oldbackend_public.Prelude.Maps.{lookup}
use frame_oldbackend_public.Avatar.State.{Avatar, send}
use frame_oldbackend_public.Avatar.Leaving.{Page, leave_cleanup, leave_frame}
use frame_oldbackend_public.Avatar.Tasks.{resume, resolve, reject}
use frame_oldbackend_public.Avatar.Sources.{
  stop_media_source, change_media_source, change_screen_media_source,
}
use frame_oldbackend_public.Avatar.Participation.{
  connect, on_websocket_open, on_websocket_close, enter_frame, participate, hush_all, boot_user,
  on_connect_ingress, on_connect_egress, on_ingress_state, on_egress_state, on_produce,
  on_produce_data,
}
use frame_oldbackend_public.Avatar.FrameEvents.{
  set_frame_events_handler, remove_frame_events_handler, on_frame_event,
}
use frame_oldbackend_public.Avatar.Events.{
  Event, signal, resumed, resolved, rejected, leaves, adds_media, adds_screen_media,
  sets_media_state, mutes_peer, mutes_peer_screen, mutes_peer_screen_audio, left_avatar, handle,
  run,
}
use frame_oldbackend_public.Avatar.Muting.{
  AreMuted, IsUntouched-AreMuted, mute_peer-AreMuted, with_task-AreMuted, resume-AreMuted,
  resolve-AreMuted, reject-AreMuted,
}
use frame_oldbackend_public.Avatar.Muting.Untouched.{
  incoming_signal-IsUntouched, add_media-IsUntouched, add_screen_media-IsUntouched,
  set_media_state-IsUntouched, mute_peer_screen-IsUntouched, mute_peer_screen_audio-IsUntouched,
}

-- Leaving either forgets all consumers or stops before that.
leave_frame-AreMuted :
    (frame_name : String) (page : Page) (a : Avatar)
    → AreMuted a
    → AreMuted (left_avatar (leave_frame frame_name page a))
unfolding leave_frame leave_cleanup lookup send
leave_frame-AreMuted frame_name page a h id c e = ground (arith, h id c)

handle-AreMuted : (event : Event) (a : Avatar) → AreMuted a → AreMuted (handle event a)
unfolding handle on_websocket_open on_websocket_close on_connect_ingress on_connect_egress
    on_ingress_state on_egress_state on_produce on_produce_data on_frame_event connect enter_frame
    participate hush_all boot_user set_frame_events_handler remove_frame_events_handler
    stop_media_source change_media_source change_screen_media_source
handle-AreMuted (signal s) a h =
    IsUntouched-AreMuted a (handle (signal s) a) (incoming_signal-IsUntouched s a) h
handle-AreMuted (resumed task) a h = with_task-AreMuted task resume a resume-AreMuted h
handle-AreMuted (resolved task object) a h =
    with_task-AreMuted task (λ t. resolve t object) a (resolve-AreMuted object) h
handle-AreMuted (rejected task) a h = with_task-AreMuted task reject a reject-AreMuted h
handle-AreMuted (leaves frame_name page) a h = leave_frame-AreMuted frame_name page a h
handle-AreMuted (mutes_peer mute peer_id) a h = mute_peer-AreMuted mute peer_id a h
handle-AreMuted (adds_media s t) a h =
    IsUntouched-AreMuted a (handle (adds_media s t) a) (add_media-IsUntouched s t a) h
handle-AreMuted (adds_screen_media s t d) a h =
    IsUntouched-AreMuted a (handle (adds_screen_media s t d) a)
      (add_screen_media-IsUntouched s t d a) h
handle-AreMuted (sets_media_state s t) a h =
    IsUntouched-AreMuted a (handle (sets_media_state s t) a) (set_media_state-IsUntouched s t a) h
handle-AreMuted (mutes_peer_screen mute peer_id) a h =
    IsUntouched-AreMuted a (handle (mutes_peer_screen mute peer_id) a)
      (mute_peer_screen-IsUntouched mute peer_id a) h
handle-AreMuted (mutes_peer_screen_audio mute peer_id) a h =
    IsUntouched-AreMuted a (handle (mutes_peer_screen_audio mute peer_id) a)
      (mute_peer_screen_audio-IsUntouched mute peer_id a) h
handle-AreMuted event a h = IsUntouched-AreMuted a (handle event a) (ground arith) h

-- Whatever happens, and in whatever order: if the microphone of each peer is paused exactly if the
-- user has muted the peer, it is so afterwards. A microphone that arrives late is paused if its peer
-- was muted before.
pub run-AreMuted : (events : List Event) (a : Avatar) → AreMuted a → AreMuted (run events a)
unfolding run
run-AreMuted [] a h = h
run-AreMuted (event ∷ events) a h = run-AreMuted events (handle event a) (handle-AreMuted event a h)
