-- ===== src/Avatar/Muting/Untouched.antt =====
-- frame/webapp/core/avatar.ts: the methods that leave the audio consumers and their states alone.
use frame_oldbackend_public.Prelude.{
  String, Bool, false, Option, none, some, ◌≡◌, refl, arith, Option-cases, inl, inr, not,
}
use frame_oldbackend_public.Types.{Guid}
use frame_oldbackend_public.Types.Commands.{RequestMessage}
use frame_oldbackend_public.Movement.Timer.{start_sending}
use frame_oldbackend_public.Avatar.State.{
  Handle, Producer, Track, absent, off, on, track, audio, video, movement, events, Avatar, send,
}
use frame_oldbackend_public.Avatar.Consumers.{
  mute_peer_screen, mute_peer_screen_audio, close_consumers_for_peer,
}
use frame_oldbackend_public.Avatar.Signals.{
  Signal, identity, joined_room, announcement, produced_media, peer_disconnect, join_loaded, joined,
  announced, on_produced_media, incoming_signal, AppData,
}
use frame_oldbackend_public.Avatar.Media.{add_audio, add_video, add_media, set_media_state}
use frame_oldbackend_public.Avatar.ScreenMedia.{
  add_screen_audio, add_screen_video, add_screen_media, on_screen_audio, on_screen_video,
  screen_audio_begun,
}
use frame_oldbackend_public.Avatar.Participation.{
  get_announcements, emit_events, begin_sending, on_movement_producer, on_events_producer,
  on_media_id, on_data_id,
}

-- The audio consumers and their states are the same.
abbrev pub IsUntouched : Avatar → Avatar → Type 0
IsUntouched a b =
    (b.audio_consumers ≡ a.audio_consumers) × (b.audio_consumer_state ≡ a.audio_consumer_state)

pub send-IsUntouched : (m : RequestMessage) (a : Avatar) → IsUntouched a (send m a)
unfolding send
send-IsUntouched m a = ground arith

pub mute_peer_screen-IsUntouched :
    (mute : Bool) (peer_id : Guid) (a : Avatar) → IsUntouched a (mute_peer_screen mute peer_id a)
unfolding mute_peer_screen
mute_peer_screen-IsUntouched mute peer_id a = ground arith

pub mute_peer_screen_audio-IsUntouched :
    (mute : Bool) (peer_id : Guid) (a : Avatar)
    → IsUntouched a (mute_peer_screen_audio mute peer_id a)
unfolding mute_peer_screen_audio
mute_peer_screen_audio-IsUntouched mute peer_id a = ground arith

pub close_consumers_for_peer-IsUntouched :
    (peer_id : Guid) (a : Avatar) → IsUntouched a (close_consumers_for_peer peer_id a)
unfolding close_consumers_for_peer
close_consumers_for_peer-IsUntouched peer_id a = ground arith

pub join_loaded-IsUntouched :
    (ingress : Bool) (egress : Option Guid) (moves : Bool)
    (server_info : Option (Option String × Option String)) (a : Avatar)
    → IsUntouched a (join_loaded ingress egress moves server_info a)
unfolding join_loaded
join_loaded-IsUntouched ingress egress moves server_info a = ground arith

pub joined-IsUntouched :
    (capabilities ingress : Bool) (egress : Option Guid) (moves : Bool)
    (server_info : Option (Option String × Option String)) (a : Avatar)
    → IsUntouched a (joined capabilities ingress egress moves server_info a)
unfolding joined
joined-IsUntouched capabilities ingress egress moves server_info a =
    ground (arith, join_loaded-IsUntouched ingress egress moves server_info a)

pub on_produced_media-IsUntouched :
    (id : Guid) (d : AppData) (a : Avatar) → IsUntouched a (on_produced_media id d a)
unfolding on_produced_media
on_produced_media-IsUntouched id d a = ground arith

pub incoming_signal-IsUntouched : (s : Signal) (a : Avatar) → IsUntouched a (incoming_signal s a)
unfolding incoming_signal announced
incoming_signal-IsUntouched (identity id) a = (refl, refl)
incoming_signal-IsUntouched (joined_room c i e m s) a = joined-IsUntouched c i e m s a
incoming_signal-IsUntouched (announcement audio items) a = ground arith
incoming_signal-IsUntouched (announcement video items) a = ground arith
incoming_signal-IsUntouched (announcement movement items) a = ground arith
incoming_signal-IsUntouched (announcement events items) a = ground arith
incoming_signal-IsUntouched (produced_media id d) a = on_produced_media-IsUntouched id d a
incoming_signal-IsUntouched (peer_disconnect peer) a = close_consumers_for_peer-IsUntouched peer a
incoming_signal-IsUntouched _ a = (refl, refl)

add_audio-IsUntouched : (t : Track) (a b : Avatar) → add_audio t a ≡ some b → IsUntouched a b
unfolding add_audio
add_audio-IsUntouched absent a b e = ground arith
add_audio-IsUntouched on a b e = ground arith
add_audio-IsUntouched off a b e = ground arith
add_audio-IsUntouched (track kind device_id) a b e = ground arith

add_video-IsUntouched : (t : Track) (a : Avatar) → IsUntouched a (add_video t a)
unfolding add_video
add_video-IsUntouched absent a = (refl, refl)
add_video-IsUntouched on a = (refl, refl)
add_video-IsUntouched off a = ground arith
add_video-IsUntouched (track kind device_id) a = ground arith

pub add_media-IsUntouched : (s t : Track) (a : Avatar) → IsUntouched a (add_media s t a)
unfolding add_media
add_media-IsUntouched s t a = elim (Option-cases (add_audio s a)) [
  | inl e ↦ rw (e, add_media) (refl, refl)
  | inr (b, e) ↦
      rw (e, add_media) (ground (arith, add_audio-IsUntouched s a b e, add_video-IsUntouched t b))
]

add_screen_audio-IsUntouched :
    (t : Track) (d : String) (a b : Avatar) → add_screen_audio t d a ≡ some b → IsUntouched a b
unfolding add_screen_audio
add_screen_audio-IsUntouched absent d a b e = ground arith
add_screen_audio-IsUntouched on d a b e = ground arith
add_screen_audio-IsUntouched off d a b e = ground arith
add_screen_audio-IsUntouched (track kind device_id) d a b e = ground arith

add_screen_video-IsUntouched :
    (t : Track) (d : String) (a : Avatar) → IsUntouched a (add_screen_video t d a)
unfolding add_screen_video
add_screen_video-IsUntouched absent d a = (refl, refl)
add_screen_video-IsUntouched on d a = (refl, refl)
add_screen_video-IsUntouched off d a = ground arith
add_screen_video-IsUntouched (track kind device_id) d a = ground arith

pub add_screen_media-IsUntouched :
    (s t : Track) (d : String) (a : Avatar) → IsUntouched a (add_screen_media s t d a)
unfolding add_screen_media
add_screen_media-IsUntouched s t d a = elim (Option-cases (add_screen_audio s d a)) [
  | inl e ↦ rw (e, add_screen_media) (begun s)
  | inr (b, e) ↦
      rw (e, add_screen_media)
        (ground (arith, add_screen_audio-IsUntouched s d a b e, add_screen_video-IsUntouched t d b))
]
  where
    begun : (s : Track) → IsUntouched a (screen_audio_begun s a)
    begun off = (refl, refl)
    begun absent = (refl, refl)
    begun on = (refl, refl)
    begun (track kind device_id) = (refl, refl)

pub set_media_state-IsUntouched :
    (s t : Option Bool) (a : Avatar) → IsUntouched a (set_media_state s t a)
unfolding set_media_state
set_media_state-IsUntouched s t a = ground arith

pub on_screen-IsUntouched :
    (d : Option String) (h : Handle) (a : Avatar)
    → IsUntouched a (on_screen_audio d h a) × IsUntouched a (on_screen_video d h a)
unfolding on_screen_audio on_screen_video
on_screen-IsUntouched none h a = ((refl, refl), (refl, refl))
on_screen-IsUntouched (some d) h a = ground arith

pub get_announcements-IsUntouched : (b : Bool) (a : Avatar) → IsUntouched a (get_announcements b a)
unfolding get_announcements
get_announcements-IsUntouched b a = ground arith

pub emit_events-IsUntouched : (e s : Bool) (a : Avatar) → IsUntouched a (emit_events e s a)
unfolding emit_events
emit_events-IsUntouched e s a = ground (arith, get_announcements-IsUntouched s a)

pub begin_sending-IsUntouched : (m e : Bool) (a : Avatar) → IsUntouched a (begin_sending m e a)
unfolding begin_sending
begin_sending-IsUntouched m e a = ground (
  arith,
  emit_events-IsUntouched e (not e) a,
  emit_events-IsUntouched e false a,
  emit_events-IsUntouched e false (record a { avatar_mover = start_sending a.avatar_mover }),
)

pub on_data_producer-IsUntouched :
    (b : Bool) (h : Handle) (a : Avatar)
    → IsUntouched a (on_movement_producer b h a) × IsUntouched a (on_events_producer b h a)
unfolding on_movement_producer on_events_producer
on_data_producer-IsUntouched b h a =
    let p : Producer = record { handle = h; kind = ""; paused = false } in
    let moving = record a {
      avatar_mover = start_sending a.avatar_mover;
      movement_producer = some p;
    } in
    (
      emit_events-IsUntouched b false moving,
      get_announcements-IsUntouched b (record a { frame_events_producer = some p }),
    )

pub on_media_id-IsUntouched :
    (s d : String) (a b : Avatar) → on_media_id s d a ≡ some b → IsUntouched a b
unfolding on_media_id
on_media_id-IsUntouched s d a b e = ground arith

pub on_data_id-IsUntouched : (s : String) (a b : Avatar) → on_data_id s a ≡ some b → IsUntouched a b
unfolding on_data_id
on_data_id-IsUntouched s a b e = ground arith
