-- ===== src/Avatar/Media.antt =====
-- frame/webapp/core/avatar.ts: the avatar's own tracks (`addMedia`, `setMediaState`).
use frame_oldbackend_public.Prelude.{
  String, Bool, true, false, not, Option, none, some, List, [], ◌∷◌, ◌==◌, if◌then◌else◌, truthy,
}
use frame_oldbackend_public.Types.{Guid}
use frame_oldbackend_public.Types.Commands.{producer_close, mute_producer, resume_producer}
use frame_oldbackend_public.Avatar.State.{
  Handle, Producer, Track, absent, off, on, track, ClientEffect, closed, paused, resumed, producing,
  removed_track, hardware_enabled, audio_muted, Task, awaiting_microphone, awaiting_webcam, Avatar,
  perform, send, add_task,
}

-- `producerTransport.produce`, whose promise the task awaits.
abbrev pub produce : Handle → String → String → Task → Avatar → Avatar
produce transport kind source task a =
    add_task task (perform (producing transport kind source ∷ []) a)

-- `none` stands for a return before the video track is looked at.
abbrev pub audio_track : Option Producer → List ClientEffect
audio_track none = []
audio_track (some p) = closed p.handle ∷ []

unfoldable pub add_audio : Track → Avatar → Option Avatar
add_audio absent a = some a
add_audio on a = some a
add_audio off a = some (
    perform
      (hardware_enabled "microphone" false
        ∷ elim a.audio_producer [ none ↦ [] | some p ↦ removed_track p.handle ∷ [] ])
      a)
add_audio (track kind device_id) a =
    if kind == "audio"
    then (let a1 = perform (audio_track a.audio_producer) a in
        if a1.audio_produced then some a1 else elim a1.producer_transport [
          | none ↦ none
          | some transport ↦ some (
              produce transport "audio" "microphone" awaiting_microphone
                (record a1 { audio_produced = true }))
        ])
    else some a

-- The video producer is closed here and at the media server.
abbrev close_webcam : Option Producer → Option Guid → Avatar → Avatar
unfolding send
close_webcam none id a = a
close_webcam (some p) none a = a
close_webcam (some p) (some id) a =
    if truthy (some id)
    then record (send (producer_close a.avatar_id id "webCam") (perform (closed p.handle ∷ []) a)) {
      video_producer = none;
    }
    else a

unfoldable pub add_video : Track → Avatar → Avatar
unfolding send
add_video absent a = a
add_video on a = a
add_video off a =
    close_webcam a.video_producer a.video_producer_id
      (perform (hardware_enabled "camera" false ∷ []) a)
add_video (track kind device_id) a =
    if kind == "video"
    then elim a.producer_transport [
      | none ↦ a
      | some transport ↦ produce transport "video" "webcam" awaiting_webcam a
    ]
    else a

-- `addMedia`, for the streams that are given or that the stream manager has supplied. A return before
-- the video track leaves what was done to the audio producer.
unfoldable pub add_media : Track → Track → Avatar → Avatar
unfolding add_audio add_video
add_media audio_stream video_stream a = elim (add_audio audio_stream a) [
  | none ↦ perform (audio_track a.audio_producer) a
  | some a1 ↦ add_video video_stream a1
]

-- The promises of `produce` are fulfilled.
unfoldable pub on_microphone : Handle → Avatar → Avatar
on_microphone producer a =
    perform (hardware_enabled "microphone" true ∷ audio_muted false ∷ []) (record a {
      audio_producer = some (record { handle = producer; kind = "audio"; paused = false });
      audio_produced = false;
    })

unfoldable pub on_webcam : Handle → Avatar → Avatar
on_webcam producer a = perform (hardware_enabled "camera" true ∷ []) (record a {
  video_producer = some (record { handle = producer; kind = "video"; paused = false });
})

-- The microphone is muted or unmuted, at the media server and here.
abbrev set_audio_paused : Bool → Option Producer → Option Guid → Avatar → Avatar
unfolding send
set_audio_paused pause none id a = a
set_audio_paused pause (some p) none a = a
set_audio_paused pause (some p) (some id) a =
    if truthy (some id)
    then (let message =
          if pause
          then mute_producer a.avatar_id id p.kind
          else resume_producer a.avatar_id id p.kind in
        perform ((if pause then paused p.handle else resumed p.handle) ∷ [])
          (record (send message a) { audio_producer = some (record p { paused = pause }) }))
    else a

abbrev set_audio : Option Bool → Avatar → Avatar
unfolding send
set_audio none a = a
set_audio (some state) a =
    set_audio_paused (not state) a.audio_producer a.audio_producer_id
      (perform (hardware_enabled "microphone" state ∷ []) a)

abbrev is_audio_paused : Option Producer → Bool
is_audio_paused none = false
is_audio_paused (some p) = p.paused

abbrev set_video : Option Bool → Avatar → Avatar
set_video none a = a
set_video (some state) a =
    let a1 = perform (hardware_enabled "camera" state ∷ []) a in
    elim a.video_producer [
      | none ↦ a1
      | some p ↦
          perform ((if state then resumed p.handle else paused p.handle) ∷ [])
            (record a1 { video_producer = some (record p { paused = not state }) })
    ]

-- `setMediaState`, with the awaits of `pause` taken at once.
unfoldable pub set_media_state : Option Bool → Option Bool → Avatar → Avatar
unfolding send
set_media_state audio_state video_state a =
    let a1 = set_audio audio_state a in
    set_video video_state (perform (audio_muted (is_audio_paused a1.audio_producer) ∷ []) a1)
