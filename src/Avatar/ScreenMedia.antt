-- ===== src/Avatar/ScreenMedia.antt =====
-- frame/webapp/core/avatar.ts: the tracks of the avatar's screen (`addScreenMedia`).
use frame_oldbackend_public.Prelude.{
  String, true, false, Option, none, some, [], ◌∷◌, ◌==◌, if◌then◌else◌, truthy,
}
use frame_oldbackend_public.Prelude.Maps.{lookup, insert, erase}
use frame_oldbackend_public.Types.{Guid}
use frame_oldbackend_public.Types.Commands.{producer_close}
use frame_oldbackend_public.Avatar.State.{
  Handle, Producer, Track, absent, off, on, track, closed, hardware_enabled, awaiting_screen_audio,
  awaiting_screen_video, Avatar, perform, send,
}
use frame_oldbackend_public.Avatar.Media.{produce}

-- `undefined`, which JSON leaves out, is the empty text.
abbrev id_or_empty : Option Guid → Guid
id_or_empty none = ""
id_or_empty (some id) = id

-- `none` stands for a TypeError, where there is no producer to close, and for a return.
unfoldable pub add_screen_audio : Track → String → Avatar → Option Avatar
unfolding lookup erase send
add_screen_audio absent device_id a = some a
add_screen_audio on device_id a = some a
add_screen_audio off device_id a = elim (lookup device_id a.screen_audio_producer) [
  | none ↦ none
  | some p ↦
      let a1 = perform (hardware_enabled "screenAudio" false ∷ closed p.handle ∷ []) a in
      let id = id_or_empty (lookup device_id a1.screen_audio_producer_ids) in
      some (record (send (producer_close a1.avatar_id id "screenAudio") a1) {
        screen_audio_producer = erase device_id a1.screen_audio_producer;
      })
]
add_screen_audio (track kind source_id) device_id a =
    if kind == "audio"
    then elim a.producer_transport [
      | none ↦ none
      | some transport ↦
          some (produce transport "audio" "screenAudio" (awaiting_screen_audio source_id) a)
    ]
    else some a

unfoldable pub add_screen_video : Track → String → Avatar → Avatar
unfolding lookup erase send
add_screen_video absent device_id a = a
add_screen_video on device_id a = a
add_screen_video off device_id a =
    let a1 = perform (hardware_enabled "screenVideo" false ∷ []) a in
    elim (lookup device_id a.screen_video_producer) [
      | none ↦ a1
      | some p ↦
          let id = id_or_empty (lookup device_id a1.screen_video_producer_ids) in
          record (send (producer_close a1.avatar_id id "screenVideo")
            (perform (closed p.handle ∷ []) a1)) {
              screen_video_producer = erase device_id a1.screen_video_producer;
            }
    ]
add_screen_video (track kind source_id) device_id a =
    if kind == "video"
    then elim a.producer_transport [
      | none ↦ a
      | some transport ↦ produce transport "video" "screenVideo" (awaiting_screen_video source_id) a
    ]
    else a

-- What was done before the TypeError or the return.
abbrev pub screen_audio_begun : Track → Avatar → Avatar
screen_audio_begun off a = perform (hardware_enabled "screenAudio" false ∷ []) a
screen_audio_begun _ a = a

unfoldable pub add_screen_media : Track → Track → String → Avatar → Avatar
unfolding add_screen_audio add_screen_video
add_screen_media audio_stream video_stream device_id a =
    elim (add_screen_audio audio_stream device_id a) [
      | none ↦ screen_audio_begun audio_stream a
      | some a1 ↦ add_screen_video video_stream device_id a1
    ]

abbrev screen_producer : String → Handle → Producer
screen_producer kind producer = record { handle = producer; kind = kind; paused = false }

unfoldable pub on_screen_audio : Option String → Handle → Avatar → Avatar
unfolding insert
on_screen_audio none producer a = a
on_screen_audio (some device_id) producer a =
    if truthy (some device_id)
    then perform (hardware_enabled "screenAudio" true ∷ []) (record a {
      screen_audio_producer =
          insert device_id (screen_producer "audio" producer) a.screen_audio_producer;
    })
    else a

unfoldable pub on_screen_video : Option String → Handle → Avatar → Avatar
unfolding insert
on_screen_video none producer a = a
on_screen_video (some device_id) producer a =
    if truthy (some device_id)
    then perform (hardware_enabled "screenVideo" true ∷ []) (record a {
      screen_video_producer =
          insert device_id (screen_producer "video" producer) a.screen_video_producer;
    })
    else a
