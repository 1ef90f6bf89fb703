-- ===== src/Avatar/Sources.antt =====
-- frame/webapp/core/avatar.ts: `stopMediaSource`, `changeMediaSource` and `changeScreenMediaSource`.
use frame_oldbackend_public.Prelude.{
  String, Bool, true, not, ◌&&◌, Option, none, some, List, [], ◌∷◌, ◌++◌, ◌==◌, if◌then◌else◌,
}
use frame_oldbackend_public.Avatar.State.{
  Handle, Producer, ClientEffect, paused, removed_track, replaced_track, stopped_track, shown,
  Avatar, perform,
}

-- A track of the device or of the page, by its identity; `is_live` is `readyState == "live"`.
pub record LocalTrack : Type 0 where
  pub identity : Handle
  pub kind : String
  pub is_live : Bool

-- The tracks of a kind, of those that pass the test, are stopped.
unfoldable pub stop_tracks : (LocalTrack → Bool) → List LocalTrack → List ClientEffect
stop_tracks test [] = []
stop_tracks test (t ∷ tracks) =
    let rest = stop_tracks test tracks in if test t then stopped_track t.identity ∷ rest else rest

-- `producer?.replaceTrack({ track })`; without a track it is null.
abbrev pub replace_track : Option Handle → Option Producer → List ClientEffect
replace_track track none = []
replace_track none (some p) = removed_track p.handle ∷ []
replace_track (some track) (some p) = replaced_track p.handle track ∷ []

-- What the page's element of the webcam shows, if there is one that shows something.
abbrev pub LocalVideo : Type 0
LocalVideo = Option (List LocalTrack)

abbrev stop_local : (LocalTrack → Bool) → LocalVideo → List ClientEffect
unfolding stop_tracks
stop_local test none = []
stop_local test (some tracks) = stop_tracks test tracks

-- `audio_tracks` are those of `mediaStream.audioTrack`, none if that is undefined.
unfoldable pub stop_media_source :
    String → List LocalTrack → Option Handle → LocalVideo → Bool → Avatar → Avatar
unfolding stop_tracks
stop_media_source device_type audio_tracks video_track local_video is_lobby a =
    if device_type == "audio"
    then perform
        (stop_tracks (λ t. t.is_live && (t.kind == "audio")) audio_tracks
          ++ replace_track none a.audio_producer)
        a
    else if device_type == "video"
    then perform
        (elim video_track [
          | none ↦ []
          | some track ↦ stop_local (λ t. true) local_video ++ (stopped_track track ∷ [])
        ]
          ++ (if is_lobby then [] else replace_track none a.video_producer))
        a
    else a

-- `producer?.pause()`
abbrev pause_effect : Option Producer → List ClientEffect
pause_effect none = []
pause_effect (some p) = paused p.handle ∷ []

abbrev paused_producer : Option Producer → Option Producer
paused_producer none = none
paused_producer (some p) = some (record p { paused = true })

-- The element of the webcam stops the audio tracks of what it showed, and shows the new track.
abbrev show_locally : Handle → LocalVideo → List ClientEffect
unfolding stop_tracks
show_locally track none = []
show_locally track (some tracks) = stop_tracks (λ t. t.kind == "audio") tracks ++ (shown track ∷ [])

unfoldable pub change_media_source : Handle → String → Bool → Bool → LocalVideo → Avatar → Avatar
unfolding stop_tracks
change_media_source track kind mute_state is_lobby local_video a =
    if kind == "audio"
    then (let a1 =
          if is_lobby then a else perform (replace_track (some track) a.audio_producer) a in
        if mute_state && not is_lobby
        then perform (pause_effect a1.audio_producer)
            (record a1 { audio_producer = paused_producer a1.audio_producer })
        else a1)
    else if kind == "video"
    then (let a1 =
          perform
            (show_locally track local_video
              ++ (if is_lobby then [] else replace_track (some track) a.video_producer))
            a in
        if mute_state && not is_lobby
        then perform (pause_effect a1.video_producer)
            (record a1 { video_producer = paused_producer a1.video_producer })
        else a1)
    else a

-- The producers are those of the microphone and of the webcam.
unfoldable pub change_screen_media_source : Handle → String → Avatar → Avatar
change_screen_media_source track kind a =
    if kind == "audio"
    then perform (replace_track (some track) a.audio_producer) a
    else if kind == "video"
    then perform (replace_track (some track) a.video_producer) a
    else a
