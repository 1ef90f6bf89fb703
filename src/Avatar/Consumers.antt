-- ===== src/Avatar/Consumers.antt =====
-- frame/webapp/core/avatar.ts: the consumers of a peer are paused, resumed and closed.
use frame_oldbackend_public.Prelude.{
  Bool, true, false, Option, none, some, List, [], ◌∷◌, ◌++◌, map,
}
use frame_oldbackend_public.Prelude.Maps.{lookup, insert, erase}
use frame_oldbackend_public.Types.{Guid}
use frame_oldbackend_public.Avatar.State.{
  Consumer, ClientEffect, closed, paused, resumed, Avatar, perform,
}

-- `pause` and `resume` of a consumer, and the call.
abbrev pub set_paused : Bool → Consumer → Consumer
set_paused mute consumer = record consumer { paused = mute }

abbrev pub mute_effect : Bool → Consumer → ClientEffect
mute_effect true consumer = paused consumer.handle
mute_effect false consumer = resumed consumer.handle

unfoldable pub mute_peer : Bool → Guid → Avatar → Avatar
unfolding lookup insert
mute_peer mute peer_id a =
    let a1 = record a { audio_consumer_state = insert peer_id mute a.audio_consumer_state } in
    elim (lookup peer_id a.audio_consumers) [
      | none ↦ a1
      | some consumer ↦ perform (mute_effect mute consumer ∷ []) (record a1 {
        audio_consumers = insert peer_id (set_paused mute consumer) a.audio_consumers;
      })
    ]

-- The screens of a peer, whatever the consumer's id.
unfoldable pub mute_peer_screen : Bool → Guid → Avatar → Avatar
unfolding lookup insert
mute_peer_screen mute peer_id a = elim (lookup peer_id a.screen_video_consumers) [
  | none ↦ a
  | some consumers ↦ perform (map (mute_effect mute) consumers) (record a {
    screen_video_consumers =
        insert peer_id (map (set_paused mute) consumers) a.screen_video_consumers;
  })
]

unfoldable pub mute_peer_screen_audio : Bool → Guid → Avatar → Avatar
unfolding lookup insert
mute_peer_screen_audio mute peer_id a = elim (lookup peer_id a.screen_audio_consumers) [
  | none ↦ a
  | some consumers ↦ perform (map (mute_effect mute) consumers) (record a {
    screen_audio_consumers =
        insert peer_id (map (set_paused mute) consumers) a.screen_audio_consumers;
  })
]

-- `consumers?.forEach((consumer) => consumer.close())` and `consumer?.close()`
abbrev pub close_all : List Consumer → List ClientEffect
close_all = map (λ c. closed c.handle)

abbrev pub close_listed : Option (List Consumer) → List ClientEffect
close_listed none = []
close_listed (some consumers) = close_all consumers

abbrev pub close_one : Option Consumer → List ClientEffect
close_one none = []
close_one (some consumer) = closed consumer.handle ∷ []

-- The entries of the audio and the video consumer stay.
unfoldable pub close_consumers_for_peer : Guid → Avatar → Avatar
unfolding lookup erase
close_consumers_for_peer peer_id a = elim (lookup peer_id a.movement_consumers) [
  | none ↦ a
  | some consumers ↦
      perform
        (close_all consumers
          ++ (close_listed (lookup peer_id a.frame_events_consumers)
              ++ (close_one (lookup peer_id a.audio_consumers)
                  ++ (close_one (lookup peer_id a.video_consumers)
                      ++ (close_listed (lookup peer_id a.screen_audio_consumers)
                          ++ close_listed (lookup peer_id a.screen_video_consumers))))))
        (record a {
          movement_consumers = erase peer_id a.movement_consumers;
          frame_events_consumers = erase peer_id a.frame_events_consumers;
          screen_audio_consumers = erase peer_id a.screen_audio_consumers;
          screen_video_consumers = erase peer_id a.screen_video_consumers;
        })
]
