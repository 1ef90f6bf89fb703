-- ===== src/Avatar/Tasks.antt =====
-- frame/webapp/core/avatar.ts: what an asynchronous method does after each of its awaits.
use frame_oldbackend_public.Prelude.{
  ℕ, zero, suc, Bool, true, false, Option, none, some, List, [], ◌∷◌, ◌++◌, ◌==◌, nat_eq,
  if◌then◌else◌,
}
use frame_oldbackend_public.Prelude.Maps.{Map, lookup, insert}
use frame_oldbackend_public.Types.{Guid}
use frame_oldbackend_public.Avatar.State.{
  Handle, Consumer, Announcement, audio, video, movement, events, ConsumerOptions, Announced,
  paused, consuming, audio_handled, video_handled, enter_handled, Task, awaiting_connection,
  awaiting_transport, awaiting_consumer, awaiting_device, awaiting_ingress, awaiting_egress,
  awaiting_microphone, awaiting_webcam, awaiting_screen_audio, awaiting_screen_video,
  awaiting_media_id, awaiting_data_id, awaiting_producer, awaiting_movement_producer,
  awaiting_events_producer, Avatar, perform, add_task,
}
use frame_oldbackend_public.Avatar.Media.{on_microphone, on_webcam}
use frame_oldbackend_public.Avatar.ScreenMedia.{on_screen_audio, on_screen_video}
use frame_oldbackend_public.Avatar.Participation.{
  begin_sending, emit_events, get_announcements, on_movement_producer, on_events_producer,
  on_media_id, on_data_id,
}
use frame_oldbackend_public.Avatar.Signals.{join_loaded}

-- The list under a key, with one more; it is created if there is none.
abbrev pub push_consumer : Guid → Consumer → Map (List Consumer) → Map (List Consumer)
unfolding lookup insert
push_consumer peer_id consumer m = elim (lookup peer_id m) [
  | none ↦ insert peer_id (consumer ∷ []) m
  | some consumers ↦ insert peer_id (consumers ++ (consumer ∷ [])) m
]

-- `audioConsumerState[peerId] === true`
unfoldable pub is_muted : Guid → Map Bool → Bool
unfolding lookup
is_muted peer_id states = elim (lookup peer_id states) [ none ↦ false | some mute ↦ mute ]

-- A consumer of a microphone is paused if its peer is muted.
abbrev pub save_microphone : Guid → Handle → Avatar → Avatar
unfolding insert is_muted
save_microphone peer_id consumer a =
    let mute = is_muted peer_id a.audio_consumer_state in
    perform (if mute then paused consumer ∷ [] else []) (record a {
      audio_consumers =
          insert peer_id (record { handle = consumer; paused = mute }) a.audio_consumers;
    })

abbrev playing : Handle → Consumer
playing consumer = record { handle = consumer; paused = false }

-- What is done with a new consumer.
unfoldable pub on_consumer : Announcement → Guid → ConsumerOptions → Handle → Avatar → Avatar
unfolding insert lookup is_muted
on_consumer audio peer_id o consumer a = perform (audio_handled peer_id consumer ∷ []) (
    if o.source == "microphone"
    then save_microphone peer_id consumer a
    else if o.source == "screenAudio"
    then record a {
      screen_audio_consumers = push_consumer peer_id (playing consumer) a.screen_audio_consumers;
    }
    else a)
on_consumer video peer_id o consumer a = perform (video_handled peer_id consumer ∷ []) (
    if o.source == "webcam"
    then record a { video_consumers = insert peer_id (playing consumer) a.video_consumers }
    else if o.source == "screenVideo"
    then record a {
      screen_video_consumers = push_consumer peer_id (playing consumer) a.screen_video_consumers;
    }
    else a)
on_consumer movement peer_id o consumer a = record a {
  movement_consumers = push_consumer peer_id (playing consumer) a.movement_consumers;
}
on_consumer events peer_id o consumer a = record a {
  frame_events_consumers = push_consumer peer_id (playing consumer) a.frame_events_consumers;
}

-- The head of the loop over what is announced.
abbrev pub next_announced : Announcement → Announced → Avatar → Avatar
next_announced kind [] a = a
next_announced kind (item ∷ items) a = add_task (awaiting_transport kind (item ∷ items)) a

-- A task whose condition may hold goes on; `none` if it still waits.
unfoldable pub resume : Task → Avatar → Option Avatar
unfolding lookup on_media_id on_data_id begin_sending
resume (awaiting_connection kind items) a =
    if a.consumer_connected then some (next_announced kind items a) else none
resume (awaiting_transport kind []) a = some a
resume (awaiting_transport kind ((peer_id, o) ∷ items)) a =
    elim (lookup o.transport_id a.consumer_transport) [
      | none ↦ none
      | some transport ↦ some (
          add_task (awaiting_consumer kind peer_id o items)
            (perform (consuming transport kind o ∷ []) a))
    ]
resume (awaiting_media_id source device_id) a = on_media_id source device_id a
resume (awaiting_data_id label) a = on_data_id label a
resume (awaiting_producer moves emits) a =
    if a.producer_connected
    then some (begin_sending moves emits (record a { lobby = false }))
    else none
resume _ a = none

-- The promise of a task is fulfilled with an object; `none` if the task awaits no promise.
unfoldable pub resolve : Task → Handle → Avatar → Option Avatar
unfolding on_consumer join_loaded insert on_microphone on_webcam on_screen_audio on_screen_video
    on_movement_producer on_events_producer
resolve (awaiting_consumer kind peer_id o items) consumer a =
    some (next_announced kind items (on_consumer kind peer_id o consumer a))
resolve (awaiting_device ingress egress moves server_info) device a =
    some (join_loaded ingress egress moves server_info (record a { device_loaded = true }))
resolve awaiting_ingress transport a = some (
    perform (enter_handled a.room ∷ [])
      (record a { producer_transport = some transport; producer_connected = true }))
resolve (awaiting_egress id collection) transport a = some (
    if nat_eq collection a.collection
    then record a { consumer_transport = insert id transport a.consumer_transport }
    else a)
resolve awaiting_microphone producer a = some (on_microphone producer a)
resolve awaiting_webcam producer a = some (on_webcam producer a)
resolve (awaiting_screen_audio device_id) producer a = some (on_screen_audio device_id producer a)
resolve (awaiting_screen_video device_id) producer a = some (on_screen_video device_id producer a)
resolve (awaiting_movement_producer emits) producer a = some (on_movement_producer emits producer a)
resolve (awaiting_events_producer is_spectator) producer a =
    some (on_events_producer is_spectator producer a)
resolve _ object a = none

-- Whether a task awaits a promise.
abbrev awaits_promise : Task → Bool
awaits_promise (awaiting_connection kind items) = false
awaits_promise (awaiting_transport kind items) = false
awaits_promise (awaiting_media_id source device_id) = false
awaits_promise (awaiting_data_id label) = false
awaits_promise (awaiting_producer moves emits) = false
awaits_promise _ = true

-- The promise of a task is rejected: an announcement goes on with the next one, and `participate` with
-- what comes after the producer; the other methods end, and leave their fields as they are.
unfoldable pub reject : Task → Avatar → Option Avatar
unfolding emit_events get_announcements
reject (awaiting_consumer kind peer_id o items) a = some (next_announced kind items a)
reject (awaiting_movement_producer emits) a = some (emit_events emits false a)
reject (awaiting_events_producer is_spectator) a = some (get_announcements is_spectator a)
reject task a = if awaits_promise task then some a else none

-- The task at a place, and the others.
unfoldable pub take_task : ℕ → List Task → Option (Task × List Task)
take_task n [] = none
take_task zero (task ∷ tasks) = some (task, tasks)
take_task (suc n) (task ∷ tasks) = elim (take_task n tasks) [
  | none ↦ none
  | some (found, rest) ↦ some (found, task ∷ rest)
]

-- A task goes on by `f`; it stays if it cannot.
unfoldable pub with_task : ℕ → (Task → Avatar → Option Avatar) → Avatar → Avatar
unfolding take_task
with_task n f a = elim (take_task n a.tasks) [
  | none ↦ a
  | some (task, rest) ↦ elim (f task (record a { tasks = rest })) [ none ↦ a | some a' ↦ a' ]
]
