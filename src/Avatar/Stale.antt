-- ===== src/Avatar/Stale.antt =====
-- frame/webapp/core/avatar.ts: which id the handler of `produce` hands to a new producer.
use frame_oldbackend_public.Prelude.{
  String, true, Option, none, some, List, [], ◌∷◌, ◌++◌, ◌≡◌, refl, ap, ◌∙◌, arith, if◌then◌else◌,
  truthy,
}
use mathlib.Core.List.{append_assoc}
use frame_oldbackend_public.Types.{Guid, Json}
use frame_oldbackend_public.Types.Commands.{produce_media}
use frame_oldbackend_public.Avatar.State.{
  ClientEffect, signalled, produced, Task, awaiting_media_id, Avatar, send,
}
use frame_oldbackend_public.Avatar.Signals.{produced_media, on_produced_media, incoming_signal}
use frame_oldbackend_public.Avatar.Participation.{on_produce, on_media_id}
use frame_oldbackend_public.Avatar.Tasks.{resume, take_task, with_task}
use frame_oldbackend_public.Avatar.Events.{Event, signal, resumed, produce, handle, run}

-- The microphone is produced, and the media server then sends the id of the new producer; the handler
-- may go on before and after.
abbrev pub microphone_events : String → Json → String → Guid → List Event
microphone_events kind options device_id new =
    produce kind options "microphone" device_id
    ∷ resumed 0
    ∷ signal (produced_media new (record { source = "microphone"; device_id = device_id }))
    ∷ resumed 0
    ∷ []

-- The id that was there before, if any, and the new one otherwise.
abbrev pub older : Option Guid → Guid → Guid
older none new = new
older (some old) new = old

-- The avatar with this id, these tasks and this trace.
abbrev with_id : Option Guid → List Task → List ClientEffect → Avatar → Avatar
with_id id tasks trace a = record a { audio_producer_id = id; tasks = tasks; trace = trace }

module _ (device_id : String) (a : Avatar) where
  abbrev task : Task
  task = awaiting_media_id "microphone" device_id

  goes_on :
      (id : Guid) (trace : List ClientEffect)
      → truthy (some id) ≡ true
      → with_task 0 resume (with_id (some id) (task ∷ []) trace a)
        ≡ with_id (some id) [] (trace ++ (produced id ∷ [])) a
  unfolding with_task take_task resume on_media_id
  goes_on id trace h = rw (h, if◌then◌else◌) refl

  waits :
      (trace : List ClientEffect)
      → with_task 0 resume (with_id none (task ∷ []) trace a) ≡ with_id none (task ∷ []) trace a
  unfolding with_task take_task resume on_media_id
  waits trace = refl

  nothing_left :
      (id : Option Guid) (trace : List ClientEffect)
      → with_task 0 resume (with_id id [] trace a) ≡ with_id id [] trace a
  unfolding with_task take_task
  nothing_left id trace = refl

  asks :
      (kind : String) (options : Json)
      → a.tasks ≡ []
      → a.websocket_ready ≡ true
      → on_produce kind options "microphone" device_id a
        ≡ with_id a.audio_producer_id
            (task ∷ [])
            (a.trace ++ (signalled (produce_media a.avatar_id kind options) ∷ []))
            a
  unfolding on_produce send
  asks kind options idle open_ready = ground arith

  is_told :
      (old : Option Guid) (tasks : List Task) (trace : List ClientEffect) (new : Guid)
      → incoming_signal
          (produced_media new (record { source = "microphone"; device_id = device_id }))
          (with_id old tasks trace a)
        ≡ with_id (some new) tasks trace a
  unfolding incoming_signal on_produced_media
  is_told old tasks trace new = refl

  ends :
      (old : Option Guid) (sent : List ClientEffect) (new : Guid)
      → truthy (some new) ≡ true
      → truthy (some (older old new)) ≡ true
      → run
          (resumed 0
            ∷ signal (produced_media new (record { source = "microphone"; device_id = device_id }))
            ∷ resumed 0
            ∷ [])
          (with_id old (task ∷ []) sent a)
        ≡ with_id (some new) [] (sent ++ (produced (older old new) ∷ [])) a
  unfolding run handle
  ends none sent new given known = goes_on new sent given
  ends (some old) sent new given known =
      ap
        (λ b.
          run
            (signal (produced_media new (record { source = "microphone"; device_id = device_id }))
              ∷ resumed 0
              ∷ [])
            b)
        (goes_on old sent known)

-- A microphone is produced while no other task is under way: the new producer gets the id that the
-- media server sends for it only if there was none before; otherwise it gets the former producer's id,
-- at once.
pub produce-older :
    (kind : String) (options : Json) (device_id : String) (new : Guid) (a : Avatar)
    → a.tasks ≡ []
    → a.websocket_ready ≡ true
    → truthy (some new) ≡ true
    → truthy (some (older a.audio_producer_id new)) ≡ true
    → let b = run (microphone_events kind options device_id new) a in
      (b.trace
        ≡ a.trace
          ++ (signalled (produce_media a.avatar_id kind options)
              ∷ produced (older a.audio_producer_id new)
              ∷ []))
      × (b.tasks ≡ [])
      × (b.audio_producer_id ≡ some new)
unfolding run handle
produce-older kind options device_id new a idle open_ready given known =
    let sent = a.trace ++ (signalled (produce_media a.avatar_id kind options) ∷ []) in
    let rest =
      resumed 0
      ∷ signal (produced_media new (record { source = "microphone"; device_id = device_id }))
      ∷ resumed 0
      ∷ [] in
    let all =
      ap (λ b. run rest b) (asks device_id a kind options idle open_ready)
      ∙ ends device_id a a.audio_producer_id sent new given known in
    (
      ap (λ (b : Avatar). b.trace) all ∙ append_assoc a.trace _ _,
      ap (λ (b : Avatar). b.tasks) all,
      ap (λ (b : Avatar). b.audio_producer_id) all,
    )
