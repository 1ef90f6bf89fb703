-- ===== src/Avatar/Consuming/Fulfilling.antt =====
-- frame/webapp/core/avatar.ts: the promises of an announcement are fulfilled, one after the other.
use frame_oldbackend_public.Prelude.{
  Option, none, some, List, [], ◌∷◌, ◌≡◌, refl, sym, ap, ◌∙◌, arith,
}
use frame_oldbackend_public.Prelude.Maps.{Map, lookup}
use frame_oldbackend_public.Prelude.Lists.{length}
use frame_oldbackend_public.Types.{Guid}
use frame_oldbackend_public.Avatar.State.{
  Handle, Announcement, audio, video, movement, events, ConsumerOptions, Announced, consuming, Task,
  awaiting_transport, awaiting_consumer, Avatar, perform,
}
use frame_oldbackend_public.Avatar.Tasks.{
  next_announced, on_consumer, resume, resolve, take_task, with_task,
}
use frame_oldbackend_public.Avatar.Events.{Event, resumed, resolved, handle, run}

-- Each transport is on record.
abbrev pub AreReachable : Announced → Map Handle → Type 0
AreReachable [] transports = Unit
AreReachable ((peer_id, o) ∷ items) transports =
    ((t : Handle) × (lookup o.transport_id transports ≡ some t)) × AreReachable items transports

-- The one task goes on, and its promise is fulfilled, for each consumer.
abbrev pub fulfilments : List Handle → List Event
fulfilments [] = []
fulfilments (consumer ∷ consumers) = resumed 0 ∷ resolved 0 consumer ∷ fulfilments consumers

-- What is done with the consumers, one after the other.
unfoldable pub consume_each : Announcement → Announced → List Handle → Avatar → Avatar
unfolding lookup on_consumer
consume_each kind [] consumers a = a
consume_each kind (item ∷ items) [] a = a
consume_each kind ((peer_id, o) ∷ items) (consumer ∷ consumers) a =
    elim (lookup o.transport_id a.consumer_transport) [
      | none ↦ a
      | some transport ↦
          consume_each kind items consumers
            (on_consumer kind peer_id o consumer (perform (consuming transport kind o ∷ []) a))
    ]

abbrev pub with_tasks : List Task → Avatar → Avatar
with_tasks tasks a = record a { tasks = tasks }

pub on_consumer-with_tasks :
    (kind : Announcement) (peer_id : Guid) (o : ConsumerOptions) (consumer : Handle) (a : Avatar)
    (tasks : List Task)
    → (on_consumer kind peer_id o consumer (with_tasks tasks a)
        ≡ with_tasks tasks (on_consumer kind peer_id o consumer a))
      × ((on_consumer kind peer_id o consumer a).consumer_transport ≡ a.consumer_transport)
unfolding on_consumer
on_consumer-with_tasks audio peer_id o consumer a tasks = ground arith
on_consumer-with_tasks video peer_id o consumer a tasks = ground arith
on_consumer-with_tasks movement peer_id o consumer a tasks = (refl, refl)
on_consumer-with_tasks events peer_id o consumer a tasks = (refl, refl)

resumes :
    (kind : Announcement) (peer_id : Guid) (o : ConsumerOptions) (items : Announced)
    (transport : Handle) (a : Avatar)
    → lookup o.transport_id a.consumer_transport ≡ some transport
    → handle (resumed 0) (with_tasks (awaiting_transport kind ((peer_id, o) ∷ items) ∷ []) a)
      ≡ perform
          (consuming transport kind o ∷ [])
          (with_tasks (awaiting_consumer kind peer_id o items ∷ []) a)
unfolding handle with_task take_task resume
resumes kind peer_id o items transport a found = ground arith

resolves :
    (kind : Announcement) (peer_id : Guid) (o : ConsumerOptions) (items : Announced)
    (consumer : Handle) (a : Avatar)
    → handle (resolved 0 consumer) (with_tasks (awaiting_consumer kind peer_id o items ∷ []) a)
      ≡ next_announced kind items (on_consumer kind peer_id o consumer (with_tasks [] a))
unfolding handle with_task take_task resolve
resolves kind peer_id o items consumer a = refl

-- The avatar after one consumer.
abbrev pub consumed : Announcement → Guid → ConsumerOptions → Handle → Handle → Avatar → Avatar
consumed kind peer_id o transport consumer a =
    on_consumer kind peer_id o consumer (perform (consuming transport kind o ∷ []) a)

-- The two events for one consumer.
fulfil_one :
    (kind : Announcement) (peer_id : Guid) (o : ConsumerOptions) (items : Announced)
    (consumer transport : Handle) (a : Avatar)
    → lookup o.transport_id a.consumer_transport ≡ some transport
    → handle
        (resolved 0 consumer)
        (handle (resumed 0) (with_tasks (awaiting_transport kind ((peer_id, o) ∷ items) ∷ []) a))
      ≡ next_announced kind items (with_tasks [] (consumed kind peer_id o transport consumer a))
fulfil_one kind peer_id o items consumer transport a found =
    ap (handle (resolved 0 consumer)) (resumes kind peer_id o items transport a found)
    ∙ resolves kind peer_id o items consumer (perform (consuming transport kind o ∷ []) a)
    ∙ ap (next_announced kind items)
        (on_consumer-with_tasks kind peer_id o consumer
          (perform (consuming transport kind o ∷ []) a) []).0

pub fulfil_each :
    (kind : Announcement) (items : Announced) (consumers : List Handle) (a : Avatar)
    → AreReachable items a.consumer_transport
    → length consumers ≡ length items
    → run (fulfilments consumers) (next_announced kind items (with_tasks [] a))
      ≡ with_tasks [] (consume_each kind items consumers a)
unfolding run consume_each
fulfil_each kind [] [] a reach same = refl
fulfil_each kind [] (c ∷ cs) a reach same = absurd (omega arith)
fulfil_each kind (item ∷ items) [] a reach same = absurd (omega arith)
fulfil_each kind ((peer_id, o) ∷ items) (c ∷ cs) a ((t, found), reach) same =
    let b = consumed kind peer_id o t c a in
    let kept =
      (on_consumer-with_tasks kind peer_id o c (perform (consuming t kind o ∷ []) a) []).1 in
    ap (run (fulfilments cs)) (fulfil_one kind peer_id o items c t a found)
    ∙ fulfil_each kind items cs b (rw kept reach) (omega arith)
    ∙ ap (with_tasks []) (sym (chosen (lookup o.transport_id a.consumer_transport) found))
  where
    chosen :
        (l : Option Handle)
        → l ≡ some t
        → (elim l [
          | none ↦ a
          | some u ↦ consume_each kind items cs (consumed kind peer_id o u c a)
        ])
          ≡ consume_each kind items cs (consumed kind peer_id o t c a)
    chosen l e = rw e refl
