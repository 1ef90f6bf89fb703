-- ===== src/Avatar/Departure.antt =====
-- frame/webapp/core/avatar.ts: what `leaveFrame` closes.
use frame_oldbackend_public.Prelude.{
  String, true, some, List, [], ◌∷◌, ◌++◌, ◌≡◌, refl, ap, ◌⊎◌, inl, inr, arith, map,
}
use frame_oldbackend_public.Prelude.Maps.{values}
use frame_oldbackend_public.Prelude.Lists.{IsIn, IsIn-append_left, IsIn-append_right, IsIn-map}
use frame_oldbackend_public.Types.Commands.{leave_room}
use frame_oldbackend_public.Movement.Timer.{stop_sending}
use frame_oldbackend_public.Avatar.State.{
  Handle, Consumer, ClientEffect, closed, signalled, leave_handled, Avatar, perform, send,
}
use frame_oldbackend_public.Avatar.Consumers.{close_all}
use frame_oldbackend_public.Avatar.Leaving.{
  Page, Left, left, failed, close_lists, close_consumers, close_producers, close_transport,
  close_transports, leave_cleanup, leave_frame,
}

abbrev handles : List Consumer → List Handle
handles = map (λ c. c.handle)

abbrev IsInLists : Handle → List (List Consumer) → Type 0
IsInLists x [] = ⊥
IsInLists x (cs ∷ rest) = IsIn x (handles cs) ⊎ IsInLists x rest

-- A consumer of a microphone, a webcam, movement or frame events, or a transport.
abbrev pub IsHeld : Handle → Avatar → Type 0
IsHeld x a =
    IsIn x (handles (values a.audio_consumers))
    ⊎ IsIn x (handles (values a.video_consumers))
    ⊎ IsInLists x (values a.movement_consumers)
    ⊎ IsInLists x (values a.frame_events_consumers)
    ⊎ IsIn x (values a.consumer_transport)
    ⊎ (a.producer_transport ≡ some x)

close_all-handles :
    (x : Handle) (cs : List Consumer) → IsIn x (handles cs) → IsIn (closed x) (close_all cs)
close_all-handles x [] h = elim h [ ]
close_all-handles x (c ∷ cs) (inl e) = inl (ap closed e)
close_all-handles x (c ∷ cs) (inr h) = inr (close_all-handles x cs h)

close_lists-IsIn :
    (x : Handle) (lists : List (List Consumer))
    → IsInLists x lists
    → IsIn (closed x) (close_lists lists)
close_lists-IsIn x [] h = elim h [ ]
close_lists-IsIn x (cs ∷ rest) (inl h) =
    IsIn-append_left (closed x) (close_all cs) (close_lists rest) (close_all-handles x cs h)
close_lists-IsIn x (cs ∷ rest) (inr h) =
    IsIn-append_right (closed x) (close_all cs) (close_lists rest) (close_lists-IsIn x rest h)

-- What `leaveCleanup` closes, in order.
unfoldable pub closings : Avatar → List ClientEffect
closings a = close_consumers a ++ (close_producers a ++ close_transports a)

consumers-IsIn :
    (x : Handle) (a : Avatar) → IsIn (closed x) (close_consumers a) → IsIn (closed x) (closings a)
unfolding closings
consumers-IsIn x a h = IsIn-append_left (closed x) (close_consumers a) _ h

transports-IsIn :
    (x : Handle) (a : Avatar) → IsIn (closed x) (close_transports a) → IsIn (closed x) (closings a)
unfolding closings
transports-IsIn x a h =
    IsIn-append_right (closed x) (close_consumers a) _
      (IsIn-append_right (closed x) (close_producers a) _ h)

closings-IsHeld : (x : Handle) (a : Avatar) → IsHeld x a → IsIn (closed x) (closings a)
closings-IsHeld x a (inl h) = consumers-IsIn x a (
    IsIn-append_left (closed x) (close_all (values a.audio_consumers)) _
      (close_all-handles x (values a.audio_consumers) h))
closings-IsHeld x a (inr (inl h)) = consumers-IsIn x a (
    IsIn-append_right (closed x) (close_all (values a.audio_consumers)) _ (
      IsIn-append_left (closed x) (close_all (values a.video_consumers)) _
        (close_all-handles x (values a.video_consumers) h)))
closings-IsHeld x a (inr (inr (inl h))) = consumers-IsIn x a (
    IsIn-append_right (closed x) (close_all (values a.audio_consumers)) _ (
      IsIn-append_right (closed x) (close_all (values a.video_consumers)) _ (
        IsIn-append_left (closed x) (close_lists (values a.movement_consumers)) _
          (close_lists-IsIn x (values a.movement_consumers) h))))
closings-IsHeld x a (inr (inr (inr (inl h)))) = consumers-IsIn x a (
    IsIn-append_right (closed x) (close_all (values a.audio_consumers)) _ (
      IsIn-append_right (closed x) (close_all (values a.video_consumers)) _ (
        IsIn-append_right (closed x) (close_lists (values a.movement_consumers)) _
          (close_lists-IsIn x (values a.frame_events_consumers) h))))
closings-IsHeld x a (inr (inr (inr (inr (inl h))))) = transports-IsIn x a (
    IsIn-append_left (closed x) (map closed (values a.consumer_transport)) _
      (IsIn-map closed x (values a.consumer_transport) h))
closings-IsHeld x a (inr (inr (inr (inr (inr e))))) = transports-IsIn x a (
    IsIn-append_right (closed x) (map closed (values a.consumer_transport)) _
      (rw (e, close_transport) (inl refl)))

-- No consumer is on record.
abbrev pub HasNoConsumers : Avatar → Type 0
HasNoConsumers a =
    (a.audio_consumers ≡ [])
    × (a.video_consumers ≡ [])
    × (a.movement_consumers ≡ [])
    × (a.frame_events_consumers ≡ [])
    × (a.screen_audio_consumers ≡ [])
    × (a.screen_video_consumers ≡ [])

leave_cleanup-left :
    (page : Page) (a b : Avatar)
    → leave_cleanup page a ≡ left b
    → (b.trace ≡ a.trace ++ closings a)
      × HasNoConsumers b
      × (b.avatar_id ≡ a.avatar_id)
      × (b.websocket_ready ≡ a.websocket_ready)
      × (b.avatar_mover ≡ a.avatar_mover)
unfolding leave_cleanup closings
leave_cleanup-left page a b e = ground arith

pub Left-cases : (l : Left) → ((c : Avatar) × (l ≡ left c)) ⊎ ((c : Avatar) × (l ≡ failed c))
Left-cases (left c) = inl (c, refl)
Left-cases (failed c) = inr (c, refl)

-- The avatar as `leaveCleanup` finds it.
leaving : String → Avatar → Avatar
leaving frame_name a =
    perform (leave_handled frame_name ∷ [])
      (record a { avatar_mover = stop_sending a.avatar_mover })

pub leave_frame-left :
    (frame_name : String) (page : Page) (a b : Avatar)
    → leave_frame frame_name page a ≡ left b
    → a.websocket_ready ≡ true
    → (b.trace ≡ (
        ((a.trace ++ (leave_handled frame_name ∷ [])) ++ closings a)
        ++ (signalled (leave_room a.avatar_id frame_name) ∷ [])))
      × HasNoConsumers b
      × (b.avatar_mover ≡ stop_sending a.avatar_mover)
unfolding leave_frame send leaving closings
leave_frame-left frame_name page a b e open_ready =
    elim (Left-cases (leave_cleanup page (leaving frame_name a))) [
      | inl (c, f) ↦ ground (arith, leave_cleanup-left page (leaving frame_name a) c f)
      | inr (c, f) ↦ ground arith
    ]

-- The avatar leaves a frame while its websocket is open, and nothing throws: the timer of its movement is stopped, every consumer
-- of a microphone, webcam, movement or frame event is closed, and so is every transport; no consumer
-- is on record, and the server is told.
pub leave_frame-leaves :
    (frame_name : String) (page : Page) (a b : Avatar) (x : Handle)
    → leave_frame frame_name page a ≡ left b
    → IsHeld x a
    → a.websocket_ready ≡ true
    → IsIn (closed x) b.trace
      × HasNoConsumers b
      × IsIn (signalled (leave_room a.avatar_id frame_name)) b.trace
      × (b.avatar_mover ≡ stop_sending a.avatar_mover)
leave_frame-leaves frame_name page a b x e held open_ready =
    let (trace, gone, mover) = leave_frame-left frame_name page a b e open_ready in
    let before = a.trace ++ (leave_handled frame_name ∷ []) in
    let told = signalled (leave_room a.avatar_id frame_name) in
    (
      rw trace (
          IsIn-append_left (closed x) (before ++ closings a) (told ∷ [])
            (IsIn-append_right (closed x) before (closings a) (closings-IsHeld x a held))),
      gone,
      rw trace (IsIn-append_right told (before ++ closings a) (told ∷ []) (inl refl)),
      mover,
    )
