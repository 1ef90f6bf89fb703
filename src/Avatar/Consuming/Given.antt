-- ===== src/Avatar/Consuming/Given.antt =====
-- frame/webapp/core/avatar.ts: the consumers that are handed to the page.
use frame_oldbackend_public.Prelude.{
  Option, none, some, List, [], ◌∷◌, ◌++◌, ◌≡◌, refl, sym, arith, if◌then◌else◌, Bool-cases, inl,
  inr, ◌==◌,
}
use mathlib.Core.List.{append-nil, append_assoc}
use frame_oldbackend_public.Prelude.Maps.{lookup}
use frame_oldbackend_public.Prelude.Lists.{IsIn, IsIn-append_left, IsIn-append_right}
use frame_oldbackend_public.Types.{Guid}
use frame_oldbackend_public.Avatar.State.{
  Handle, Announcement, audio, video, movement, events, ConsumerOptions, Announced, ClientEffect,
  paused, consuming, audio_handled, video_handled, Avatar, perform,
}
use frame_oldbackend_public.Avatar.Tasks.{is_muted, on_consumer}
use frame_oldbackend_public.Avatar.Consuming.Fulfilling.{
  AreReachable, consume_each, on_consumer-with_tasks, consumed,
}

-- The consumer of audio or video is handed to the page.
abbrev pub IsGiven : Announcement → Guid → Handle → List ClientEffect → Type 0
IsGiven audio peer_id consumer trace = IsIn (audio_handled peer_id consumer) trace
IsGiven video peer_id consumer trace = IsIn (video_handled peer_id consumer) trace
IsGiven movement peer_id consumer trace = Unit
IsGiven events peer_id consumer trace = Unit

abbrev pub AreGiven : Announcement → Announced → List Handle → List ClientEffect → Type 0
AreGiven kind [] consumers trace = Unit
AreGiven kind (item ∷ items) [] trace = Unit
AreGiven kind ((peer_id, o) ∷ items) (consumer ∷ consumers) trace =
    IsGiven kind peer_id consumer trace × AreGiven kind items consumers trace

-- What was done stays done.
abbrev Extends : Avatar → Avatar → Type 0
Extends a b = (more : List ClientEffect) × (b.trace ≡ a.trace ++ more)

on_consumer-Extends :
    (kind : Announcement) (peer_id : Guid) (o : ConsumerOptions) (consumer : Handle) (a : Avatar)
    → (more : List ClientEffect) × ((on_consumer kind peer_id o consumer a).trace ≡ a.trace ++ more)
      × IsGiven kind peer_id consumer more
unfolding on_consumer
on_consumer-Extends audio peer_id o consumer a = elim (Bool-cases (o.source == "microphone")) [
  | inl e ↦ (
    (if is_muted peer_id a.audio_consumer_state then paused consumer ∷ [] else [])
        ++ (audio_handled peer_id consumer ∷ []),
    rw (e, on_consumer, if◌then◌else◌) (append_assoc a.trace _ _),
    IsIn-append_right _ _ (audio_handled peer_id consumer ∷ []) (inl refl),
  )
  | inr e ↦ (audio_handled peer_id consumer ∷ [], ground arith, inl refl)
]
on_consumer-Extends video peer_id o consumer a =
    (video_handled peer_id consumer ∷ [], ground arith, inl refl)
on_consumer-Extends movement peer_id o consumer a = ([], sym (append-nil a.trace), tt)
on_consumer-Extends events peer_id o consumer a = ([], sym (append-nil a.trace), tt)

consumed-IsGiven :
    (kind : Announcement) (peer_id : Guid) (o : ConsumerOptions) (t consumer : Handle) (a : Avatar)
    → IsGiven kind peer_id consumer (consumed kind peer_id o t consumer a).trace
      × ((e : ClientEffect) → IsIn e a.trace → IsIn e (consumed kind peer_id o t consumer a).trace)
consumed-IsGiven kind peer_id o t consumer a =
    let before = a.trace ++ (consuming t kind o ∷ []) in
    let (more, same, given) =
      on_consumer-Extends kind peer_id o consumer (perform (consuming t kind o ∷ []) a) in
    (
      rw same (IsGiven-right kind peer_id consumer before more given),
      λ e h. rw same (IsIn-append_left e before more (IsIn-append_left e a.trace _ h)),
    )
  where
    IsGiven-right :
        (kind : Announcement) (peer_id : Guid) (consumer : Handle) (xs ys : List ClientEffect)
        → IsGiven kind peer_id consumer ys
        → IsGiven kind peer_id consumer (xs ++ ys)
    IsGiven-right audio peer_id consumer xs ys h = IsIn-append_right _ xs ys h
    IsGiven-right video peer_id consumer xs ys h = IsIn-append_right _ xs ys h
    IsGiven-right movement peer_id consumer xs ys h = tt
    IsGiven-right events peer_id consumer xs ys h = tt

consume_each-keeps :
    (kind : Announcement) (items : Announced) (consumers : List Handle) (a : Avatar)
    (e : ClientEffect)
    → IsIn e a.trace
    → IsIn e (consume_each kind items consumers a).trace
unfolding consume_each
consume_each-keeps kind [] consumers a e h = h
consume_each-keeps kind (item ∷ items) [] a e h = h
consume_each-keeps kind ((peer_id, o) ∷ items) (c ∷ cs) a e h =
    go (lookup o.transport_id a.consumer_transport) (λ t.
      consume_each-keeps kind items cs (consumed kind peer_id o t c a) e
        ((consumed-IsGiven kind peer_id o t c a).1 e h))
  where
    go :
        (l : Option Handle)
        → ((t : Handle) → IsIn e (consume_each kind items cs (consumed kind peer_id o t c a)).trace)
        → let b : Avatar = elim l [
          | none ↦ a
          | some t ↦ consume_each kind items cs (consumed kind peer_id o t c a)
        ] in
          IsIn e b.trace
    go none k = h
    go (some t) k = k t

IsGiven-keeps :
    (kind : Announcement) (peer_id : Guid) (consumer : Handle) (xs ys : List ClientEffect)
    → ((e : ClientEffect) → IsIn e xs → IsIn e ys)
    → IsGiven kind peer_id consumer xs
    → IsGiven kind peer_id consumer ys
IsGiven-keeps audio peer_id consumer xs ys keeps h = keeps (audio_handled peer_id consumer) h
IsGiven-keeps video peer_id consumer xs ys keeps h = keeps (video_handled peer_id consumer) h
IsGiven-keeps movement peer_id consumer xs ys keeps h = tt
IsGiven-keeps events peer_id consumer xs ys keeps h = tt

pub consume_each-AreGiven :
    (kind : Announcement) (items : Announced) (consumers : List Handle) (a : Avatar)
    → AreReachable items a.consumer_transport
    → AreGiven kind items consumers (consume_each kind items consumers a).trace
unfolding consume_each
consume_each-AreGiven kind [] consumers a reach = tt
consume_each-AreGiven kind (item ∷ items) [] a reach = tt
consume_each-AreGiven kind ((peer_id, o) ∷ items) (c ∷ cs) a ((t, found), reach) =
    let b = consumed kind peer_id o t c a in
    let kept =
      (on_consumer-with_tasks kind peer_id o c (perform (consuming t kind o ∷ []) a) []).1 in
    rw (found, consume_each)
      (
        IsGiven-keeps kind peer_id c b.trace (consume_each kind items cs b).trace
            (λ e h. consume_each-keeps kind items cs b e h)
            (consumed-IsGiven kind peer_id o t c a).0,
        consume_each-AreGiven kind items cs b (rw kept reach),
      )
