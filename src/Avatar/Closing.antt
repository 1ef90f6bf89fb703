-- ===== src/Avatar/Closing.antt =====
-- frame/webapp/core/avatar.ts: which consumers `closeConsumersForPeer` closes.
use frame_oldbackend_public.Prelude.{
  Option, none, some, List, ◌++◌, ◌≡◌, refl, ◌⊎◌, ◌≢◌, inl, inr, arith, eq_iff,
}
use frame_oldbackend_public.Prelude.Maps.{Map, lookup, erase, lookup-erase, lookup-erase_self}
use frame_oldbackend_public.Prelude.Lists.{IsIn, IsIn-append_left, IsIn-append_right, IsIn-map}
use frame_oldbackend_public.Types.{Guid}
use frame_oldbackend_public.Avatar.State.{Consumer, ClientEffect, closed, Avatar}
use frame_oldbackend_public.Avatar.Consumers.{
  close_all, close_listed, close_one, close_consumers_for_peer,
}

-- The consumer is one of those listed under the peer.
abbrev IsListed : Guid → Consumer → Map (List Consumer) → Type 0
IsListed peer_id c m = (cs : List Consumer) × (lookup peer_id m ≡ some cs) × IsIn c cs

-- The consumer is one of the peer's, of any kind.
abbrev pub IsConsumerOf : Guid → Consumer → Avatar → Type 0
IsConsumerOf peer_id c a =
    (lookup peer_id a.audio_consumers ≡ some c)
    ⊎ (lookup peer_id a.video_consumers ≡ some c)
    ⊎ IsListed peer_id c a.movement_consumers
    ⊎ IsListed peer_id c a.frame_events_consumers
    ⊎ IsListed peer_id c a.screen_audio_consumers
    ⊎ IsListed peer_id c a.screen_video_consumers

close_one-IsIn :
    (c : Consumer) (o : Option Consumer) → o ≡ some c → IsIn (closed c.handle) (close_one o)
close_one-IsIn c o e = rw e (inl refl)

close_all-IsIn :
    (c : Consumer) (cs : List Consumer) → IsIn c cs → IsIn (closed c.handle) (close_all cs)
close_all-IsIn c cs h = IsIn-map (λ (d : Consumer). closed d.handle) c cs h

close_listed-IsIn :
    (peer_id : Guid) (c : Consumer) (m : Map (List Consumer))
    → IsListed peer_id c m
    → IsIn (closed c.handle) (close_listed (lookup peer_id m))
close_listed-IsIn peer_id c m (cs, e, h) = rw e (close_all-IsIn c cs h)

-- What is closed, in order.
closings : Guid → List Consumer → Avatar → List ClientEffect
closings peer_id consumers a =
    close_all consumers
    ++ (close_listed (lookup peer_id a.frame_events_consumers)
        ++ (close_one (lookup peer_id a.audio_consumers)
            ++ (close_one (lookup peer_id a.video_consumers)
                ++ (close_listed (lookup peer_id a.screen_audio_consumers)
                    ++ close_listed (lookup peer_id a.screen_video_consumers)))))

one_of_six :
    (x : ClientEffect) (p q r s t u : List ClientEffect)
    → IsIn x r ⊎ IsIn x s ⊎ IsIn x p ⊎ IsIn x q ⊎ IsIn x t ⊎ IsIn x u
    → IsIn x (p ++ (q ++ (r ++ (s ++ (t ++ u)))))
one_of_six x p q r s t u (inr (inr (inl h))) = IsIn-append_left x p _ h
one_of_six x p q r s t u (inr (inr (inr (inl h)))) =
    IsIn-append_right x p _ (IsIn-append_left x q _ h)
one_of_six x p q r s t u (inl h) =
    IsIn-append_right x p _ (IsIn-append_right x q _ (IsIn-append_left x r _ h))
one_of_six x p q r s t u (inr (inl h)) =
    IsIn-append_right x p _
      (IsIn-append_right x q _ (IsIn-append_right x r _ (IsIn-append_left x s _ h)))
one_of_six x p q r s t u (inr (inr (inr (inr (inl h))))) = IsIn-append_right x p _ (
    IsIn-append_right x q _
      (IsIn-append_right x r _ (IsIn-append_right x s _ (IsIn-append_left x t u h))))
one_of_six x p q r s t u (inr (inr (inr (inr (inr h))))) = IsIn-append_right x p _ (
    IsIn-append_right x q _
      (IsIn-append_right x r _ (IsIn-append_right x s _ (IsIn-append_right x t u h))))

closings-IsIn :
    (peer_id : Guid) (consumers : List Consumer) (a : Avatar) (c : Consumer)
    → lookup peer_id a.movement_consumers ≡ some consumers
    → IsConsumerOf peer_id c a
    → IsIn (closed c.handle) (closings peer_id consumers a)
unfolding closings
closings-IsIn peer_id consumers a c moves own = one_of_six (closed c.handle) _ _ _ _ _ _ (part own)
  where
    part :
        IsConsumerOf peer_id c a
        → IsIn (closed c.handle) (close_one (lookup peer_id a.audio_consumers))
          ⊎ IsIn (closed c.handle) (close_one (lookup peer_id a.video_consumers))
          ⊎ IsIn (closed c.handle) (close_all consumers)
          ⊎ IsIn (closed c.handle) (close_listed (lookup peer_id a.frame_events_consumers))
          ⊎ IsIn (closed c.handle) (close_listed (lookup peer_id a.screen_audio_consumers))
          ⊎ IsIn (closed c.handle) (close_listed (lookup peer_id a.screen_video_consumers))
    part (inl e) = inl (close_one-IsIn c (lookup peer_id a.audio_consumers) e)
    part (inr (inl e)) = inr (inl (close_one-IsIn c (lookup peer_id a.video_consumers) e))
    part (inr (inr (inl (cs, e, h)))) =
        let same : cs ≡ consumers = cc in
        inr (inr (inl (close_all-IsIn c consumers (rw (← same) h))))
    part (inr (inr (inr (inl h)))) =
        inr (inr (inr (inl (close_listed-IsIn peer_id c a.frame_events_consumers h))))
    part (inr (inr (inr (inr (inl h))))) =
        inr (inr (inr (inr (inl (close_listed-IsIn peer_id c a.screen_audio_consumers h)))))
    part (inr (inr (inr (inr (inr h))))) =
        inr (inr (inr (inr (inr (close_listed-IsIn peer_id c a.screen_video_consumers h)))))

-- A peer disconnects of which the avatar has a movement consumer: each of the peer's consumers, of all
-- six kinds, is closed, and the peer has none in the four lists of movement, frame events and screens;
-- the lists of the other peers stay as they are.
pub close_consumers_for_peer-closes :
    (peer_id : Guid) (consumers : List Consumer) (a : Avatar) (c : Consumer) (other : Guid)
    → lookup peer_id a.movement_consumers ≡ some consumers
    → IsConsumerOf peer_id c a
    → peer_id ≢ other
    → let b = close_consumers_for_peer peer_id a in
      IsIn (closed c.handle) b.trace
      × (lookup peer_id b.movement_consumers ≡ none)
      × (lookup peer_id b.frame_events_consumers ≡ none)
      × (lookup peer_id b.screen_audio_consumers ≡ none)
      × (lookup peer_id b.screen_video_consumers ≡ none)
      × (lookup other b.movement_consumers ≡ lookup other a.movement_consumers)
      × (lookup other b.frame_events_consumers ≡ lookup other a.frame_events_consumers)
      × (lookup other b.screen_audio_consumers ≡ lookup other a.screen_audio_consumers)
      × (lookup other b.screen_video_consumers ≡ lookup other a.screen_video_consumers)
unfolding close_consumers_for_peer closings
close_consumers_for_peer-closes peer_id consumers a c other moves own apart =
    rw (close_consumers_for_peer, moves)
      (
        IsIn-append_right (closed c.handle) a.trace _
            (closings-IsIn peer_id consumers a c moves own),
        lookup-erase_self peer_id a.movement_consumers,
        lookup-erase_self peer_id a.frame_events_consumers,
        lookup-erase_self peer_id a.screen_audio_consumers,
        lookup-erase_self peer_id a.screen_video_consumers,
        kept a.movement_consumers,
        kept a.frame_events_consumers,
        kept a.screen_audio_consumers,
        kept a.screen_video_consumers,
      )
  where
    kept : (m : Map (List Consumer)) → lookup other (erase peer_id m) ≡ lookup other m
    kept m = ground (arith, eq_iff peer_id other, lookup-erase peer_id other m)
