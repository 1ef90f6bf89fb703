-- ===== src/Session/Parting.antt =====
-- A peer leaves a room: from its own client through the api server to the clients of the others.
use frame_oldbackend_public.Prelude.{
  none, List, [], ◌∷◌, ◌==◌, ◌≡◌, refl, sym, ap, ◌≢◌, ◌⊎◌, inl, inr, arith, eq_iff, Bool-cases,
  Option-cases,
}
use frame_oldbackend_public.Prelude.Lists.{IsIn, IsIn-append_left}
use frame_oldbackend_public.Prelude.Maps.{Map, lookup, erase, lookup-erase}
use frame_oldbackend_public.Types.{Guid, Json, PeerCounter, Communication}
use frame_oldbackend_public.Avatar.State.{Consumer, closed, Avatar}
use frame_oldbackend_public.Avatar.Signals.{incoming_signal}
use frame_oldbackend_public.Avatar.Consumers.{close_consumers_for_peer}
use frame_oldbackend_public.Avatar.Closing.{IsConsumerOf, close_consumers_for_peer-closes}
use frame_oldbackend_public.Session.Messages.{parsed, deliver}

-- The consumer is one of the peer's, and the peer has a movement consumer.
abbrev pub IsHeard : Guid → Consumer → Avatar → Type 0
IsHeard peer_id c a = (lookup peer_id a.movement_consumers ≢ none) × IsConsumerOf peer_id c a

-- The consumer is closed, and the peer has none in the lists.
abbrev pub IsParted : Guid → Consumer → Avatar → Type 0
IsParted peer_id c a =
    IsIn (closed c.handle) a.trace
    × (lookup peer_id a.movement_consumers ≡ none)
    × (lookup peer_id a.frame_events_consumers ≡ none)
    × (lookup peer_id a.screen_audio_consumers ≡ none)
    × (lookup peer_id a.screen_video_consumers ≡ none)

-- The peer's consumers are the same.
abbrev AreSame : Guid → Avatar → Avatar → Type 0
AreSame peer_id a b =
    (lookup peer_id b.audio_consumers ≡ lookup peer_id a.audio_consumers)
    × (lookup peer_id b.video_consumers ≡ lookup peer_id a.video_consumers)
    × (lookup peer_id b.movement_consumers ≡ lookup peer_id a.movement_consumers)
    × (lookup peer_id b.frame_events_consumers ≡ lookup peer_id a.frame_events_consumers)
    × (lookup peer_id b.screen_audio_consumers ≡ lookup peer_id a.screen_audio_consumers)
    × (lookup peer_id b.screen_video_consumers ≡ lookup peer_id a.screen_video_consumers)

AreSame-IsHeard :
    (peer_id : Guid) (c : Consumer) (a b : Avatar)
    → AreSame peer_id a b
    → IsHeard peer_id c a
    → IsHeard peer_id c b
AreSame-IsHeard peer_id c a b (audio, video, movement, events, screen_audio, screen_video) h =
    rw (audio, video, movement, events, screen_audio, screen_video) h

-- Another peer disconnects.
close_consumers_for_peer-AreSame :
    (other peer_id : Guid) (a : Avatar)
    → other ≢ peer_id
    → AreSame peer_id a (close_consumers_for_peer other a)
unfolding close_consumers_for_peer
close_consumers_for_peer-AreSame other peer_id a apart =
    elim (Option-cases (lookup other a.movement_consumers)) [
      | inl e ↦ rw (close_consumers_for_peer, e) (refl, refl, refl, refl, refl, refl)
      | inr (consumers, e) ↦
          rw (close_consumers_for_peer, e)
            (
              refl,
              refl,
              kept a.movement_consumers,
              kept a.frame_events_consumers,
              kept a.screen_audio_consumers,
              kept a.screen_video_consumers,
            )
    ]
  where
    kept : {V : Type 0} (m : Map V) → lookup peer_id (erase other m) ≡ lookup peer_id m
    kept m = ground (arith, lookup-erase other peer_id m, eq_iff other peer_id)

-- A reply other than that the peer has left.
incoming_signal-AreSame :
    (encode : PeerCounter → Json) (reply : Communication) (peer_id : Guid) (a : Avatar)
    → reply ≢ Communication.peer_disconnect peer_id
    → AreSame peer_id a (incoming_signal (parsed encode reply) a)
unfolding parsed incoming_signal
incoming_signal-AreSame encode (Communication.peer_disconnect other) peer_id a apart =
    close_consumers_for_peer-AreSame other peer_id a
      λ e. apart (ap (λ p. Communication.peer_disconnect p) e)
incoming_signal-AreSame encode reply peer_id a apart = ground arith

-- What is closed stays so.
close_consumers_for_peer-IsParted :
    (other peer_id : Guid) (c : Consumer) (a : Avatar)
    → IsParted peer_id c a
    → IsParted peer_id c (close_consumers_for_peer other a)
unfolding close_consumers_for_peer
close_consumers_for_peer-IsParted other peer_id c a h =
    elim (Option-cases (lookup other a.movement_consumers)) [
      | inl e ↦ rw (close_consumers_for_peer, e) h
      | inr (consumers, e) ↦
          rw (close_consumers_for_peer, e)
            (
              IsIn-append_left (closed c.handle) a.trace _ h.0,
              still a.movement_consumers h.1,
              still a.frame_events_consumers h.2,
              still a.screen_audio_consumers h.3,
              still a.screen_video_consumers h.4,
            )
    ]
  where
    still :
        {V : Type 0} (m : Map V) → lookup peer_id m ≡ none → lookup peer_id (erase other m) ≡ none
    still m e = ground (arith, lookup-erase other peer_id m)

incoming_signal-IsParted :
    (encode : PeerCounter → Json) (reply : Communication) (peer_id : Guid) (c : Consumer)
    (a : Avatar)
    → IsParted peer_id c a
    → IsParted peer_id c (incoming_signal (parsed encode reply) a)
unfolding parsed incoming_signal
incoming_signal-IsParted encode (Communication.peer_disconnect other) peer_id c a h =
    let h' = close_consumers_for_peer-IsParted other peer_id c a h in
    (IsIn-append_left (closed c.handle) _ _ h'.0, h'.1, h'.2, h'.3, h'.4)
incoming_signal-IsParted encode reply peer_id c a h =
    (IsIn-append_left (closed c.handle) a.trace _ h.0, h.1, h.2, h.3, h.4)

incoming_signal-parts :
    (encode : PeerCounter → Json) (peer_id other : Guid) (c : Consumer) (a : Avatar)
    → other ≢ peer_id
    → IsHeard peer_id c a
    → IsParted peer_id c (incoming_signal (parsed encode (Communication.peer_disconnect peer_id)) a)
unfolding parsed incoming_signal
incoming_signal-parts encode peer_id other c a apart (moves, own) =
    elim (Option-cases (lookup peer_id a.movement_consumers)) [
      | inl e ↦ absurd (moves e)
      | inr (consumers, e) ↦
          let h =
            close_consumers_for_peer-closes peer_id consumers a c other e own
              (λ e. apart (sym e)) in
          (IsIn-append_left (closed c.handle) _ _ h.0, h.1, h.2, h.3, h.4)
    ]

deliver-IsParted :
    (encode : PeerCounter → Json) (replies : List Communication) (peer_id : Guid) (c : Consumer)
    (a : Avatar)
    → IsParted peer_id c a
    → IsParted peer_id c (deliver encode replies a)
unfolding deliver
deliver-IsParted encode [] peer_id c a h = h
deliver-IsParted encode (reply ∷ replies) peer_id c a h =
    deliver-IsParted encode replies peer_id c _
      (incoming_signal-IsParted encode reply peer_id c a h)

is_departure :
    (reply : Communication) (peer_id : Guid)
    → (reply ≡ Communication.peer_disconnect peer_id)
      ⊎ (reply ≢ Communication.peer_disconnect peer_id)
is_departure (Communication.peer_disconnect other) peer_id = elim (Bool-cases (other == peer_id)) [
  | inl e ↦ inl (ground (arith, eq_iff other peer_id))
  | inr e ↦ inr (λ same. ground (arith, eq_iff other peer_id))
]
is_departure reply peer_id = inr (λ same. ground arith)

-- A client that takes, among others, the reply that the peer has left.
pub deliver-parts :
    (encode : PeerCounter → Json) (replies : List Communication) (peer_id other : Guid)
    (c : Consumer) (a : Avatar)
    → other ≢ peer_id
    → IsIn (Communication.peer_disconnect peer_id) replies
    → IsHeard peer_id c a
    → IsParted peer_id c (deliver encode replies a)
unfolding deliver
deliver-parts encode [] peer_id other c a apart told h = elim told [ ]
deliver-parts encode (reply ∷ replies) peer_id other c a apart told h =
    elim (is_departure reply peer_id) [
      | inl e ↦
          deliver-IsParted encode replies peer_id c _
            (rw e (incoming_signal-parts encode peer_id other c a apart h))
      | inr e ↦
          deliver-parts encode replies peer_id other c (incoming_signal (parsed encode reply) a)
            apart (later told e)
            (AreSame-IsHeard peer_id c a (incoming_signal (parsed encode reply) a)
              (incoming_signal-AreSame encode reply peer_id a e) h)
    ]
  where
    later :
        IsIn (Communication.peer_disconnect peer_id) (reply ∷ replies)
        → reply ≢ Communication.peer_disconnect peer_id
        → IsIn (Communication.peer_disconnect peer_id) replies
    later (inl same) e = absurd (e (sym same))
    later (inr rest) e = rest
