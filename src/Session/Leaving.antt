-- ===== src/Session/Leaving.antt =====
-- A peer leaves a room: what its client asks of the api server, and what the server sends for the others.
use frame_oldbackend_public.Prelude.{
  truthy, String, true, Option, none, some, List, [], ◌∷◌, ◌++◌, map, ◌≡◌, refl, ap, ◌∙◌, inl, inr,
  Bool-cases, Option-cases,
}
use frame_oldbackend_public.Prelude.Lists.{
  length, drop, drop-append, IsIn, IsIn-append_left, IsIn-append_right,
}
use frame_oldbackend_public.Prelude.Maps.{lookup, values}
use frame_oldbackend_public.Types.{Guid, Peer, PeerCounter, Room, Effect, disconnect_transport}
use frame_oldbackend_public.Types.Commands.{RequestMessage}
use frame_oldbackend_public.State.{State, done, state_of}
use frame_oldbackend_public.PeerConnectionManager.Peers.{with_peer}
use frame_oldbackend_public.PeerConnectionManager.Counts.{
  count_departure, set_count, send_peer_count,
}
use frame_oldbackend_public.PeerConnectionManager.Departure.{announced, leave_room-counted}
use frame_oldbackend_public.SignalRouter.Requests.{close_ingress_transport}
use mathlib.Core.List.{append_assoc}
use frame_oldbackend_public.PeerConnectionManager.Leaving.{
  announce_leave, close_each_egress, is_deserted, destroy_room, leave_counted, leave_room,
}
use frame_oldbackend_public.Avatar.State.{
  Handle, Consumer, Producer, ClientEffect, closed, signalled, leave_handled, Avatar,
}
use frame_oldbackend_public.Avatar.Consumers.{close_all}
use frame_oldbackend_public.Avatar.Leaving.{
  Page, left, elements, close_producer, close_lists, close_transport, leave_frame,
}
use frame_oldbackend_public.Avatar.Departure.{closings, leave_frame-left}
use frame_oldbackend_public.Session.Messages.{requests_in, requests_in-append}

-- What is closed is no request.
requests_in-closed :
    {A : Type 0} (f : A → Handle) (xs : List A) → requests_in (map (λ x. closed (f x)) xs) ≡ []
unfolding requests_in
requests_in-closed f [] = refl
requests_in-closed f (x ∷ xs) = requests_in-closed f xs

requests_in-none :
    (xs ys : List ClientEffect)
    → requests_in xs ≡ []
    → requests_in ys ≡ []
    → requests_in (xs ++ ys) ≡ []
requests_in-none xs ys e f = rw (requests_in-append xs ys, e, f) refl

requests_in-close_lists : (m : List (List Consumer)) → requests_in (close_lists m) ≡ []
unfolding requests_in
requests_in-close_lists [] = refl
requests_in-close_lists (cs ∷ m) =
    requests_in-none (close_all cs) (close_lists m)
      (requests_in-closed (λ (c : Consumer). c.handle) cs) (requests_in-close_lists m)

requests_in-close_producer : (o : Option Producer) → requests_in (close_producer o) ≡ []
unfolding requests_in
requests_in-close_producer none = refl
requests_in-close_producer (some p) = refl

requests_in-close_transport : (o : Option Handle) → requests_in (close_transport o) ≡ []
unfolding requests_in
requests_in-close_transport none = refl
requests_in-close_transport (some t) = refl

requests_in-closings : (a : Avatar) → requests_in (closings a) ≡ []
unfolding closings elements
requests_in-closings a =
    let handle = λ (c : Consumer). c.handle in
    let of_producer = λ (p : Producer). p.handle in
    requests_in-none _ _
      (requests_in-none _ _ (requests_in-closed handle (values a.audio_consumers)) (
        requests_in-none _ _ (requests_in-closed handle (values a.video_consumers)) (
          requests_in-none _ _ (requests_in-close_lists (values a.movement_consumers))
            (requests_in-close_lists (values a.frame_events_consumers)))))
      (requests_in-none _ _
        (requests_in-none _ _ (requests_in-close_producer a.video_producer) (
          requests_in-none _ _ (requests_in-close_producer a.audio_producer) (
            requests_in-none _ _ (requests_in-closed of_producer (elements a.screen_video_producer))
              (requests_in-none _ _
                (requests_in-closed of_producer (elements a.screen_audio_producer))
                (requests_in-none _ _ (requests_in-close_producer a.movement_producer)
                  (requests_in-close_producer a.frame_events_producer))))))
        (requests_in-none _ _ (requests_in-closed (λ (h : Handle). h) (values a.consumer_transport))
          (requests_in-close_transport a.producer_transport)))

pub leave_frame-requests :
    (frame_name : String) (page : Page) (a b : Avatar)
    → leave_frame frame_name page a ≡ left b
    → a.websocket_ready ≡ true
    → requests_in (drop (length a.trace) b.trace)
      ≡ RequestMessage.leave_room a.avatar_id frame_name ∷ []
unfolding requests_in
leave_frame-requests frame_name page a b e open_ready =
    let told = signalled (RequestMessage.leave_room a.avatar_id frame_name) ∷ [] in
    let first = leave_handled frame_name ∷ [] in
    let whole : b.trace ≡ a.trace ++ (first ++ (closings a ++ told)) =
      (leave_frame-left frame_name page a b e open_ready).0
      ∙ append_assoc (a.trace ++ first) (closings a) told
      ∙ append_assoc a.trace first (closings a ++ told) in
    rw
      (
        whole,
        drop-append a.trace (first ++ (closings a ++ told)) (length a.trace) refl,
        requests_in-append (closings a) told,
        requests_in-closings a,
      )
      refl

-- What a call sends is added at the end.
abbrev Adds : State → State → Type 0
Adds s s' = (effects : List Effect) × (s'.trace ≡ s.trace ++ effects)

Adds-trans : (s t u : State) → Adds s t → Adds t u → Adds s u
Adds-trans s t u (xs, e) (ys, f) = (xs ++ ys, f ∙ ap (λ l. l ++ ys) e ∙ append_assoc s.trace xs ys)

destroy_room-Adds : (room : String) (peer : Peer) (s : State) → Adds s (destroy_room room peer s)
unfolding destroy_room
destroy_room-Adds room peer s = elim (Bool-cases (truthy peer.room)) [
  | inl e ↦ rw (destroy_room, e) (_, refl)
  | inr e ↦ rw (destroy_room, e) (_, refl)
]

send_peer_count-Adds :
    (exclude : Option Guid) (room : String) (s : State) → Adds s (send_peer_count exclude room s)
unfolding send_peer_count
send_peer_count-Adds exclude room s = (_, refl)

leave_counted-Adds :
    (id : Guid) (room : String) (peer : Peer) (count : PeerCounter) (s : State)
    → Adds s (leave_counted id room peer count s)
unfolding leave_counted
leave_counted-Adds id room peer count s =
    let count' = count_departure peer count in
    let s1 = send_peer_count (some peer.id) room (set_count room count' s) in
    let told : Adds s s1 = send_peer_count-Adds (some peer.id) room (set_count room count' s) in
    elim (Bool-cases (is_deserted count')) [
      | inl e ↦
          rw (leave_counted, e)
            (Adds-trans s s1 (destroy_room room peer s1) told (destroy_room-Adds room peer s1))
      | inr e ↦ rw (leave_counted, e) told
    ]

leave_room-uncounted :
    (id : Guid) (room : String) (s : State) (peer : Peer) (held : Room)
    → lookup id s.peers ≡ some peer
    → lookup room s.rooms ≡ some held
    → lookup room s.peer_count ≡ none
    → leave_room id room s ≡ done (announced id room peer held s)
unfolding leave_room
leave_room-uncounted id room s peer held found in_rooms none_counted =
    rw (found, with_peer, in_rooms, none_counted) refl

-- A known peer leaves a room on record: the messages of `announce_leave` are among what is sent.
pub leave_room-told :
    (id : Guid) (room : String) (s : State) (peer : Peer) (held : Room) (told : Effect)
    → lookup id s.peers ≡ some peer
    → lookup room s.rooms ≡ some held
    → IsIn told (announce_leave s room id)
    → (effects : List Effect) × ((state_of (leave_room id room s)).trace ≡ s.trace ++ effects)
      × IsIn told effects
leave_room-told id room s peer held told found in_rooms h =
    let message = disconnect_transport id in
    let ws = peer.transport_signal in
    let first = close_ingress_transport s.router ws message peer.ingress in
    let second = close_each_egress s.router ws message held.egress in
    let own = first ++ (second ++ announce_leave s room id) in
    let among : IsIn told own =
      IsIn-append_right told first _ (IsIn-append_right told second _ h) in
    let same : (announced id room peer held s).trace ≡ s.trace ++ own =
      append_assoc s.trace first (second ++ announce_leave s room id) in
    elim (Option-cases (lookup room s.peer_count)) [
      | inl e ↦ rw (leave_room-uncounted id room s peer held found in_rooms e) (own, same, among)
      | inr (count, e) ↦
          let (more, f) = leave_counted-Adds id room peer count (announced id room peer held s) in
          rw (leave_room-counted id room s peer held count found in_rooms e) (
            own ++ more,
            f ∙ ap (λ l. l ++ more) same ∙ append_assoc s.trace own more,
            IsIn-append_left told own more among,
          )
    ]
