-- ===== src/PeerConnectionManager/Departure.antt =====
-- frame/libs/peerConnectionManager.ts: what is left after `leaveRoom` and
-- `disconnectPeerWebsocket`.
use frame_oldbackend_public.Prelude.{
  zero, suc, arith, ◌⊎◌, ◌↔◌, String, true, false, ◌≡◌, refl, inl, inr, Option, none, some, ◌++◌,
  ◌&&◌, truthy, ap, ◌∙◌, if◌then◌else◌, Bool-cases,
}
use frame_oldbackend_public.Prelude.Counters.{
  ℤ, pos, negsuc, increment, decrement, is_positive, is_zero, decrement-increment,
}
use frame_oldbackend_public.Prelude.Maps.{lookup, lookup-insert_self, lookup-erase_self}
use frame_oldbackend_public.Types.{Guid, Peer, PeerCounter, Room, disconnect_transport}
use frame_oldbackend_public.State.{State, done, emit}
use frame_oldbackend_public.SignalRouter.Requests.{close_ingress_transport}
use frame_oldbackend_public.SignalRouter.Servers.{or_default}
use frame_oldbackend_public.PeerConnectionManager.Peers.{with_peer}
use frame_oldbackend_public.PeerConnectionManager.Counts.{
  send_peer_count, count_arrival, count_departure, leave_lobby, set_count, zero_counter,
}
use frame_oldbackend_public.PeerConnectionManager.Leaving.{
  reset_peer, close_each_egress, announce_leave, is_deserted, destroy_room, leave_counted,
  leave_room,
}
use frame_oldbackend_public.PeerConnectionManager.Invariant.Base.{NotNegative}

leave_lobby-increment : (n : ℤ) → NotNegative n → leave_lobby (increment n) ≡ n
leave_lobby-increment (pos n) h = refl
leave_lobby-increment (negsuc n) h = elim h [ ]

-- A peer that is in the lobby, and is neither participant nor spectator, arrives and departs: the
-- counter of the room is as it was, if its lobby's count was not negative.
pub count_departure-count_arrival :
    (peer : Peer) (c : PeerCounter)
    → peer.is_lobby ≡ true
    → peer.is_spectator ≡ false
    → peer.is_participant ≡ false
    → NotNegative c.lobby_count
    → count_departure peer (count_arrival c) ≡ c
unfolding count_departure count_arrival
count_departure-count_arrival peer c lobby spectator participant h =
    rw
      (
        lobby,
        spectator,
        participant,
        leave_lobby-increment c.lobby_count h,
        decrement-increment c.peer_count,
      )
      refl

-- What `leaveRoom` leaves of the rooms and the counters.
abbrev IsLeft : Guid → String → Peer → Room → PeerCounter → State → Type 0
IsLeft id room peer held count s' =
    (lookup id s'.peers ≡ some (reset_peer peer))
    × (lookup room s'.rooms ≡ (if is_deserted count then none else some held))
    × (lookup room s'.peer_count
        ≡ (if is_deserted count && truthy peer.room then none else some count))

-- The counter is stored, and told.
pub counted_self :
    (exclude : Option Guid) (room : String) (count : PeerCounter) (s : State)
    → lookup room (send_peer_count exclude room (set_count room count s)).peer_count ≡ some count
unfolding send_peer_count
counted_self exclude room count s =
    lookup-insert_self room _ _
    ∙ ap (λ o. some (or_default zero_counter o)) (lookup-insert_self room count s.peer_count)

destroy_room-rooms :
    (room : String) (peer : Peer) (s : State) → lookup room (destroy_room room peer s).rooms ≡ none
unfolding destroy_room
destroy_room-rooms room peer s = elim (Bool-cases (truthy peer.room)) [
  | inl e ↦ rw e (lookup-erase_self room s.rooms)
  | inr e ↦ rw e (lookup-erase_self room s.rooms)
]

destroy_room-counts :
    (room : String) (peer : Peer) (s : State)
    → lookup room (destroy_room room peer s).peer_count
      ≡ (if truthy peer.room then none else lookup room s.peer_count)
unfolding destroy_room
destroy_room-counts room peer s = elim (Bool-cases (truthy peer.room)) [
  | inl e ↦ rw e (lookup-erase_self room s.peer_count)
  | inr e ↦ rw e refl
]

leave_counted-IsLeft :
    (id : Guid) (room : String) (peer : Peer) (held : Room) (count : PeerCounter) (s : State)
    → lookup room s.rooms ≡ some held
    → IsLeft id room peer held (count_departure peer count) (leave_counted id room peer count s)
unfolding leave_counted
leave_counted-IsLeft id room peer held count s e =
    let count' = count_departure peer count in
    let told = counted_self (some peer.id) room count' s in
    elim (Bool-cases (is_deserted count')) [
      | inl d ↦ rw d (
        lookup-insert_self id _ _,
        destroy_room-rooms room peer _,
        destroy_room-counts room peer _ ∙ ap (λ o. if truthy peer.room then none else o) told,
      )
      | inr d ↦ rw d (lookup-insert_self id _ _, e, told)
    ]

-- The state in which the transports of the peer are closed and the others are told.
abbrev pub announced : Guid → String → Peer → Room → State → State
announced id room peer held s =
    emit
      (close_each_egress s.router peer.transport_signal (disconnect_transport id) held.egress
        ++ announce_leave s room id)
      (emit
        (close_ingress_transport s.router peer.transport_signal (disconnect_transport id)
          peer.ingress)
        s)

pub leave_room-counted :
    (id : Guid) (room : String) (s : State) (peer : Peer) (held : Room) (count : PeerCounter)
    → lookup id s.peers ≡ some peer
    → lookup room s.rooms ≡ some held
    → lookup room s.peer_count ≡ some count
    → leave_room id room s ≡ done (leave_counted id room peer count (announced id room peer held s))
unfolding leave_room
leave_room-counted id room s peer held count found in_rooms counted =
    rw (found, with_peer, in_rooms, counted) refl

-- The peer as it is outside of every room.
abbrev pub outside : Peer → Peer
outside peer = record peer {
  room = none;
  is_lobby = true;
  is_spectator = false;
  is_participant = false;
  ingress = none;
  egress = none;
}

-- The counter without the peer, by what the peer was; the count of the lobby stops at zero.
abbrev pub without_peer : Peer → PeerCounter → PeerCounter
without_peer peer c = record {
  lobby_count =
      if peer.is_lobby && is_positive c.lobby_count then decrement c.lobby_count else c.lobby_count;
  spectator_count = if peer.is_spectator then decrement c.spectator_count else c.spectator_count;
  peer_count = decrement c.peer_count;
  participant_count =
      if peer.is_participant then decrement c.participant_count else c.participant_count;
}

-- Neither a participant nor a peer in the lobby is counted.
abbrev pub HasNobody : PeerCounter → Type 0
HasNobody c = (c.participant_count ≡ pos 0) × (c.lobby_count ≡ pos 0)

reset_peer-outside : (peer : Peer) → reset_peer peer ≡ outside peer
unfolding reset_peer
reset_peer-outside peer = refl

pub count_departure-without_peer :
    (peer : Peer) (c : PeerCounter) → count_departure peer c ≡ without_peer peer c
unfolding count_departure
count_departure-without_peer peer c = elim (Bool-cases peer.is_lobby) [
  | inl e ↦ rw e refl
  | inr e ↦ rw e refl
]

is_zero_iff : (n : ℤ) → (is_zero n ≡ true) ↔ (n ≡ pos 0)
is_zero_iff (pos zero) = ground arith
is_zero_iff (pos (suc n)) = ground arith
is_zero_iff (negsuc n) = ground arith

is_deserted_iff : (c : PeerCounter) → (is_deserted c ≡ true) ↔ HasNobody c
is_deserted_iff c = ground (arith, is_zero_iff c.participant_count, is_zero_iff c.lobby_count)

-- What `leaveRoom` leaves of a room and its counter, where `count` is without the peer.
abbrev pub IsClosedOrKept : String → Peer → Room → PeerCounter → State → Type 0
IsClosedOrKept room peer held count s' =
    (HasNobody count
      × (lookup room s'.rooms ≡ none)
      × (lookup room s'.peer_count ≡ (if truthy peer.room then none else some count)))
    ⊎ ((HasNobody count → ⊥)
        × (lookup room s'.rooms ≡ some held)
        × (lookup room s'.peer_count ≡ some count))

IsLeft-IsClosedOrKept :
    (id : Guid) (room : String) (peer : Peer) (held : Room) (count : PeerCounter) (s' : State)
    → IsLeft id room peer held count s'
    → IsClosedOrKept room peer held count s'
IsLeft-IsClosedOrKept id room peer held count s' (left, rooms, counted) =
    elim (Bool-cases (is_deserted count)) [
      | inl e ↦ inl ((is_deserted_iff count).0 e, rw e at rooms, rw e at counted)
      | inr e ↦
          inr (λ nobody. ground (arith, is_deserted_iff count), rw e at rooms, rw e at counted)
    ]

-- A known peer leaves a room that is on record and has a counter: the call returns, and the peer is
-- outside of every room, in the lobby, neither participant nor spectator, and without an ingress and
-- an egress server. The peer is taken off the counter, each count by what the peer was; where neither
-- a participant nor a peer in the lobby is left, the room is deleted, and so is its counter if the
-- peer was in a room that has a name; otherwise both stay.
pub leave_room-leaves :
    (id : Guid) (room : String) (s : State) (peer : Peer) (held : Room) (count : PeerCounter)
    → lookup id s.peers ≡ some peer
    → lookup room s.rooms ≡ some held
    → lookup room s.peer_count ≡ some count
    → (s' : State) × (leave_room id room s ≡ done s')
      × (lookup id s'.peers ≡ some (outside peer))
      × IsClosedOrKept room peer held (without_peer peer count) s'
leave_room-leaves id room s peer held count found in_rooms counted =
    let s1 = announced id room peer held s in
    let facts = leave_counted-IsLeft id room peer held count s1 in_rooms in
    (
      leave_counted id room peer count s1,
      leave_room-counted id room s peer held count found in_rooms counted,
      facts.0 ∙ ap some (reset_peer-outside peer),
      told_by (leave_counted id room peer count s1) (count_departure-without_peer peer count) (
          IsLeft-IsClosedOrKept id room peer held (count_departure peer count)
            (leave_counted id room peer count s1) facts),
    )
  where
    told_by :
        {c d : PeerCounter} (s' : State)
        → c ≡ d
        → IsClosedOrKept room peer held c s'
        → IsClosedOrKept room peer held d s'
    told_by s' e h = rw (← e) h
