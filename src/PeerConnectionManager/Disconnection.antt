-- ===== src/PeerConnectionManager/Disconnection.antt =====
-- frame/libs/peerConnectionManager.ts, `disconnectPeerWebsocket`: its outcomes.
use frame_oldbackend_public.Prelude.{
  String, true, false, ◌↔◌, ◌⊎◌, ◌∷◌, ◌≡◌, refl, ap, ◌==◌, ◌≢◌, inl, inr, none, some, [], arith,
  eq_iff, ◌∙◌, if◌then◌else◌, Bool-cases,
}
use frame_oldbackend_public.Prelude.Counters.{is_positive}
use frame_oldbackend_public.Prelude.Maps.{
  Map, lookup, erase, values, lookup-erase, lookup-erase_self,
}
use frame_oldbackend_public.Prelude.Entries.{IsDistinct, erase-IsDistinct}
use frame_oldbackend_public.PeerConnectionManager.Audience.{opt_eq_iff}
use frame_oldbackend_public.Types.{Guid, Peer, PeerCounter, Room, disconnect_transport}
use frame_oldbackend_public.State.{State, done, emit}
use frame_oldbackend_public.SignalRouter.Requests.{close_ingress_transport}
use frame_oldbackend_public.PeerConnectionManager.Peers.{find_transport}
use frame_oldbackend_public.PeerConnectionManager.Counts.{send_peer_count, count_departure}
use frame_oldbackend_public.PeerConnectionManager.Leaving.{close_each_egress}
use frame_oldbackend_public.PeerConnectionManager.Disconnect.{
  is_left_in, is_empty_room, close_empty_room, announce_disconnect, uncount_peer,
  disconnect_counted, disconnect_from, on_last_peer_disconnect, disconnect_peer,
  disconnect_peer_websocket,
}
use frame_oldbackend_public.PeerConnectionManager.Departure.{
  counted_self, without_peer, count_departure-without_peer,
}

uncount_peer_self :
    (peer : Peer) (room : String) (count : PeerCounter) (s : State)
    → lookup room (uncount_peer peer room count s).peer_count ≡ some (count_departure peer count)
unfolding uncount_peer send_peer_count
uncount_peer_self peer room count s =
    counted_self (some peer.id) room (count_departure peer count) (
      emit
        (if is_positive (count_departure peer count).participant_count
          then []
          else on_last_peer_disconnect room)
        s)

uncount_peer-rooms :
    (peer : Peer) (room : String) (count : PeerCounter) (s : State)
    → (uncount_peer peer room count s).rooms ≡ s.rooms
unfolding uncount_peer send_peer_count
uncount_peer-rooms peer room count s = refl

disconnect_counted-known :
    (peer : Peer) (room : String) (count : PeerCounter) (s : State)
    → lookup room s.peer_count ≡ some count
    → disconnect_counted peer room s
      ≡ done (announce_disconnect peer.id room (uncount_peer peer room count s))
unfolding disconnect_counted
disconnect_counted-known peer room count s e = rw (e, disconnect_counted) refl

-- The state in which the peer's transports are closed.
abbrev closed : Guid → Peer → Room → State → State
closed transport peer held s =
    emit (close_each_egress s.router transport (disconnect_transport peer.id) held.egress) (
      emit (close_ingress_transport s.router transport (disconnect_transport peer.id) peer.ingress)
        s)

-- The websocket of a known peer closes, and the peer's room is on record: what the call comes to.
disconnect_peer_websocket-counted :
    (transport : Guid) (s : State) (peer : Peer) (room : String) (held : Room)
    → transport ≢ ""
    → find_transport transport (values s.peers) ≡ some peer
    → peer.room ≡ some room
    → room ≢ ""
    → lookup room s.rooms ≡ some held
    → disconnect_peer_websocket transport s
      ≡ disconnect_counted peer room (closed transport peer held s)
unfolding disconnect_peer_websocket disconnect_peer disconnect_from
disconnect_peer_websocket-counted transport s peer room held named found inside room_named
      in_rooms =
    ground (arith, eq_iff transport "", eq_iff room "")

-- Another known peer, with an id that is not empty, is in the room.
abbrev pub IsOccupied : String → Guid → Map Peer → Type 0
IsOccupied room id m =
    (other : Guid) × (p : Peer) × (lookup other m ≡ some p)
    × (other ≢ id)
    × (p.id ≢ "")
    × (p.room ≡ some room)

is_left_in_iff :
    (room : String) (p : Peer) → (is_left_in room p ≡ true) ↔ ((p.id ≢ "") × (p.room ≡ some room))
is_left_in_iff room p = ground (arith, eq_iff p.id "", opt_eq_iff p.room (some room))

-- A map with a peer in the room is not empty of it.
is_empty_room-lookup :
    (room : String) (m : Map Peer) (k : Guid) (p : Peer)
    → lookup k m ≡ some p
    → is_left_in room p ≡ true
    → is_empty_room room (values m) ≡ false
unfolding lookup is_empty_room
is_empty_room-lookup room [] k p found inside = ground arith
is_empty_room-lookup room ((j, q) ∷ m) k p found inside =
    ground (arith, is_empty_room-lookup room m k p)

lookup-is_empty_room :
    (room : String) (m : Map Peer)
    → IsDistinct m
    → is_empty_room room (values m) ≡ false
    → (k : Guid) × (p : Peer) × (lookup k m ≡ some p) × (is_left_in room p ≡ true)
unfolding lookup is_empty_room
lookup-is_empty_room room [] distinct h = ground arith
lookup-is_empty_room room ((j, q) ∷ m) distinct h = elim (Bool-cases (is_left_in room q)) [
  | inl e ↦ (j, q, ground (arith, eq_iff j j), e)
  | inr e ↦
      let (k, p, found, inside) = lookup-is_empty_room room m distinct.1 (ground arith) in
      (k, p, ground (arith, eq_iff j k), inside)
]

-- Once the peer is erased, the room is empty exactly if no other peer is in it.
is_empty_room-IsOccupied :
    (room : String) (id : Guid) (m : Map Peer)
    → IsDistinct m
    → ((is_empty_room room (values (erase id m)) ≡ false) × IsOccupied room id m)
      ⊎ ((is_empty_room room (values (erase id m)) ≡ true) × (IsOccupied room id m → ⊥))
is_empty_room-IsOccupied room id m distinct =
    elim (Bool-cases (is_empty_room room (values (erase id m)))) [
      | inl e ↦ inr (
        e,
        λ (other, p, found, apart, named, inside).
            (let left = lookup-erase id other m in
              let there : lookup other (erase id m) ≡ some p = ground (arith, eq_iff id other) in
              let full =
                is_empty_room-lookup room (erase id m) other p there
                  ((is_left_in_iff room p).1 (named, inside)) in
              ground arith),
      )
      | inr e ↦
          let (k, p, found, inside) =
            lookup-is_empty_room room (erase id m) (erase-IsDistinct id m distinct) e in
          let left = lookup-erase id k m in
          let facts = (is_left_in_iff room p).0 inside in
          inl (
            e,
            (
              k,
              p,
              ground (arith, eq_iff id k),
              (λ same. ground (arith, eq_iff id k)),
              facts.0,
              facts.1,
            ),
          )
    ]

uncount_peer-peers :
    (peer : Peer) (room : String) (count : PeerCounter) (s : State)
    → (uncount_peer peer room count s).peers ≡ erase peer.id s.peers
unfolding uncount_peer send_peer_count
uncount_peer-peers peer room count s = refl

-- What `disconnectPeerWebsocket` leaves of a room and its counter, where `count` is without the peer.
abbrev pub IsLeftBehind : String → Guid → Room → PeerCounter → State → State → Type 0
IsLeftBehind room id held count s s' =
    (IsOccupied room id s.peers
      × (lookup room s'.rooms ≡ some held)
      × (lookup room s'.peer_count ≡ some count))
    ⊎ ((IsOccupied room id s.peers → ⊥)
        × (lookup room s'.rooms ≡ none)
        × (lookup room s'.peer_count ≡ none))

announce_disconnect-IsLeftBehind :
    (peer : Peer) (room : String) (held : Room) (count : PeerCounter) (before s : State)
    → IsDistinct before.peers
    → s.peers ≡ erase peer.id before.peers
    → lookup room s.rooms ≡ some held
    → lookup room s.peer_count ≡ some count
    → let s' = announce_disconnect peer.id room s in
      (s'.peers ≡ erase peer.id before.peers) × IsLeftBehind room peer.id held count before s'
unfolding announce_disconnect close_empty_room
announce_disconnect-IsLeftBehind peer room held count before s distinct erased in_rooms counted =
    elim (is_empty_room-IsOccupied room peer.id before.peers distinct) [
      | inl (e, occupied) ↦
          let f : is_empty_room room (values s.peers) ≡ false = rw erased e in
          rw (announce_disconnect, f, if◌then◌else◌) (erased, inl (occupied, in_rooms, counted))
      | inr (e, deserted) ↦
          let f : is_empty_room room (values s.peers) ≡ true = rw erased e in
          rw (announce_disconnect, f, if◌then◌else◌)
            (
              erased,
              inr (deserted, lookup-erase_self room s.rooms, lookup-erase_self room s.peer_count),
            )
    ]

-- The websocket of a known peer closes, whose room has a name that is not empty, is on record and
-- has a counter; the websocket's name is not empty either, and no peer stands twice. The call returns,
-- and the peer is gone and every other peer is as before. If another known peer, with an id that is
-- not empty, is in the room, then the room stays and the peer is taken off its counter, each count by
-- what the peer was; if there is none, the room and its counter are gone as well.
pub disconnect_peer_websocket-removes :
    (transport : Guid) (s : State) (peer : Peer) (room : String) (held : Room) (count : PeerCounter)
    (other : Guid)
    → transport ≢ ""
    → find_transport transport (values s.peers) ≡ some peer
    → peer.room ≡ some room
    → room ≢ ""
    → lookup room s.rooms ≡ some held
    → lookup room s.peer_count ≡ some count
    → IsDistinct s.peers
    → (s' : State) × (disconnect_peer_websocket transport s ≡ done s')
      × (lookup other s'.peers ≡ (if peer.id == other then none else lookup other s.peers))
      × IsLeftBehind room peer.id held (without_peer peer count) s s'
disconnect_peer_websocket-removes transport s peer room held count other named found inside
      room_named in_rooms counted distinct =
    let s1 = closed transport peer held s in
    let removed = uncount_peer peer room count s1 in
    let facts =
      announce_disconnect-IsLeftBehind peer room held (without_peer peer count) s removed distinct
        (uncount_peer-peers peer room count s1)
        (rw (uncount_peer-rooms peer room count s1) in_rooms)
        (uncount_peer_self peer room count s1
          ∙ ap some (count_departure-without_peer peer count)) in
    (
      announce_disconnect peer.id room removed,
      disconnect_peer_websocket-counted transport s peer room held named found inside room_named
            in_rooms
          ∙ disconnect_counted-known peer room count s1 counted,
      ap (lookup other) facts.0 ∙ lookup-erase peer.id other s.peers,
      facts.1,
    )
