-- ===== src/PeerConnectionManager/Agreement/Rooms.antt =====
-- frame/libs/peerConnectionManager.ts and signalRouter.ts: the rooms and the routing table agree, also
-- when a peer joins a room.
use frame_oldbackend_public.Prelude.{
  String, ◌≡◌, refl, inl, inr, Option, none, some, [], ◌∷◌, ◌==◌, arith, eq_iff, truthy,
  Option-cases, Bool-cases,
}
use frame_oldbackend_public.Prelude.Maps.{
  Map, lookup, insert, erase, lookup-insert, lookup-insert_self,
}
use frame_oldbackend_public.Prelude.Entries.{
  Entries, IsDistinct, erase-Entries, erase-IsDistinct, insert-IsDistinct,
}
use frame_oldbackend_public.Types.{Guid, Peer, PeerCounter, Room}
use frame_oldbackend_public.State.{State, Action, state_of, emit}
use frame_oldbackend_public.SignalRouter.Servers.{Result, ok, throws, or_default}
use frame_oldbackend_public.SignalRouter.Router.{
  empty_room, set_route, get_ingress, get_egress, get_movement,
}
use frame_oldbackend_public.PeerConnectionManager.Peers.{with_peer}
use frame_oldbackend_public.PeerConnectionManager.Counts.{send_peer_count, count_departure}
use frame_oldbackend_public.PeerConnectionManager.Joining.{
  join_egress, join_servers, join_selected, join_peer, join_room, selecting, defined,
}
use frame_oldbackend_public.PeerConnectionManager.Leaving.{leave_counted, destroy_room, is_deserted}
use frame_oldbackend_public.PeerConnectionManager.Agreement.Untouched.{IsKept, Keeps}

-- Each room on record is in the routing table, with the same servers, and no name stands twice.
pub record Agrees (s : State) : Type 0 where
  pub routed : Entries (λ name room. lookup name s.router.routing_table ≡ some room) s.rooms
  pub distinct : IsDistinct s.rooms

insert-outside :
    (name : String) (room : Room) (table rooms : Map Room)
    → lookup name rooms ≡ none
    → Entries (λ n r. lookup n table ≡ some r) rooms
    → Entries (λ n r. lookup n (insert name room table) ≡ some r) rooms
unfolding lookup
insert-outside name room table [] fresh h = tt
insert-outside name room table ((n, r) ∷ rooms) fresh h = (
  rw (lookup-insert name n room table) ground (arith, eq_iff n name, eq_iff name n),
  insert-outside name room table rooms (ground arith) h.1,
)

insert-routed :
    (name : String) (room : Room) (table rooms : Map Room)
    → IsDistinct rooms
    → Entries (λ n r. lookup n table ≡ some r) rooms
    → Entries (λ n r. lookup n (insert name room table) ≡ some r) (insert name room rooms)
unfolding insert
insert-routed name room table [] distinct h = (lookup-insert_self name room table, tt)
insert-routed name room table ((n, r) ∷ rooms) distinct h = elim (Bool-cases (n == name)) [
  | inl e ↦
      let same : n ≡ name = ground (arith, eq_iff n name) in
      rw e (
        lookup-insert_self name room table,
        insert-outside name room table rooms (rw same at distinct.0) h.1,
      )
  | inr e ↦ rw e (
    rw (lookup-insert name n room table) ground (arith, eq_iff n name, eq_iff name n),
    insert-routed name room table rooms distinct.1 h.1,
  )
]

-- A call after which the rooms and the routing table agree if they did before.
abbrev pub KeepsAgreement : Action → Type 0
KeepsAgreement m = (s : State) → Agrees s → Agrees (state_of (m s))

pub kept-Agrees : (s t : State) → IsKept s t → Agrees s → Agrees t
kept-Agrees s t (rooms, router) v = record {
  routed = rw (rooms, router) v.routed;
  distinct = rw rooms v.distinct;
}

pub Keeps-KeepsAgreement : (m : Action) → Keeps m → KeepsAgreement m
Keeps-KeepsAgreement m keeps s v = kept-Agrees s (state_of (m s)) (keeps s) v

-- A room is deleted.
abbrev IsWithout : String → State → State → Type 0
IsWithout room s t = (t.rooms ≡ erase room s.rooms) × (t.router ≡ s.router)

pub without-Agrees : (room : String) (s t : State) → IsWithout room s t → Agrees s → Agrees t
without-Agrees room s t (rooms, router) v = record {
  routed =
      rw (rooms, router)
        (erase-Entries (λ n r. lookup n s.router.routing_table ≡ some r) room s.rooms v.routed);
  distinct = rw rooms (erase-IsDistinct room s.rooms v.distinct);
}

pub with_peer-KeepsAgreement :
    (id : Guid) (f : Peer → Action)
    → ((peer : Peer) → KeepsAgreement (f peer))
    → KeepsAgreement (with_peer id f)
with_peer-KeepsAgreement id f keeps s v = elim (Option-cases (lookup id s.peers)) [
  | inl e ↦ rw (e, with_peer, state_of) v
  | inr (peer, e) ↦ rw (e, with_peer, state_of) (keeps peer s v)
]

join_servers-Agrees :
    (id : Guid) (room : String) (peer : Peer) (joining : Room) (i e : Guid) (m : Option Guid)
    (s : State)
    → Agrees s
    → Agrees (join_servers id room peer joining i e m s)
unfolding join_servers set_route
join_servers-Agrees id room peer joining i e m s v = record {
  routed = insert-routed room _ s.router.routing_table s.rooms v.distinct v.routed;
  distinct = insert-IsDistinct room _ s.rooms v.distinct;
}

join_selected-KeepsAgreement :
    (id : Guid) (room : String) (peer : Peer) (joining : Room) (i e m : Option Guid)
    → KeepsAgreement (join_selected id room peer joining i e m)
join_selected-KeepsAgreement id room peer joining none e m s v = v
join_selected-KeepsAgreement id room peer joining (some i) none m s v = v
join_selected-KeepsAgreement id room peer joining (some i) (some e) m s v =
    join_servers-Agrees id room peer joining i e m s v

selecting-KeepsAgreement :
    (r : Result (Option Guid)) (f : Option Guid → Action)
    → ((server : Option Guid) → KeepsAgreement (f server))
    → KeepsAgreement (selecting r f)
selecting-KeepsAgreement throws f keeps s v = v
selecting-KeepsAgreement (ok server) f keeps s v = keeps (defined server) s v

join_peer-KeepsAgreement :
    (id : Guid) (room : String) (peer : Peer) (joining : Room)
    → KeepsAgreement (join_peer id room peer joining)
unfolding join_peer
join_peer-KeepsAgreement id room peer joining s v =
    selecting-KeepsAgreement (get_ingress s.router peer.region) _
      (λ i. selecting-KeepsAgreement (get_egress s.router peer.region) _ (λ e.
        selecting-KeepsAgreement (get_movement s.router peer.region) _
          (λ m. join_selected-KeepsAgreement id room peer joining i e m)))
      (emit (join_egress s.router room peer.transport_signal joining.egress) s)
      (kept-Agrees s _ (refl, refl) v)

pub join_room-KeepsAgreement : (id : Guid) (room : String) → KeepsAgreement (join_room id room)
unfolding join_room
join_room-KeepsAgreement id room = with_peer-KeepsAgreement id _ λ peer s v.
    join_peer-KeepsAgreement id room (record peer { room = some room })
      (or_default empty_room (lookup room s.rooms)) _ (kept-Agrees s _ (refl, refl) v)

destroy_room-Agrees :
    (room : String) (peer : Peer) (s : State) → Agrees s → Agrees (destroy_room room peer s)
unfolding destroy_room
destroy_room-Agrees room peer s v =
    without-Agrees room s _ (ground (arith, Bool-cases (truthy peer.room))) v

pub leave_counted-Agrees :
    (id : Guid) (room : String) (peer : Peer) (count : PeerCounter) (s : State)
    → Agrees s
    → Agrees (leave_counted id room peer count s)
unfolding leave_counted send_peer_count
leave_counted-Agrees id room peer count s v =
    elim (Bool-cases (is_deserted (count_departure peer count))) [
      | inl d ↦ rw d (
          kept-Agrees _ _ (refl, refl)
            (destroy_room-Agrees room peer _ (kept-Agrees s _ (refl, refl) v)))
      | inr d ↦ rw d (kept-Agrees s _ (refl, refl) v)
    ]
