-- ===== src/PeerConnectionManager/Invariant/Rooms.antt =====
-- Joining and leaving rooms, and disconnecting, keep the invariant.
use frame_oldbackend_public.Prelude.{
  String, ◌≡◌, refl, ◌≢◌, inl, inr, Option, none, some, List, [], ◌∷◌, arith, if◌then◌else◌,
  Option-cases, Bool-cases, truthy,
}
use frame_oldbackend_public.Prelude.Maps.{lookup, includes}
use frame_oldbackend_public.Prelude.Entries.{lookup-Entries}
use frame_oldbackend_public.Types.{Guid, Peer, PeerCounter, Room}
use frame_oldbackend_public.State.{State, Action, state_of, emit}
use frame_oldbackend_public.SignalRouter.Servers.{Result, ok, throws, or_default}
use frame_oldbackend_public.SignalRouter.Router.{empty_room, get_ingress, get_egress, get_movement}
use frame_oldbackend_public.PeerConnectionManager.Counts.{count_departure}
use frame_oldbackend_public.PeerConnectionManager.Joining.{
  push_new, join_egress, join_servers, joined_peer, join_selected, selecting, defined, join_peer,
  join_room,
}
use frame_oldbackend_public.PeerConnectionManager.Leaving.{
  reset_peer, destroy_room, leave_counted, leave_room, is_deserted,
}
use frame_oldbackend_public.PeerConnectionManager.Invariant.Base.{
  IsPeer, IsCount, Inv, KeepsInv, emit-Inv, set_peer-Inv, set_count-Inv, delete_room-Inv,
  delete_count-Inv, with_router-Inv, with_room-Inv, with_peer-KeepsInv, leave_lobby-NotNegative,
}
use frame_oldbackend_public.PeerConnectionManager.Invariant.Counting.{send_peer_count-Inv}

-- A list to which a server was pushed is not empty.
push_new-ne-nil : (id : Guid) (ids : List Guid) → push_new id ids ≢ []
unfolding push_new includes
push_new-ne-nil id [] = ground arith
push_new-ne-nil id (x ∷ ids) = ground arith

joined_peer-IsPeer :
    (id : Guid) (movement : Option Guid) (ingress egress : Guid) (peer : Peer) (room : String)
    → IsPeer id peer
    → peer.room ≡ some room
    → IsPeer id (joined_peer movement ingress egress peer)
unfolding joined_peer
joined_peer-IsPeer id none ingress egress peer room p inside = record {
  named = p.named;
  outside = λ r. ground arith;
}
joined_peer-IsPeer id (some m) ingress egress peer room p inside = record {
  named = p.named;
  outside = λ r. ground arith;
}

join_servers-Inv :
    (id : Guid) (room : String) (peer : Peer) (joining : Room) (ingress egress : Guid)
    (movement : Option Guid)
    → IsPeer id peer
    → peer.room ≡ some room
    → (s : State) → Inv s
    → Inv (join_servers id room peer joining ingress egress movement s)
unfolding join_servers
join_servers-Inv id room peer joining ingress egress movement p inside s v = with_router-Inv _ _ (
    with_room-Inv room _ _
      (emit-Inv _ _ (
        set_peer-Inv id _ _ (emit-Inv _ s v)
          (joined_peer-IsPeer id movement ingress egress peer room p inside)))
      (record {
        ingress = push_new-ne-nil ingress joining.ingress;
        egress = push_new-ne-nil egress joining.egress;
      }))

join_selected-KeepsInv :
    (id : Guid) (room : String) (peer : Peer) (joining : Room)
    (ingress egress movement : Option Guid)
    → IsPeer id peer
    → peer.room ≡ some room
    → KeepsInv (join_selected id room peer joining ingress egress movement)
join_selected-KeepsInv id room peer joining none egress movement p inside s v = v
join_selected-KeepsInv id room peer joining (some i) none movement p inside s v = v
join_selected-KeepsInv id room peer joining (some i) (some e) movement p inside s v =
    join_servers-Inv id room peer joining i e movement p inside s v

selecting-KeepsInv :
    (r : Result (Option Guid)) (f : Option Guid → Action)
    → ((server : Option Guid) → KeepsInv (f server))
    → KeepsInv (selecting r f)
selecting-KeepsInv throws f keeps s v = v
selecting-KeepsInv (ok server) f keeps s v = keeps (defined server) s v

join_peer-KeepsInv :
    (id : Guid) (room : String) (peer : Peer) (joining : Room)
    → IsPeer id peer
    → peer.room ≡ some room
    → KeepsInv (join_peer id room peer joining)
unfolding join_peer
join_peer-KeepsInv id room peer joining p inside s v =
    let select = join_selected id room peer joining in
    let third = λ (i e : Option Guid). selecting (get_movement s.router peer.region) (select i e) in
    let second = λ (i : Option Guid). selecting (get_egress s.router peer.region) (third i) in
    selecting-KeepsInv (get_ingress s.router peer.region) second
      (λ i. selecting-KeepsInv (get_egress s.router peer.region) (third i) (λ e.
        selecting-KeepsInv (get_movement s.router peer.region) (select i e)
          (λ m. join_selected-KeepsInv id room peer joining i e m p inside)))
      (emit (join_egress s.router room peer.transport_signal joining.egress) s) (emit-Inv _ s v)

pub join_room-KeepsInv : (id : Guid) (room : String) → KeepsInv (join_room id room)
unfolding join_room
join_room-KeepsInv id room = with_peer-KeepsInv id _ λ peer s v p e.
    let q : IsPeer id (record peer { room = some room }) = record {
      named = p.named;
      outside = λ r. ground arith;
    } in
    join_peer-KeepsInv id room _ (or_default empty_room (lookup room s.rooms)) q refl _
      (set_peer-Inv id _ s v q)

pub count_departure-IsCount :
    (room : String) (peer : Peer) (count : PeerCounter)
    → IsCount room count
    → IsCount room (count_departure peer count)
unfolding count_departure
count_departure-IsCount room peer count h = elim (Bool-cases peer.is_lobby) [
  | inl e ↦ rw (e, if◌then◌else◌) (leave_lobby-NotNegative count.lobby_count h)
  | inr e ↦ rw (e, if◌then◌else◌) h
]

destroy_room-Inv :
    (room : String) (peer : Peer) (s : State) → Inv s → Inv (destroy_room room peer s)
unfolding destroy_room
destroy_room-Inv room peer s v = elim (Bool-cases (truthy peer.room)) [
  | inl e ↦
      rw (e, if◌then◌else◌) (emit-Inv _ _ (delete_room-Inv room _ (delete_count-Inv room s v)))
  | inr e ↦ rw (e, if◌then◌else◌) (emit-Inv _ _ (delete_room-Inv room s v))
]

reset_peer-IsPeer : (id : Guid) (peer : Peer) → IsPeer id peer → IsPeer id (reset_peer peer)
unfolding reset_peer
reset_peer-IsPeer id peer p = record { named = p.named; outside = λ r. ground arith }

leave_counted-Inv :
    (id : Guid) (room : String) (peer : Peer) (count : PeerCounter) (s : State)
    → IsPeer id peer
    → IsCount room count
    → Inv s
    → Inv (leave_counted id room peer count s)
unfolding leave_counted
leave_counted-Inv id room peer count s p c v =
    let count' = count_departure peer count in
    let told =
      send_peer_count-Inv (some peer.id) room _
        (set_count-Inv room count' s v (count_departure-IsCount room peer count c)) in
    elim (Bool-cases (is_deserted count')) [
      | inl e ↦
          rw (e, if◌then◌else◌)
            (set_peer-Inv id _ _ (destroy_room-Inv room peer _ told) (reset_peer-IsPeer id peer p))
      | inr e ↦ rw (e, if◌then◌else◌) (set_peer-Inv id _ _ told (reset_peer-IsPeer id peer p))
    ]

pub leave_room-KeepsInv : (id : Guid) (room : String) → KeepsInv (leave_room id room)
unfolding leave_room
leave_room-KeepsInv id room = with_peer-KeepsInv id _ λ peer s v p e.
    elim (Option-cases (lookup room s.rooms)) [
      | inl f ↦ rw (f, state_of) (emit-Inv _ s v)
      | inr (room_data, f) ↦ elim (Option-cases (lookup room s.peer_count)) [
        | inl g ↦ rw (f, g, state_of) (emit-Inv _ _ (emit-Inv _ s v))
        | inr (count, g) ↦
            rw (f, g, state_of)
              (leave_counted-Inv id room peer count _ p
                (lookup-Entries IsCount room count s.peer_count v.counts g)
                (emit-Inv _ _ (emit-Inv _ s v)))
      ]
    ]
