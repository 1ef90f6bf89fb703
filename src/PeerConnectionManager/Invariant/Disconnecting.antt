-- ===== src/PeerConnectionManager/Invariant/Disconnecting.antt =====
-- Disconnecting peers and dropping routes keep the invariant.
use frame_oldbackend_public.Prelude.{
  String, inl, inr, Option, none, some, List, [], ◌∷◌, ◌==◌, arith, if◌then◌else◌, Option-cases,
  Bool-cases,
}
use frame_oldbackend_public.Prelude.Maps.{Map, lookup, values, keys}
use frame_oldbackend_public.Prelude.Entries.{Entries, lookup-Entries}
use frame_oldbackend_public.Types.{Guid, Peer, PeerCounter, Room}
use frame_oldbackend_public.State.{State, state_of, modify}
use frame_oldbackend_public.PeerConnectionManager.Peers.{find_transport}
use frame_oldbackend_public.PeerConnectionManager.Disconnect.{
  is_empty_room, close_empty_room, announce_disconnect, uncount_peer, disconnect_counted,
  disconnect_from, disconnect_room, disconnect_peer, disconnect_peer_websocket, boot_peer,
  is_on_route, drop_peers, drop_rooms, drop_route,
}
use frame_oldbackend_public.PeerConnectionManager.Invariant.Base.{
  IsRoom, IsCount, Inv, KeepsInv, emit-Inv, set_count-Inv, delete_peer-Inv, delete_room-Inv,
  delete_count-Inv, with_peer-KeepsInv, >>-KeepsInv,
}
use frame_oldbackend_public.PeerConnectionManager.Invariant.Counting.{send_peer_count-Inv}
use frame_oldbackend_public.PeerConnectionManager.Invariant.Rooms.{count_departure-IsCount}

close_empty_room-Inv : (room : String) (s : State) → Inv s → Inv (close_empty_room room s)
unfolding close_empty_room
close_empty_room-Inv room s v = emit-Inv _ _ (delete_room-Inv room _ (delete_count-Inv room s v))

announce_disconnect-Inv :
    (id : Guid) (room : String) (s : State) → Inv s → Inv (announce_disconnect id room s)
unfolding announce_disconnect
announce_disconnect-Inv id room s v = elim (Bool-cases (is_empty_room room (values s.peers))) [
  | inl e ↦ rw (e, if◌then◌else◌) (close_empty_room-Inv room _ (emit-Inv _ s v))
  | inr e ↦ rw (e, if◌then◌else◌) (emit-Inv _ s v)
]

uncount_peer-Inv :
    (peer : Peer) (room : String) (count : PeerCounter) (s : State)
    → IsCount room count
    → Inv s
    → Inv (uncount_peer peer room count s)
unfolding uncount_peer
uncount_peer-Inv peer room count s c v = delete_peer-Inv peer.id _ (
    send_peer_count-Inv (some peer.id) room _
      (set_count-Inv room _ _ (emit-Inv _ s v) (count_departure-IsCount room peer count c)))

disconnect_counted-KeepsInv :
    (peer : Peer) (room : String) → KeepsInv (disconnect_counted peer room)
unfolding disconnect_counted
disconnect_counted-KeepsInv peer room s v = elim (Option-cases (lookup room s.peer_count)) [
  | inl e ↦ rw (e, disconnect_counted, state_of) v
  | inr (count, e) ↦
      rw (e, disconnect_counted, state_of)
        (announce_disconnect-Inv peer.id room _ (
          uncount_peer-Inv peer room count s
            (lookup-Entries IsCount room count s.peer_count v.counts e) v))
]

disconnect_from-KeepsInv :
    (transport : Guid) (peer : Peer) (room : String)
    → KeepsInv (disconnect_from transport peer room)
unfolding disconnect_from
disconnect_from-KeepsInv transport peer room s v = elim (Option-cases (lookup room s.rooms)) [
  | inl e ↦ rw (e, disconnect_from, state_of) (delete_peer-Inv peer.id s v)
  | inr (data', e) ↦
      rw (e, disconnect_from) (disconnect_counted-KeepsInv peer room _ (emit-Inv _ s v))
]

disconnect_room-KeepsInv :
    (transport : Guid) (peer : Peer) (room : Option String)
    → KeepsInv (disconnect_room transport peer room)
disconnect_room-KeepsInv transport peer none s v = v
disconnect_room-KeepsInv transport peer (some room) s v = elim (Bool-cases (room == "")) [
  | inl e ↦ rw (e, disconnect_room, state_of) v
  | inr e ↦ rw (e, disconnect_room) (disconnect_from-KeepsInv transport peer room s v)
]

disconnect_peer-KeepsInv :
    (transport : Guid) (peer : Peer) → KeepsInv (disconnect_peer transport peer)
unfolding disconnect_peer
disconnect_peer-KeepsInv transport peer s v =
    disconnect_room-KeepsInv transport peer peer.room _ (emit-Inv _ s v)

pub disconnect_peer_websocket-KeepsInv :
    (transport : Guid) → KeepsInv (disconnect_peer_websocket transport)
unfolding disconnect_peer_websocket
disconnect_peer_websocket-KeepsInv transport s v = elim (Bool-cases (transport == "")) [
  | inl e ↦ rw (e, disconnect_peer_websocket, state_of) v
  | inr e ↦ elim (Option-cases (find_transport transport (values s.peers))) [
    | inl f ↦ rw (e, f, disconnect_peer_websocket, state_of) v
    | inr (peer, f) ↦
        rw (e, f, disconnect_peer_websocket) (disconnect_peer-KeepsInv transport peer s v)
  ]
]

pub boot_peer-KeepsInv : (id : Guid) → KeepsInv (boot_peer id)
unfolding boot_peer
boot_peer-KeepsInv id =
    with_peer-KeepsInv id _
      λ peer s v p e. disconnect_peer_websocket-KeepsInv peer.transport_signal _ (emit-Inv _ s v)

drop_peers-KeepsInv : (route : Guid) (ids : List Guid) → KeepsInv (drop_peers route ids)
unfolding drop_peers
drop_peers-KeepsInv route [] s v = v
drop_peers-KeepsInv route (id ∷ ids) s v =
    let rest = drop_peers-KeepsInv route ids in
    elim (Option-cases (lookup id s.peers)) [
      | inl e ↦ rw (e, drop_peers) (rest s v)
      | inr (peer, e) ↦ elim (Bool-cases (is_on_route route peer)) [
        | inl f ↦
            rw (e, f, drop_peers)
              (>>-KeepsInv (disconnect_peer_websocket peer.transport_signal) (drop_peers route ids)
                (disconnect_peer_websocket-KeepsInv peer.transport_signal) rest s v)
        | inr f ↦ rw (e, f, drop_peers) (rest s v)
      ]
    ]

drop_rooms-Entries :
    (route : Guid) (rooms : Map Room)
    → Entries IsRoom rooms
    → Entries IsRoom (drop_rooms route rooms)
unfolding drop_rooms
drop_rooms-Entries route [] h = tt
drop_rooms-Entries route ((name, room) ∷ rooms) h =
    ground (arith, drop_rooms-Entries route rooms h.1)

with_dropped-KeepsInv :
    (route : Guid) → KeepsInv (modify (λ s. record s { rooms = drop_rooms route s.rooms }))
with_dropped-KeepsInv route s v = record {
  peers = v.peers;
  distinct = v.distinct;
  rooms = drop_rooms-Entries route s.rooms v.rooms;
  counts = v.counts;
}

pub drop_route-KeepsInv : (route : Guid) → KeepsInv (drop_route route)
unfolding drop_route
drop_route-KeepsInv route s v =
    >>-KeepsInv (drop_peers route (keys s.peers)) _ (drop_peers-KeepsInv route (keys s.peers))
      (with_dropped-KeepsInv route) s v
