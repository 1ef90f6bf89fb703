-- ===== src/PeerConnectionManager/Stale.antt =====
-- frame/libs/peerConnectionManager.ts: a websocket closes after its peer has left the room.
use frame_oldbackend_public.Prelude.{
  String, ◌≡◌, refl, ◌≢◌, inl, inr, none, some, arith, eq_iff, truthy, Bool-cases,
}
use frame_oldbackend_public.Prelude.Maps.{lookup, insert, values, lookup-insert_self}
use frame_oldbackend_public.Types.{Guid, Peer, PeerCounter, Room, disconnect_transport}
use frame_oldbackend_public.State.{State, done, emit}
use frame_oldbackend_public.SignalRouter.Requests.{close_ingress_transport}
use frame_oldbackend_public.PeerConnectionManager.Peers.{find_transport}
use frame_oldbackend_public.PeerConnectionManager.Counts.{send_peer_count, count_departure}
use frame_oldbackend_public.PeerConnectionManager.Leaving.{
  reset_peer, is_deserted, destroy_room, leave_counted, leave_room,
}
use frame_oldbackend_public.PeerConnectionManager.Disconnect.{
  disconnect_peer, disconnect_peer_websocket,
}
use frame_oldbackend_public.PeerConnectionManager.Departure.{outside, announced, leave_room-counted}
use frame_oldbackend_public.PeerConnectionManager.Identity.{find_transport-insert_found}
use frame_oldbackend_public.PeerConnectionManager.Invariant.Base.{Inv, lookup-IsPeer}

leave_counted-peers :
    (id : Guid) (room : String) (peer : Peer) (count : PeerCounter) (s : State)
    → (leave_counted id room peer count s).peers ≡ insert id (outside peer) s.peers
unfolding leave_counted destroy_room send_peer_count reset_peer
leave_counted-peers id room peer count s =
    elim (Bool-cases (is_deserted (count_departure peer count))) [
      | inl e ↦ elim (Bool-cases (truthy peer.room)) [
        | inl f ↦ rw (leave_counted, e, destroy_room, f) refl
        | inr f ↦ rw (leave_counted, e, destroy_room, f) refl
      ]
      | inr e ↦ rw (leave_counted, e) refl
    ]

-- The websocket of a peer that is in no room closes.
disconnect_peer_websocket-roomless :
    (transport : Guid) (s : State) (peer : Peer)
    → transport ≢ ""
    → find_transport transport (values s.peers) ≡ some peer
    → peer.room ≡ none
    → (s' : State) × (disconnect_peer_websocket transport s ≡ done s') × (s'.peers ≡ s.peers)
unfolding disconnect_peer_websocket disconnect_peer
disconnect_peer_websocket-roomless transport s peer named found outside = (
  emit (close_ingress_transport s.router transport (disconnect_transport peer.id) peer.ingress) s,
  ground (arith, eq_iff transport ""),
  refl,
)

-- A known peer leaves a room that is on record and has a counter, in a state with the invariant, and
-- then its websocket closes, which has a name that is not empty and finds the peer: both calls return,
-- and the peer is on record still, outside of every room.
pub leave_room-disconnect_peer_websocket :
    (id : Guid) (room : String) (s : State) (peer : Peer) (held : Room) (count : PeerCounter)
    → Inv s
    → peer.transport_signal ≢ ""
    → lookup id s.peers ≡ some peer
    → find_transport peer.transport_signal (values s.peers) ≡ some peer
    → lookup room s.rooms ≡ some held
    → lookup room s.peer_count ≡ some count
    → (s1 : State) × (s2 : State) × (leave_room id room s ≡ done s1)
      × (disconnect_peer_websocket peer.transport_signal s1 ≡ done s2)
      × (lookup id s2.peers ≡ some (outside peer))
leave_room-disconnect_peer_websocket id room s peer held count v named found websocket in_rooms
      counted =
    let s1 = leave_counted id room peer count (announced id room peer held s) in
    let stored = leave_counted-peers id room peer count (announced id room peer held s) in
    let same_id = (lookup-IsPeer id peer s v found).named in
    let websocket' : find_transport peer.transport_signal (values s1.peers) ≡ some (outside peer) =
      rw (stored, ← same_id)
        (find_transport-insert_found peer.transport_signal (outside peer) peer s.peers v.peers
          websocket refl) in
    let (s2, returns, same) =
      disconnect_peer_websocket-roomless peer.transport_signal s1 (outside peer) named websocket'
        refl in
    (
      s1,
      s2,
      leave_room-counted id room s peer held count found in_rooms counted,
      returns,
      rw (same, stored) (lookup-insert_self id (outside peer) s.peers),
    )
