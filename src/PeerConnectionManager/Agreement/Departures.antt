-- ===== src/PeerConnectionManager/Agreement/Departures.antt =====
-- frame/libs/peerConnectionManager.ts: the rooms and the routing table agree after a peer has left.
use frame_oldbackend_public.Prelude.{
  String, refl, inl, inr, Option, none, some, ◌==◌, if◌then◌else◌, Option-cases, Bool-cases,
}
use frame_oldbackend_public.Prelude.Maps.{lookup, values}
use frame_oldbackend_public.Types.{Guid, Peer, PeerCounter}
use frame_oldbackend_public.State.{State, state_of}
use frame_oldbackend_public.PeerConnectionManager.Peers.{find_transport}
use frame_oldbackend_public.PeerConnectionManager.Counts.{send_peer_count}
use frame_oldbackend_public.PeerConnectionManager.Leaving.{leave_room}
use frame_oldbackend_public.PeerConnectionManager.Disconnect.{
  is_empty_room, close_empty_room, announce_disconnect, uncount_peer, disconnect_counted,
  disconnect_from, disconnect_room, disconnect_peer, disconnect_peer_websocket, boot_peer,
}
use frame_oldbackend_public.PeerConnectionManager.Agreement.Rooms.{
  Agrees, KeepsAgreement, kept-Agrees, without-Agrees, with_peer-KeepsAgreement,
  leave_counted-Agrees,
}

pub leave_room-KeepsAgreement : (id : Guid) (room : String) → KeepsAgreement (leave_room id room)
unfolding leave_room
leave_room-KeepsAgreement id room = with_peer-KeepsAgreement id _ λ peer s v.
    elim (Option-cases (lookup room s.rooms)) [
      | inl e ↦ rw (e, state_of) (kept-Agrees s _ (refl, refl) v)
      | inr (held, e) ↦ elim (Option-cases (lookup room s.peer_count)) [
        | inl f ↦ rw (e, f, state_of) (kept-Agrees s _ (refl, refl) v)
        | inr (count, f) ↦
            rw (e, f, state_of)
              (leave_counted-Agrees id room peer count _ (kept-Agrees s _ (refl, refl) v))
      ]
    ]

announce_disconnect-Agrees :
    (id : Guid) (room : String) (s : State) → Agrees s → Agrees (announce_disconnect id room s)
unfolding announce_disconnect close_empty_room
announce_disconnect-Agrees id room s v = elim (Bool-cases (is_empty_room room (values s.peers))) [
  | inl e ↦ rw (e, if◌then◌else◌) (without-Agrees room s _ (refl, refl) v)
  | inr e ↦ rw (e, if◌then◌else◌) (kept-Agrees s _ (refl, refl) v)
]

uncount_peer-Agrees :
    (peer : Peer) (room : String) (count : PeerCounter) (s : State)
    → Agrees s
    → Agrees (uncount_peer peer room count s)
unfolding uncount_peer send_peer_count
uncount_peer-Agrees peer room count s v = kept-Agrees s _ (refl, refl) v

disconnect_counted-KeepsAgreement :
    (peer : Peer) (room : String) → KeepsAgreement (disconnect_counted peer room)
unfolding disconnect_counted
disconnect_counted-KeepsAgreement peer room s v = elim (Option-cases (lookup room s.peer_count)) [
  | inl e ↦ rw (e, disconnect_counted, state_of) v
  | inr (count, e) ↦
      rw (e, disconnect_counted, state_of)
        (announce_disconnect-Agrees peer.id room _ (uncount_peer-Agrees peer room count s v))
]

disconnect_from-KeepsAgreement :
    (transport : Guid) (peer : Peer) (room : String)
    → KeepsAgreement (disconnect_from transport peer room)
unfolding disconnect_from
disconnect_from-KeepsAgreement transport peer room s v = elim (Option-cases (lookup room s.rooms)) [
  | inl e ↦ rw (e, disconnect_from, state_of) (kept-Agrees s _ (refl, refl) v)
  | inr (held, e) ↦
      rw (e, disconnect_from)
        (disconnect_counted-KeepsAgreement peer room _ (kept-Agrees s _ (refl, refl) v))
]

disconnect_room-KeepsAgreement :
    (transport : Guid) (peer : Peer) (room : Option String)
    → KeepsAgreement (disconnect_room transport peer room)
disconnect_room-KeepsAgreement transport peer none s v = v
disconnect_room-KeepsAgreement transport peer (some room) s v = elim (Bool-cases (room == "")) [
  | inl e ↦ rw (e, disconnect_room, state_of) v
  | inr e ↦ rw (e, disconnect_room) (disconnect_from-KeepsAgreement transport peer room s v)
]

pub disconnect_peer_websocket-KeepsAgreement :
    (transport : Guid) → KeepsAgreement (disconnect_peer_websocket transport)
unfolding disconnect_peer_websocket disconnect_peer
disconnect_peer_websocket-KeepsAgreement transport s v = elim (Bool-cases (transport == "")) [
  | inl e ↦ rw (e, disconnect_peer_websocket, state_of) v
  | inr e ↦ elim (Option-cases (find_transport transport (values s.peers))) [
    | inl f ↦ rw (e, f, disconnect_peer_websocket, state_of) v
    | inr (peer, f) ↦
        rw (e, f, disconnect_peer_websocket)
          (disconnect_room-KeepsAgreement transport peer peer.room _
            (kept-Agrees s _ (refl, refl) v))
  ]
]

pub boot_peer-KeepsAgreement : (id : Guid) → KeepsAgreement (boot_peer id)
unfolding boot_peer
boot_peer-KeepsAgreement id = with_peer-KeepsAgreement id _ λ peer s v.
    disconnect_peer_websocket-KeepsAgreement peer.transport_signal _
      (kept-Agrees s _ (refl, refl) v)
