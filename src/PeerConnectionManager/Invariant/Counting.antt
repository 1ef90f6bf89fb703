-- ===== src/PeerConnectionManager/Invariant/Counting.antt =====
-- The updates of peers and counters that keep the invariant: identities, counts, transports,
-- consumers.
use frame_oldbackend_public.Prelude.{
  String, Bool, true, ◌≡◌, refl, inl, inr, Option, none, some, List, [], ◌∷◌, ◌==◌, arith,
  if◌then◌else◌, Option-cases, Bool-cases, not, opt_eq,
}
use mathlib.Core.Path.{subst}
use frame_oldbackend_public.Prelude.Maps.{Map, lookup, values}
use frame_oldbackend_public.Prelude.Entries.{Entries, lookup-Entries}
use frame_oldbackend_public.Types.{Guid, Json, Peer, PeerCounter, Effect}
use frame_oldbackend_public.State.{State, Outcome, done, thrown, state_of, emit}
use frame_oldbackend_public.PeerConnectionManager.Peers.{
  with_peer, find_transport, identified, create_peer,
}
use frame_oldbackend_public.PeerConnectionManager.Counts.{
  count_of, collect_counts, requested_rooms, get_peer_count, send_peer_count, count_arrival,
}
use frame_oldbackend_public.PeerConnectionManager.Transports.{
  count_in, create_ingress_transport, create_egress_transport, connect_send, count_participant,
  connect_peer_transport, connect_send_in,
}
use frame_oldbackend_public.PeerConnectionManager.Consumers.{
  enter_room, enter_peer, count_enter, request_movement, consume_all_movement,
}
use frame_oldbackend_public.PeerConnectionManager.Invariant.Base.{
  IsPeer, IsCount, Inv, KeepsInv, emit-Inv, set_peer-Inv, set_count-Inv, count_of-IsCount,
  with_peer-KeepsInv, increment-NotNegative, leave_lobby-NotNegative,
}

-- The peer that is found under a transport is on record under its own id.
find_transport-IsPeer :
    (wsid : Guid) (peers : Map Peer) (peer : Peer)
    → Entries IsPeer peers
    → find_transport wsid (values peers) ≡ some peer
    → IsPeer peer.id peer
unfolding find_transport
find_transport-IsPeer wsid [] peer h e = cc
find_transport-IsPeer wsid ((k, p) ∷ peers) peer h e =
    elim (Bool-cases (p.transport_signal == wsid)) [
      | inl hit ↦
          let same : p ≡ peer = ground arith in
          subst (λ q. IsPeer q.id q) same (record { named = refl; outside = h.0.outside })
      | inr miss ↦ find_transport-IsPeer wsid peers peer h.1 (ground arith)
    ]

pub identified-IsPeer :
    (uuid wsid region : String) (s : State)
    → Inv s
    → let peer = identified uuid wsid region s in IsPeer peer.id peer
unfolding identified
identified-IsPeer uuid wsid region s v =
    elim (Option-cases (find_transport wsid (values s.peers))) [
      | inl e ↦ rw (e, identified) (record { named = refl; outside = λ r. ground arith })
      | inr (peer, e) ↦
          let p = find_transport-IsPeer wsid s.peers peer v.peers e in
          rw (e, identified)
            (record { named = refl; outside = λ r. let o = p.outside r in ground arith })
    ]

pub create_peer-Inv :
    (uuid wsid region : String) (s : State) → Inv s → Inv (create_peer uuid wsid region s)
unfolding create_peer
create_peer-Inv uuid wsid region s v =
    emit-Inv _ _ (set_peer-Inv _ _ s v (identified-IsPeer uuid wsid region s v))

pub send_peer_count-Inv :
    (exclude : Option Guid) (room : String) (s : State)
    → Inv s
    → Inv (send_peer_count exclude room s)
unfolding send_peer_count
send_peer_count-Inv exclude room s v =
    emit-Inv _ _ (set_count-Inv room _ s v (count_of-IsCount room s v))

collect_counts-Inv :
    (rooms : List String) (s : State) (counts : Map PeerCounter)
    → Inv s
    → Inv (collect_counts rooms s counts).0
unfolding collect_counts
collect_counts-Inv [] s counts v = v
collect_counts-Inv (room ∷ rooms) s counts v =
    collect_counts-Inv rooms _ _ (set_count-Inv room _ s v (count_of-IsCount room s v))

pub get_peer_count-KeepsInv :
    (id : Guid) (rooms : Option (List String)) → KeepsInv (get_peer_count id rooms)
unfolding get_peer_count
get_peer_count-KeepsInv id rooms =
    with_peer-KeepsInv id _
      λ peer s v p e. emit-Inv _ _ (collect_counts-Inv (requested_rooms rooms) s [] v)

pub count_in-Inv : (room : Option String) (s : State) → Inv s → Inv (count_in room s)
unfolding count_in count_arrival
count_in-Inv none s v = v
count_in-Inv (some room) s v = elim (Bool-cases (room == "")) [
  | inl e ↦ rw (e, if◌then◌else◌) v
  | inr e ↦
      rw (e, if◌then◌else◌)
        (send_peer_count-Inv none room _ (
          set_count-Inv room _ s v
            (increment-NotNegative (count_of s room).lobby_count (count_of-IsCount room s v))))
]

pub create_ingress_transport-KeepsInv :
    (id : Guid) (sctp caps : Json) → KeepsInv (create_ingress_transport id sctp caps)
unfolding create_ingress_transport
create_ingress_transport-KeepsInv id sctp caps = with_peer-KeepsInv id _ λ peer s v p e.
    count_in-Inv peer.room _ (
      emit-Inv _ _ (
        set_peer-Inv peer.id _ s v
          (record { named = refl; outside = λ r. let o = p.outside r in ground arith })))

pub create_egress_transport-KeepsInv :
    (id : Guid) (sctp caps : Json) (egress : Option Guid)
    → KeepsInv (create_egress_transport id sctp caps egress)
unfolding create_egress_transport
create_egress_transport-KeepsInv id sctp caps egress = with_peer-KeepsInv id _ λ peer s v p e.
    emit-Inv _ _ (
      set_peer-Inv peer.id _ s v
        (record { named = refl; outside = λ r. let o = p.outside r in ground arith }))

-- A sending peer stands in a room, so it may take part.
connect_send-KeepsInv :
    (id : Guid) (peer : Peer) (room : String) (dtls : Json)
    → IsPeer id peer
    → peer.room ≡ some room
    → KeepsInv (connect_send id peer room dtls)
unfolding connect_send
connect_send-KeepsInv id peer room dtls p inside s v =
    let joined : Peer = record peer { is_participant = true } in
    let w = set_peer-Inv id joined s v (record { named = p.named; outside = λ r. ground arith }) in
    elim (Option-cases (lookup room s.peer_count)) [
      | inl e ↦ rw (e, connect_send, state_of) w
      | inr (count, e) ↦
          rw (e, connect_send, state_of)
            (emit-Inv _ _ (
              send_peer_count-Inv none room _ (
                set_count-Inv room (count_participant count) _ w
                  (lookup-Entries IsCount room count s.peer_count v.counts e))))
    ]

connect_send_in-KeepsInv :
    (id : Guid) (peer : Peer) (room : Option String) (dtls : Json)
    → IsPeer id peer
    → peer.room ≡ room
    → KeepsInv (connect_send_in id peer room dtls)
connect_send_in-KeepsInv id peer none dtls p inside s v = v
connect_send_in-KeepsInv id peer (some room) dtls p inside s v = elim (Bool-cases (room == "")) [
  | inl e ↦ rw (e, connect_send_in, state_of) v
  | inr e ↦ rw (e, connect_send_in) (connect_send-KeepsInv id peer room dtls p inside s v)
]

pub connect_peer_transport-KeepsInv :
    (id : Guid) (direction : Option String) (dtls : Json) (egress : Option Guid)
    → KeepsInv (connect_peer_transport id direction dtls egress)
unfolding connect_peer_transport
connect_peer_transport-KeepsInv id direction dtls egress = with_peer-KeepsInv id _ λ peer s v p e.
    elim (Bool-cases (opt_eq direction (some "send"))) [
      | inl d ↦ rw (d, if◌then◌else◌) (connect_send_in-KeepsInv id peer peer.room dtls p refl s v)
      | inr d ↦ rw (d, if◌then◌else◌) (emit-Inv _ s v)
    ]

enter_room-KeepsInv :
    (id : Guid) (spectator : Bool) (peer : Peer) (room : Option String)
    → IsPeer id peer
    → peer.room ≡ room
    → KeepsInv (enter_room id spectator peer room)
unfolding enter_room
enter_room-KeepsInv id spectator peer none p inside s v = v
enter_room-KeepsInv id spectator peer (some room) p inside s v =
    let w =
      set_peer-Inv id (enter_peer spectator peer) s v
        (record { named = p.named; outside = λ r. ground arith }) in
    elim (Bool-cases (not peer.is_lobby)) [
      | inl e ↦ rw (e, if◌then◌else◌) v
      | inr e ↦ elim (Bool-cases (room == "")) [
        | inl f ↦ rw (e, f, if◌then◌else◌) v
        | inr f ↦ elim (Option-cases (lookup room s.peer_count)) [
          | inl g ↦ rw (e, f, g, state_of) v
          | inr (count, g) ↦
              rw (e, f, g, state_of)
                (set_count-Inv room (count_enter spectator count) _ w (
                  leave_lobby-NotNegative count.lobby_count
                    (lookup-Entries IsCount room count s.peer_count v.counts g)))
        ]
      ]
    ]

-- A command that only sends.
pub sends-KeepsInv :
    (id : Guid) (f : Peer → State → List Effect)
    → KeepsInv (with_peer id λ peer s. done (emit (f peer s) s))
sends-KeepsInv id f = with_peer-KeepsInv id _ λ peer s v p e. emit-Inv (f peer s) s v

request_movement-KeepsInv : (id : Guid) → KeepsInv (request_movement id)
unfolding request_movement
request_movement-KeepsInv id = sends-KeepsInv id _

pub consume_all_movement-KeepsInv :
    (id : Guid) (spectator : Bool) → KeepsInv (consume_all_movement id spectator)
unfolding consume_all_movement
consume_all_movement-KeepsInv id spectator = with_peer-KeepsInv id _ λ peer s v p e.
    go (enter_room id spectator peer peer.room s)
      (enter_room-KeepsInv id spectator peer peer.room p refl s v)
  where
    go :
        (o : Outcome)
        → Inv (state_of o)
        → Inv (state_of (elim o [ thrown t ↦ thrown t | done t ↦ request_movement id t ]))
    go (done t) w = request_movement-KeepsInv id t w
    go (thrown t) w = w
