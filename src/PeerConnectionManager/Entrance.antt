-- ===== src/PeerConnectionManager/Entrance.antt =====
-- frame/libs/peerConnectionManager.ts, `joinRoom`: its outcomes.
use frame_oldbackend_public.Prelude.{
  String, true, truthy, ap, ◌∙◌, none, ◌≡◌, refl, ◌≢◌, ◌⊎◌, inl, inr, Option, some, List, [], ◌∷◌,
  ◌++◌, ◌==◌, arith, eq_iff, if◌then◌else◌, Bool-cases,
}
use frame_oldbackend_public.Prelude.Maps.{lookup, includes, lookup-insert, lookup-insert_self}
use frame_oldbackend_public.Types.{Guid, Peer, Room}
use frame_oldbackend_public.State.{State, done, thrown, emit}
use frame_oldbackend_public.SignalRouter.Servers.{Result, ok, throws, or_default}
use frame_oldbackend_public.SignalRouter.Router.{
  empty_room, set_route, get_ingress, get_egress, get_movement,
}
use frame_oldbackend_public.PeerConnectionManager.Peers.{set_peer, with_peer}
use frame_oldbackend_public.PeerConnectionManager.Joining.{
  defined, push_new, joined_peer, join_servers, selecting, join_egress, join_peer, join_room,
}

includes-push_new : (id : Guid) (ids : List Guid) → includes id (push_new id ids) ≡ true
unfolding push_new
includes-push_new id ids = elim (Bool-cases (includes id ids)) [
  | inl e ↦ rw (e, if◌then◌else◌) e
  | inr e ↦ rw (e, if◌then◌else◌) (last ids)
]
  where
    last : (xs : List Guid) → includes id (xs ++ id ∷ []) ≡ true
    last [] = ground (arith, eq_iff id id)
    last (x ∷ xs) = ground (arith, last xs)

Result-cases {ℓ} : {A : Type ℓ} (r : Result A) → (r ≡ throws) ⊎ ((a : A) × (r ≡ ok a))
Result-cases throws = inl refl
Result-cases (ok a) = inr (a, refl)

-- The peer in a room, as `joinRoom` sets it first.
abbrev pub entering : String → Peer → Peer
entering room peer = record peer { room = some room }

-- What holds in a state in which the peer has joined with its servers.
abbrev IsJoined : Guid → String → String → Peer → Guid → Guid → State → State → Type 0
IsJoined id room other peer i e s s' =
    (joined : Room) × (lookup id s'.peers ≡ some peer)
    × (lookup other s'.rooms ≡ (if room == other then some joined else lookup other s.rooms))
    × (lookup room s'.router.routing_table ≡ some joined)
    × (includes i joined.ingress ≡ true)
    × (includes e joined.egress ≡ true)

join_servers-IsJoined :
    (id : Guid) (room other : String) (peer : Peer) (joining : Room) (i e : Guid) (m : Option Guid)
    (s : State)
    → IsJoined id room other
        (joined_peer m i e peer)
        i
        e
        s
        (join_servers id room peer joining i e m s)
unfolding join_servers set_route
join_servers-IsJoined id room other peer joining i e m s = (
  _,
  lookup-insert_self id _ _,
  lookup-insert room other _ _,
  lookup-insert_self room _ _,
  includes-push_new i _,
  includes-push_new e _,
)

-- The state that `joinRoom` selects the servers in.
abbrev entered : Guid → String → Peer → State → State
entered id room peer s =
    emit
      (join_egress s.router room peer.transport_signal
        (or_default empty_room (lookup room s.rooms)).egress)
      (set_peer id (entering room peer) s)

join_peer-selected :
    (id : Guid) (room : String) (s : State) (peer : Peer) (joining : Room) (i e : Guid)
    (m : Option Guid)
    → get_ingress s.router peer.region ≡ ok (some i)
    → get_egress s.router peer.region ≡ ok (some e)
    → get_movement s.router peer.region ≡ ok m
    → i ≢ ""
    → e ≢ ""
    → join_peer id room peer joining s
      ≡ done (
          join_servers id room peer joining i e
            (defined m)
            (emit (join_egress s.router room peer.transport_signal joining.egress) s))
unfolding join_peer
join_peer-selected id room s peer joining i e m chosen_i chosen_e chosen_m named_i named_e =
    rw (chosen_i, selecting, chosen_e, chosen_m) ground (arith, eq_iff i "", eq_iff e "")

join_peer-throws :
    (id : Guid) (room : String) (s : State) (peer : Peer) (joining : Room)
    → (get_ingress s.router peer.region ≡ throws)
      ⊎ ((get_egress s.router peer.region ≡ throws) ⊎ (get_movement s.router peer.region ≡ throws))
    → join_peer id room peer joining s
      ≡ thrown (emit (join_egress s.router room peer.transport_signal joining.egress) s)
unfolding join_peer
join_peer-throws id room s peer joining (inl h) = rw (h, selecting) refl
join_peer-throws id room s peer joining (inr (inl h)) =
    elim (Result-cases (get_ingress s.router peer.region)) [
      | inl e ↦ rw (e, selecting) refl
      | inr (i, e) ↦ rw (e, selecting, h) refl
    ]
join_peer-throws id room s peer joining (inr (inr h)) =
    elim (Result-cases (get_ingress s.router peer.region)) [
      | inl e ↦ rw (e, selecting) refl
      | inr (i, e) ↦ elim (Result-cases (get_egress s.router peer.region)) [
        | inl f ↦ rw (e, selecting, f) refl
        | inr (j, f) ↦ rw (e, selecting, f, h) refl
      ]
    ]

join_room-selected :
    (id : Guid) (room : String) (s : State) (peer : Peer) (i e : Guid) (m : Option Guid)
    → lookup id s.peers ≡ some peer
    → get_ingress s.router peer.region ≡ ok (some i)
    → get_egress s.router peer.region ≡ ok (some e)
    → get_movement s.router peer.region ≡ ok m
    → i ≢ ""
    → e ≢ ""
    → join_room id room s
      ≡ done (
          join_servers id room
            (entering room peer)
            (or_default empty_room (lookup room s.rooms))
            i
            e
            (defined m)
            (entered id room peer s))
unfolding join_room
join_room-selected id room s peer i e m found chosen_i chosen_e chosen_m named_i named_e =
    rw (found, with_peer)
      (join_peer-selected id room (set_peer id (entering room peer) s) (entering room peer)
        (or_default empty_room (lookup room s.rooms)) i e m chosen_i chosen_e chosen_m named_i
        named_e)

-- The peer as it is once it has joined.
joined_peer-joined :
    (m : Option Guid) (i e : Guid) (room : String) (peer : Peer)
    → joined_peer (defined m) i e (entering room peer) ≡ record peer {
      room = some room;
      ingress = some i;
      egress = some e;
      movement = if truthy m then m else peer.movement;
    }
unfolding joined_peer
joined_peer-joined none i e room peer = refl
joined_peer-joined (some id) i e room peer = elim (Bool-cases (id == "")) [
  | inl h ↦ rw (h, if◌then◌else◌) refl
  | inr h ↦ rw (h, if◌then◌else◌) refl
]

-- A known peer joins a room, and the selections for its region return an ingress and an egress
-- server with ids that are not empty, and do not throw for the movement server: the call returns,
-- the peer is in the room with the chosen servers, where it keeps its movement server if none is
-- chosen, and is otherwise the same; the room is stored alike in the rooms and in the routing table,
-- both servers are among those of the room, and no other room is changed.
pub join_room-joins :
    (id : Guid) (room other : String) (s : State) (peer : Peer) (i e : Guid) (m : Option Guid)
    → lookup id s.peers ≡ some peer
    → get_ingress s.router peer.region ≡ ok (some i)
    → get_egress s.router peer.region ≡ ok (some e)
    → get_movement s.router peer.region ≡ ok m
    → i ≢ ""
    → e ≢ ""
    → (s' : State) × (joined : Room) × (join_room id room s ≡ done s')
      × (lookup id s'.peers
          ≡ some (record peer {
            room = some room;
            ingress = some i;
            egress = some e;
            movement = if truthy m then m else peer.movement;
          }))
      × (lookup other s'.rooms ≡ (if room == other then some joined else lookup other s.rooms))
      × (lookup room s'.router.routing_table ≡ some joined)
      × (includes i joined.ingress ≡ true)
      × (includes e joined.egress ≡ true)
join_room-joins id room other s peer i e m found chosen_i chosen_e chosen_m named_i named_e =
    let joining = or_default empty_room (lookup room s.rooms) in
    let s1 = entered id room peer s in
    let facts =
      join_servers-IsJoined id room other (entering room peer) joining i e (defined m) s1 in
    (
      join_servers id room (entering room peer) joining i e (defined m) s1,
      facts.0,
      join_room-selected id room s peer i e m found chosen_i chosen_e chosen_m named_i named_e,
      facts.1 ∙ ap some (joined_peer-joined m i e room peer),
      facts.2,
      facts.3,
      facts.4,
      facts.5,
    )

-- A known peer joins a room, and one of the three selections for its region throws: the call
-- throws. The peer is in the room by then, with the servers it had before; the rooms and the
-- router are unchanged.
pub join_room-throws :
    (id : Guid) (room : String) (s : State) (peer : Peer)
    → lookup id s.peers ≡ some peer
    → (get_ingress s.router peer.region ≡ throws)
      ⊎ ((get_egress s.router peer.region ≡ throws) ⊎ (get_movement s.router peer.region ≡ throws))
    → (s' : State) × (join_room id room s ≡ thrown s')
      × (lookup id s'.peers ≡ some (entering room peer))
      × (s'.rooms ≡ s.rooms)
      × (s'.router ≡ s.router)
unfolding join_room
join_room-throws id room s peer found unserved = (
  entered id room peer s,
  rw (found, with_peer)
      (join_peer-throws id room (set_peer id (entering room peer) s) (entering room peer)
        (or_default empty_room (lookup room s.rooms)) unserved),
  lookup-insert_self id _ _,
  refl,
  refl,
)
