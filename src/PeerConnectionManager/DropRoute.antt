-- ===== src/PeerConnectionManager/DropRoute.antt =====
-- frame/libs/peerConnectionManager.ts, `dropRoute`: what it leaves alone, and what it clears.
use frame_oldbackend_public.Prelude.{
  String, false, ◌≡◌, refl, ◌∙◌, inl, inr, Option, none, some, List, [], ◌∷◌, ◌==◌, arith,
  Option-cases, Bool-cases, ap,
}
use frame_oldbackend_public.Prelude.Maps.{Map, lookup, keys, values, includes}
use frame_oldbackend_public.Prelude.Entries.{Entries}
use frame_oldbackend_public.Types.{Guid, Peer, Room}
use frame_oldbackend_public.State.{State, Outcome, done, thrown, Action, ◌>>◌, state_of, >>-eq-done}
use frame_oldbackend_public.SignalRouter.Cleanup.{DropServer}
use frame_oldbackend_public.PeerConnectionManager.Peers.{find_transport}
use frame_oldbackend_public.PeerConnectionManager.Counts.{send_peer_count}
use frame_oldbackend_public.PeerConnectionManager.Disconnect.{
  is_empty_room, close_empty_room, announce_disconnect, uncount_peer, disconnect_counted,
  disconnect_from, disconnect_room, disconnect_peer, disconnect_peer_websocket, is_on_route,
  drop_peers, drop_rooms, drop_route,
}

-- A call that leaves the router alone, whether it returns or throws.
abbrev KeepsRouter : Action → Type 0
KeepsRouter m = (s : State) → (state_of (m s)).router ≡ s.router

>>-KeepsRouter : (m n : Action) → KeepsRouter m → KeepsRouter n → KeepsRouter (m >> n)
>>-KeepsRouter m n first second s = go (m s) (first s)
  where
    go :
        (o : Outcome)
        → (state_of o).router ≡ s.router
        → (state_of (elim o [ done t ↦ n t | thrown t ↦ thrown t ])).router ≡ s.router
    go (done t) e = second t ∙ e
    go (thrown t) e = e

announce_disconnect-router :
    (id : Guid) (room : String) (s : State) → (announce_disconnect id room s).router ≡ s.router
unfolding announce_disconnect close_empty_room
announce_disconnect-router id room s =
    ground (arith, Bool-cases (is_empty_room room (values s.peers)))

disconnect_counted-KeepsRouter :
    (peer : Peer) (room : String) → KeepsRouter (disconnect_counted peer room)
unfolding disconnect_counted uncount_peer send_peer_count
disconnect_counted-KeepsRouter peer room s = elim (Option-cases (lookup room s.peer_count)) [
  | inl e ↦ rw (e, disconnect_counted, state_of) refl
  | inr (count, e) ↦
      rw (e, disconnect_counted, state_of)
        (announce_disconnect-router peer.id room (uncount_peer peer room count s))
]

disconnect_from-KeepsRouter :
    (transport : Guid) (peer : Peer) (room : String)
    → KeepsRouter (disconnect_from transport peer room)
unfolding disconnect_from
disconnect_from-KeepsRouter transport peer room s = elim (Option-cases (lookup room s.rooms)) [
  | inl e ↦ rw (e, disconnect_from, state_of) refl
  | inr (found, e) ↦ rw (e, disconnect_from) (disconnect_counted-KeepsRouter peer room _)
]

disconnect_room-KeepsRouter :
    (transport : Guid) (peer : Peer) (room : Option String)
    → KeepsRouter (disconnect_room transport peer room)
disconnect_room-KeepsRouter transport peer none s = refl
disconnect_room-KeepsRouter transport peer (some room) s = elim (Bool-cases (room == "")) [
  | inl e ↦ rw (e, disconnect_room, state_of) refl
  | inr e ↦ rw (e, disconnect_room) (disconnect_from-KeepsRouter transport peer room s)
]

pub disconnect_peer_websocket-KeepsRouter :
    (transport : Guid) (s : State)
    → (state_of (disconnect_peer_websocket transport s)).router ≡ s.router
unfolding disconnect_peer_websocket disconnect_peer
disconnect_peer_websocket-KeepsRouter transport s = elim (Bool-cases (transport == "")) [
  | inl e ↦ rw (e, disconnect_peer_websocket, state_of) refl
  | inr e ↦ elim (Option-cases (find_transport transport (values s.peers))) [
    | inl f ↦ rw (e, f, disconnect_peer_websocket, state_of) refl
    | inr (peer, f) ↦
        rw (e, f, disconnect_peer_websocket)
          (disconnect_room-KeepsRouter transport peer peer.room _)
  ]
]

drop_peers-KeepsRouter : (route : Guid) (ids : List Guid) → KeepsRouter (drop_peers route ids)
unfolding drop_peers
drop_peers-KeepsRouter route [] s = refl
drop_peers-KeepsRouter route (id ∷ ids) s =
    let rest = drop_peers-KeepsRouter route ids in
    elim (Option-cases (lookup id s.peers)) [
      | inl e ↦ rw (e, drop_peers) (rest s)
      | inr (peer, e) ↦ elim (Bool-cases (is_on_route route peer)) [
        | inl f ↦
            rw (e, f, drop_peers)
              (>>-KeepsRouter (disconnect_peer_websocket peer.transport_signal)
                (drop_peers route ids) (disconnect_peer_websocket-KeepsRouter peer.transport_signal)
                rest s)
        | inr f ↦ rw (e, f, drop_peers) (rest s)
      ]
    ]

pub drop_route-KeepsRouter : (route : Guid) → KeepsRouter (drop_route route)
unfolding drop_route
drop_route-KeepsRouter route s =
    >>-KeepsRouter (drop_peers route (keys s.peers)) _ (drop_peers-KeepsRouter route (keys s.peers))
      (λ t. refl) s

-- `dropRoute` as the callback of the close handler.
abbrev pub drop_server : DropServer
drop_server = record { drop = drop_route; keeps_router = drop_route-KeepsRouter }

-- A room that is not served by the route.
abbrev pub IsOffRoute : Guid → String → Room → Type 0
IsOffRoute route name room =
    (includes route room.egress ≡ false) × (includes route room.ingress ≡ false)

drop_rooms-IsOffRoute :
    (route : Guid) (rooms : Map Room) → Entries (IsOffRoute route) (drop_rooms route rooms)
unfolding drop_rooms
drop_rooms-IsOffRoute route [] = tt
drop_rooms-IsOffRoute route ((name, room) ∷ rooms) =
    ground (arith, drop_rooms-IsOffRoute route rooms)

done_injective : (s t : State) → done s ≡ done t → s ≡ t
done_injective s t h = cc

-- When `dropRoute` returns, no room that is left is served by the route, as ingress or egress
-- server, and the router is unchanged.
pub drop_route-clears :
    (route : Guid) (s s' : State)
    → drop_route route s ≡ done s'
    → Entries (IsOffRoute route) s'.rooms × (s'.router ≡ s.router)
unfolding drop_route
drop_route-clears route s s' h =
    let (t, first, last) = >>-eq-done (drop_peers route (keys s.peers)) _ s s' h in
    let final = done_injective (record t { rooms = drop_rooms route t.rooms }) s' last in
    (
      rw (← final) (drop_rooms-IsOffRoute route t.rooms),
      ap (λ o. (state_of o).router) (sym_done h) ∙ drop_route-KeepsRouter route s,
    )
  where
    sym_done : drop_route route s ≡ done s' → done s' ≡ drop_route route s
    sym_done e = cc
