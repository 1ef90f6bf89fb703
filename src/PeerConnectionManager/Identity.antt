-- ===== src/PeerConnectionManager/Identity.antt =====
-- frame/libs/peerConnectionManager.ts, `createPeer`: a websocket is one peer.
use frame_oldbackend_public.Prelude.{
  String, ◌≡◌, refl, inl, inr, none, some, List, [], ◌∷◌, arith, eq_iff, Option-cases, ◌∙◌, ap, sym,
}
use frame_oldbackend_public.Prelude.Maps.{Map, insert, values}
use frame_oldbackend_public.Prelude.Entries.{Entries}
use frame_oldbackend_public.Types.{Guid, Peer}
use frame_oldbackend_public.State.{State}
use frame_oldbackend_public.PeerConnectionManager.Peers.{
  find_transport, identified, create_peer, new_peer,
}
use frame_oldbackend_public.PeerConnectionManager.Invariant.Base.{IsPeer, Inv}

find_transport-insert_new :
    (ws k : Guid) (peer : Peer) (m : Map Peer)
    → find_transport ws (values m) ≡ none
    → peer.transport_signal ≡ ws
    → find_transport ws (values (insert k peer m)) ≡ some peer
unfolding find_transport insert
find_transport-insert_new ws k peer [] e h = ground (arith, eq_iff peer.transport_signal ws)
find_transport-insert_new ws k peer ((j, p) ∷ m) e h =
    ground (arith, eq_iff peer.transport_signal ws, find_transport-insert_new ws k peer m)

-- The peer that was found first is replaced: it is found again.
pub find_transport-insert_found :
    (ws : Guid) (peer p : Peer) (m : Map Peer)
    → Entries IsPeer m
    → find_transport ws (values m) ≡ some p
    → peer.transport_signal ≡ ws
    → find_transport ws (values (insert p.id peer m)) ≡ some peer
unfolding find_transport insert
find_transport-insert_found ws peer p [] named e h = ground arith
find_transport-insert_found ws peer p ((j, q) ∷ m) named e h = ground (
  arith,
  eq_iff peer.transport_signal ws,
  eq_iff q.transport_signal ws,
  named.0.named,
  eq_iff j p.id,
  eq_iff q.id p.id,
  find_transport-insert_found ws peer p m named.1,
)

insert-insert_self {ℓ} :
    {V : Type ℓ} (k : String) (v : V) (m : Map V) → insert k v (insert k v m) ≡ insert k v m
unfolding insert
insert-insert_self k v [] = ground (arith, eq_iff k k)
insert-insert_self k v ((j, w) ∷ m) = ground (arith, eq_iff k k, insert-insert_self k v m)

pub find_transport-signal :
    (ws : Guid) (peers : List Peer) (peer : Peer)
    → find_transport ws peers ≡ some peer
    → peer.transport_signal ≡ ws
unfolding find_transport
find_transport-signal ws [] peer h = ground arith
find_transport-signal ws (p ∷ peers) peer h =
    ground (arith, eq_iff p.transport_signal ws, find_transport-signal ws peers peer)

-- The peer that `createPeer` stores is the one that the websocket finds from then on.
identified-found :
    (uuid ws : Guid) (region : String) (s : State)
    → Inv s
    → find_transport ws (values (create_peer uuid ws region s).peers)
      ≡ some (identified uuid ws region s)
unfolding create_peer identified
identified-found uuid ws region s v = elim (Option-cases (find_transport ws (values s.peers))) [
  | inl e ↦
      rw (e, identified)
        (find_transport-insert_new ws uuid (new_peer uuid ws region) s.peers e refl)
  | inr (peer, e) ↦
      rw (e, identified)
        (find_transport-insert_found ws (record peer { region = region }) peer s.peers v.peers e
          (find_transport-signal ws (values s.peers) peer e))
]

pub identified-region :
    (uuid ws : Guid) (region : String) (s : State) → (identified uuid ws region s).region ≡ region
unfolding identified
identified-region uuid ws region s =
    ground (arith, Option-cases (find_transport ws (values s.peers)))

-- A peer that is found in the region it asks for is the one that is identified.
identified-kept :
    (uuid ws : Guid) (region : String) (s : State) (peer : Peer)
    → find_transport ws (values s.peers) ≡ some peer
    → peer.region ≡ region
    → identified uuid ws region s ≡ peer
unfolding identified
identified-kept uuid ws region s peer e h = rw (e, identified, ← h) refl

create_peer-stored :
    (uuid ws : Guid) (region : String) (s : State) (peer : Peer)
    → identified uuid ws region s ≡ peer
    → (create_peer uuid ws region s).peers ≡ insert peer.id peer s.peers
unfolding create_peer
create_peer-stored uuid ws region s peer e = rw e refl

-- A websocket asks for an identity and then asks again for the same region, in a state with the
-- invariant: after the first request the websocket finds the peer that was stored, and the second
-- request, whatever id uuid4 returns, changes no peer.
pub create_peer-again :
    (uuid uuid' ws : Guid) (region : String) (s : State)
    → Inv s
    → let s' = create_peer uuid ws region s in
      (find_transport ws (values s'.peers) ≡ some (identified uuid ws region s))
      × ((create_peer uuid' ws region s').peers ≡ s'.peers)
create_peer-again uuid uuid' ws region s v =
    let found = identified-found uuid ws region s v in
    let peer = identified uuid ws region s in
    let s' = create_peer uuid ws region s in
    let stored = create_peer-stored uuid ws region s peer refl in
    let kept = identified-kept uuid' ws region s' peer found (identified-region uuid ws region s) in
    (
      found,
      create_peer-stored uuid' ws region s' peer kept
          ∙ ap (insert peer.id peer) stored
          ∙ insert-insert_self peer.id peer s.peers
          ∙ sym stored,
    )
