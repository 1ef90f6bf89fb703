-- ===== src/PeerConnectionManager/Audience.antt =====
-- frame/libs/peerConnectionManager.ts: who is heard by whom, in `consumeAll…` and
-- `createConsumerMessages`.
use frame_oldbackend_public.Prelude.{
  String, true, ◌≡◌, ◌≢◌, ◌↔◌, inl, inr, Option, none, some, [], ◌∷◌, ◌==◌, arith, eq_iff, opt_eq,
  Bool-cases,
}
use frame_oldbackend_public.Prelude.Maps.{Map, lookup, values, includes}
use frame_oldbackend_public.Prelude.Entries.{Entries, IsDistinct}
use frame_oldbackend_public.Types.{Guid, Peer}
use frame_oldbackend_public.State.{State}
use frame_oldbackend_public.PeerConnectionManager.Peers.{is_other_in}
use frame_oldbackend_public.PeerConnectionManager.Consumers.{producers_for}
use frame_oldbackend_public.PeerConnectionManager.Invariant.Base.{IsPeer, Inv}

pub opt_eq_iff : (a b : Option String) → (opt_eq a b ≡ true) ↔ (a ≡ b)
opt_eq_iff none none = ground arith
opt_eq_iff none (some b) = ground arith
opt_eq_iff (some a) none = ground arith
opt_eq_iff (some a) (some b) = ground (arith, eq_iff a b)

-- A peer of the map under its id that is another peer of the same room.
abbrev pub IsOther : Peer → Map Peer → Guid → Type 0
IsOther consumer m id =
    (peer : Peer) × (lookup id m ≡ some peer) × (peer.room ≡ consumer.room) × (id ≢ consumer.id)

later-IsOther :
    (consumer peer : Peer) (k : String) (m : Map Peer) (id : Guid)
    → lookup k m ≡ none
    → IsOther consumer m id
    → IsOther consumer ((k, peer) ∷ m) id
unfolding lookup
later-IsOther consumer peer k m id fresh (other, e, same, distinct) =
    (other, ground (arith, eq_iff k id), same, distinct)

first-IsOther :
    (consumer peer : Peer) (m : Map Peer)
    → is_other_in consumer.room consumer.id peer ≡ true
    → IsOther consumer ((peer.id, peer) ∷ m) peer.id
unfolding lookup
first-IsOther consumer peer m e = (
  peer,
  ground (arith, eq_iff peer.id peer.id),
  ground (arith, opt_eq_iff peer.room consumer.room),
  λ same. ground (arith, eq_iff peer.id consumer.id),
)

included-IsOther :
    (consumer : Peer) (m : Map Peer) (id : Guid)
    → Entries IsPeer m
    → IsDistinct m
    → includes id (producers_for consumer (values m)) ≡ true
    → IsOther consumer m id
unfolding producers_for includes
included-IsOther consumer [] id named distinct h = ground arith
included-IsOther consumer ((k, peer) ∷ m) id named distinct h =
    elim (Bool-cases (is_other_in consumer.room consumer.id peer)) [
      | inl e ↦ elim (Bool-cases (peer.id == id)) [
        | inl f ↦ rw (← named.0.named, ← (eq_iff peer.id id).0 f) (first-IsOther consumer peer m e)
        | inr f ↦
            later-IsOther consumer peer k m id distinct.0
              (included-IsOther consumer m id named.1 distinct.1 (ground arith))
      ]
      | inr e ↦
          later-IsOther consumer peer k m id distinct.0
            (included-IsOther consumer m id named.1 distinct.1 (ground arith))
    ]

IsOther-included :
    (consumer : Peer) (m : Map Peer) (id : Guid) (peer : Peer)
    → Entries IsPeer m
    → lookup id m ≡ some peer
    → peer.room ≡ consumer.room
    → id ≢ consumer.id
    → includes id (producers_for consumer (values m)) ≡ true
unfolding producers_for includes lookup
IsOther-included consumer [] id peer named e same other = ground arith
IsOther-included consumer ((k, p) ∷ m) id peer named e same other = ground (
  arith,
  eq_iff k id,
  eq_iff p.id id,
  eq_iff p.id consumer.id,
  opt_eq_iff p.room consumer.room,
  named.0.named,
  IsOther-included consumer m id peer named.1,
)

-- A peer asks to consume the media of its room, in a state with the invariant: the ids that are
-- sent for it are exactly those of the known peers that are in its room, without its own.
pub producers_for-exact :
    (consumer : Peer) (s : State) (id : Guid)
    → Inv s
    → (includes id (producers_for consumer (values s.peers)) ≡ true) ↔ IsOther consumer s.peers id
producers_for-exact consumer s id v = (
  included-IsOther consumer s.peers id v.peers v.distinct,
  λ (peer, e, same, other). IsOther-included consumer s.peers id peer v.peers e same other,
)
