-- ===== src/PeerConnectionManager/Invariant/Base.antt =====
-- The invariant of the connection manager, and its rules for the updates of the state.
use frame_oldbackend_public.Prelude.{
  zero, suc, String, true, false, ◌≡◌, ◌≢◌, inl, inr, none, some, List, [], Option-cases,
}
use frame_oldbackend_public.Prelude.Counters.{ℤ, pos, negsuc, increment}
use frame_oldbackend_public.Prelude.Maps.{lookup, insert}
use frame_oldbackend_public.Prelude.Entries.{
  Entries, IsDistinct, lookup-Entries, insert-Entries, erase-Entries, insert-IsDistinct,
  erase-IsDistinct,
}
use frame_oldbackend_public.Types.{Guid, Peer, PeerCounter, Room, Effect}
use frame_oldbackend_public.State.{
  State, Outcome, done, thrown, Action, ◌>>◌, state_of, emit, new_state,
}
use frame_oldbackend_public.SignalRouter.Router.{Router}
use frame_oldbackend_public.PeerConnectionManager.Peers.{set_peer, with_peer}
use frame_oldbackend_public.PeerConnectionManager.Counts.{set_count, count_of, leave_lobby}
use frame_oldbackend_public.PeerConnectionManager.Leaving.{delete_room, delete_count}
use frame_oldbackend_public.PeerConnectionManager.Disconnect.{delete_peer}

-- A peer in no room is in the lobby, takes no part, and has no server.
pub record IsOutside (peer : Peer) : Type 0 where
  pub lobby : peer.is_lobby ≡ true
  pub participant : peer.is_participant ≡ false
  pub spectator : peer.is_spectator ≡ false
  pub ingress : peer.ingress ≡ none
  pub egress : peer.egress ≡ none

pub record IsPeer (id : Guid) (peer : Peer) : Type 0 where
  pub named : peer.id ≡ id
  pub outside : peer.room ≡ none → IsOutside peer

-- A room on record has an ingress and an egress server.
pub record IsRoom (name : String) (room : Room) : Type 0 where
  pub ingress : room.ingress ≢ []
  pub egress : room.egress ≢ []

abbrev pub NotNegative : ℤ → Type 0
NotNegative (pos n) = Unit
NotNegative (negsuc n) = ⊥

-- The count of the lobby is never negative.
abbrev pub IsCount : String → PeerCounter → Type 0
IsCount room count = NotNegative count.lobby_count

pub record Inv (s : State) : Type 0 where
  pub peers : Entries IsPeer s.peers
  pub distinct : IsDistinct s.peers
  pub rooms : Entries IsRoom s.rooms
  pub counts : Entries IsCount s.peer_count

pub new_state-Inv : Inv new_state
new_state-Inv = record { peers = tt; distinct = tt; rooms = tt; counts = tt }

pub emit-Inv : (effects : List Effect) (s : State) → Inv s → Inv (emit effects s)
emit-Inv effects s v = record {
  peers = v.peers;
  distinct = v.distinct;
  rooms = v.rooms;
  counts = v.counts;
}

pub set_peer-Inv :
    (id : Guid) (peer : Peer) (s : State) → Inv s → IsPeer id peer → Inv (set_peer id peer s)
set_peer-Inv id peer s v p = record {
  peers = insert-Entries IsPeer id peer s.peers v.peers p;
  distinct = insert-IsDistinct id peer s.peers v.distinct;
  rooms = v.rooms;
  counts = v.counts;
}

pub set_count-Inv :
    (room : String) (count : PeerCounter) (s : State)
    → Inv s
    → IsCount room count
    → Inv (set_count room count s)
set_count-Inv room count s v c = record {
  peers = v.peers;
  distinct = v.distinct;
  rooms = v.rooms;
  counts = insert-Entries IsCount room count s.peer_count v.counts c;
}

pub delete_peer-Inv : (id : Guid) (s : State) → Inv s → Inv (delete_peer id s)
delete_peer-Inv id s v = record {
  peers = erase-Entries IsPeer id s.peers v.peers;
  distinct = erase-IsDistinct id s.peers v.distinct;
  rooms = v.rooms;
  counts = v.counts;
}

pub delete_room-Inv : (room : String) (s : State) → Inv s → Inv (delete_room room s)
delete_room-Inv room s v = record {
  peers = v.peers;
  distinct = v.distinct;
  rooms = erase-Entries IsRoom room s.rooms v.rooms;
  counts = v.counts;
}

pub delete_count-Inv : (room : String) (s : State) → Inv s → Inv (delete_count room s)
delete_count-Inv room s v = record {
  peers = v.peers;
  distinct = v.distinct;
  rooms = v.rooms;
  counts = erase-Entries IsCount room s.peer_count v.counts;
}

pub with_router-Inv : (r : Router) (s : State) → Inv s → Inv (record s { router = r })
with_router-Inv r s v = record {
  peers = v.peers;
  distinct = v.distinct;
  rooms = v.rooms;
  counts = v.counts;
}

pub with_room-Inv :
    (name : String) (room : Room) (s : State)
    → Inv s
    → IsRoom name room
    → Inv (record s { rooms = insert name room s.rooms })
with_room-Inv name room s v r = record {
  peers = v.peers;
  distinct = v.distinct;
  rooms = insert-Entries IsRoom name room s.rooms v.rooms r;
  counts = v.counts;
}

pub lookup-IsPeer :
    (id : Guid) (peer : Peer) (s : State) → Inv s → lookup id s.peers ≡ some peer → IsPeer id peer
lookup-IsPeer id peer s v e = lookup-Entries IsPeer id peer s.peers v.peers e

pub count_of-IsCount : (room : String) (s : State) → Inv s → IsCount room (count_of s room)
count_of-IsCount room s v = elim (Option-cases (lookup room s.peer_count)) [
  | inl e ↦ rw e tt
  | inr (count, e) ↦ rw e (lookup-Entries IsCount room count s.peer_count v.counts e)
]

-- A call that keeps the invariant, whether it returns or throws.
abbrev pub KeepsInv : Action → Type 0
KeepsInv m = (s : State) → Inv s → Inv (state_of (m s))

pub with_peer-KeepsInv :
    (id : Guid) (f : Peer → Action)
    → ((peer : Peer) (s : State)
        → Inv s
        → IsPeer id peer
        → lookup id s.peers ≡ some peer
        → Inv (state_of (f peer s)))
    → KeepsInv (with_peer id f)
with_peer-KeepsInv id f keeps s v = elim (Option-cases (lookup id s.peers)) [
  | inl e ↦ rw (e, with_peer, state_of) v
  | inr (peer, e) ↦ rw (e, with_peer, state_of) (keeps peer s v (lookup-IsPeer id peer s v e) e)
]

pub >>-KeepsInv : (m n : Action) → KeepsInv m → KeepsInv n → KeepsInv (m >> n)
>>-KeepsInv m n first second s v = go (m s) (first s v)
  where
    go :
        (o : Outcome)
        → Inv (state_of o)
        → Inv (state_of (elim o [ done t ↦ n t | thrown t ↦ thrown t ]))
    go (done t) w = second t w
    go (thrown t) w = w

pub increment-NotNegative : (n : ℤ) → NotNegative n → NotNegative (increment n)
increment-NotNegative (pos n) h = tt
increment-NotNegative (negsuc n) h = elim h [ ]

pub leave_lobby-NotNegative : (n : ℤ) → NotNegative n → NotNegative (leave_lobby n)
leave_lobby-NotNegative (pos zero) h = tt
leave_lobby-NotNegative (pos (suc n)) h = tt
leave_lobby-NotNegative (negsuc n) h = elim h [ ]
