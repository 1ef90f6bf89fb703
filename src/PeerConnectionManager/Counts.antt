-- ===== src/PeerConnectionManager/Counts.antt =====
-- frame/libs/peerConnectionManager.ts: the counters of the rooms, and the messages that tell them.
use frame_oldbackend_public.Prelude.{
  String, Bool, not, ◌&&◌, Option, none, some, List, [], ◌∷◌, opt_eq, if◌then◌else◌,
}
use frame_oldbackend_public.Prelude.Counters.{ℤ, pos, increment, decrement, is_positive}
use frame_oldbackend_public.Prelude.Maps.{Map, lookup, insert, values}
use frame_oldbackend_public.Types.{Guid, Peer, PeerCounter, peer_count}
use frame_oldbackend_public.State.{State, done, Action, emit}
use frame_oldbackend_public.SignalRouter.Servers.{or_default}
use frame_oldbackend_public.PeerConnectionManager.Peers.{send_signal, with_peer, for_peers}

abbrev pub zero_counter : PeerCounter
zero_counter = record {
  lobby_count = pos 0;
  spectator_count = pos 0;
  peer_count = pos 0;
  participant_count = pos 0;
}

abbrev pub set_count : String → PeerCounter → State → State
set_count room count s = record s { peer_count = insert room count s.peer_count }

abbrev pub count_of : State → String → PeerCounter
count_of s room = or_default zero_counter (lookup room s.peer_count)

-- The room that `getPeerCount` asks for is counted from here on; the list is what it replies.
unfoldable pub collect_counts : List String → State → Map PeerCounter → State × Map PeerCounter
unfolding lookup insert
collect_counts [] s counts = (s, counts)
collect_counts (room ∷ rooms) s counts =
    collect_counts rooms (set_count room (count_of s room) s) (insert room (count_of s room) counts)

-- Without room names the code takes `Object.keys(this.peerCount)`, which has none: it is a `Map`.
abbrev pub requested_rooms : Option (List String) → List String
requested_rooms none = []
requested_rooms (some rooms) = rooms

unfoldable pub get_peer_count : Guid → Option (List String) → Action
unfolding collect_counts lookup send_signal
get_peer_count peer_id room_names = with_peer peer_id λ peer s.
    let (s', counts) = collect_counts (requested_rooms room_names) s [] in
    done (emit (send_signal s' peer.transport_signal (peer_count counts)) s')

-- Whether a peer is in the room, and is not the excluded one.
abbrev is_told : Option Guid → String → Peer → Bool
is_told exclude room peer = opt_eq peer.room (some room) && not (opt_eq (some peer.id) exclude)

unfoldable pub send_peer_count : Option Guid → String → State → State
unfolding lookup insert send_signal for_peers
send_peer_count exclude room s =
    let count = count_of s room in
    let message = peer_count ((room, count) ∷ []) in
    emit
      (for_peers (is_told exclude room) (λ peer. send_signal s peer.transport_signal message)
        (values s.peers))
      (set_count room count s)

-- An ingress transport was requested.
unfoldable pub count_arrival : PeerCounter → PeerCounter
count_arrival c = record c {
  lobby_count = increment c.lobby_count;
  peer_count = increment c.peer_count;
}

-- The lobby's count does not fall below zero.
abbrev pub leave_lobby : ℤ → ℤ
leave_lobby n = if is_positive n then decrement n else n

-- What `leaveRoom` and `disconnectPeerWebsocket` take off the counter.
unfoldable pub count_departure : Peer → PeerCounter → PeerCounter
count_departure peer c = record {
  lobby_count = if peer.is_lobby then leave_lobby c.lobby_count else c.lobby_count;
  spectator_count = if peer.is_spectator then decrement c.spectator_count else c.spectator_count;
  peer_count = decrement c.peer_count;
  participant_count =
      if peer.is_participant then decrement c.participant_count else c.participant_count;
}
