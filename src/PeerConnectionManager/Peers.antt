-- ===== src/PeerConnectionManager/Peers.antt =====
-- frame/libs/peerConnectionManager.ts: `sendSignal`, `createPeer`, and the loops over the peers.
use frame_oldbackend_public.Prelude.{
  String, Bool, true, false, not, ◌&&◌, Option, none, some, List, [], ◌∷◌, ◌++◌, ◌==◌, opt_eq,
  if◌then◌else◌,
}
use frame_oldbackend_public.Prelude.Maps.{lookup, insert, values}
use frame_oldbackend_public.Types.{Guid, Peer, Communication, identity, Effect, ipc_send}
use frame_oldbackend_public.State.{State, done, Action, emit}

-- `sendSignal`, as the messages that it sends
unfoldable pub send_signal : State → Guid → Communication → List Effect
send_signal s wsid reply = if s.has_ipc then ipc_send wsid reply ∷ [] else []

abbrev pub set_peer : Guid → Peer → State → State
set_peer id peer s = record s { peers = insert id peer s.peers }

-- Runs `f` on a peer that is known; otherwise the call returns.
abbrev pub with_peer : Guid → (Peer → Action) → Action
with_peer id f s = elim (lookup id s.peers) [ none ↦ done s | some peer ↦ f peer s ]

-- `Array.from(peers.values()).find(peer => peer.transportSignal === wsid)`
unfoldable pub find_transport : Guid → List Peer → Option Peer
find_transport wsid [] = none
find_transport wsid (peer ∷ peers) =
    if peer.transport_signal == wsid then some peer else find_transport wsid peers

-- The effects of a loop over the peers whose body tests the peer and sends.
unfoldable pub for_peers : (Peer → Bool) → (Peer → List Effect) → List Peer → List Effect
for_peers test send [] = []
for_peers test send (peer ∷ peers) =
    let rest = for_peers test send peers in if test peer then send peer ++ rest else rest

-- Whether a peer is in the same room and is another peer than `id`.
abbrev pub is_other_in : Option String → Guid → Peer → Bool
is_other_in room id peer = opt_eq peer.room room && not (peer.id == id)

abbrev pub new_peer : Guid → Guid → String → Peer
new_peer id wsid region = record {
  id = id;
  transport_signal = wsid;
  device_rtp_capabilities = none;
  room = none;
  debug = none;
  region = region;
  is_lobby = true;
  ingress = none;
  egress = none;
  movement = none;
  device_capabilities = none;
  sctp_options = none;
  is_participant = false;
  is_spectator = false;
  audio_producer = none;
  video_producer = none;
  desktop_audio_producer = none;
  desktop_video_producer = none;
}

-- The peer that `createPeer` stores: the one that reconnects, or a new one under the id `uuid`.
unfoldable pub identified : Guid → Guid → String → State → Peer
unfolding find_transport
identified uuid wsid region s = elim (find_transport wsid (values s.peers)) [
  | none ↦ new_peer uuid wsid region
  | some peer ↦ record peer { region = region }
]

-- `uuid` is what the package uuid4 returns.
unfoldable pub create_peer : Guid → Guid → String → State → State
unfolding identified send_signal
create_peer uuid wsid region s =
    let peer = identified uuid wsid region s in
    emit (send_signal s peer.transport_signal (identity peer.id peer.region))
      (set_peer peer.id peer s)
