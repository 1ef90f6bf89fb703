-- ===== src/PeerConnectionManager/Announcements.antt =====
-- frame/libs/peerConnectionManager.ts: signals from one peer to others.
use frame_oldbackend_public.Prelude.{
  String, Bool, not, ◌&&◌, Option, ◌==◌, opt_eq, truthy, if◌then◌else◌,
}
use frame_oldbackend_public.Prelude.Maps.{lookup, values}
use frame_oldbackend_public.Types.{Guid, Json, Peer, hushed, peer_indicators, peer_indicators_reply}
use frame_oldbackend_public.State.{done, Action, emit}
use frame_oldbackend_public.PeerConnectionManager.Peers.{
  send_signal, with_peer, for_peers, is_other_in,
}

unfoldable pub hush_room : Guid → Action
unfolding lookup for_peers send_signal
hush_room peer_id = with_peer peer_id λ peer s. done (
    emit
      (for_peers (is_other_in peer.room peer.id)
        (λ other. send_signal s other.transport_signal (hushed other.id)) (values s.peers))
      s)

unfoldable pub hush_peer : Guid → Guid → Action
unfolding lookup send_signal
hush_peer peer_id hushed_id =
    with_peer hushed_id
      λ peer s. done (emit (send_signal s peer.transport_signal (hushed peer_id)) s)

-- Whether the indicators of `source` go to a peer; a given room stands in for the source's.
abbrev is_indicated : Peer → Option String → Peer → Bool
is_indicated source room peer =
    truthy peer.room
    && (if truthy room then opt_eq peer.room room else opt_eq peer.room source.room)
    && not (source.id == peer.id)

unfoldable pub send_peer_indicators : Guid → Json → Option String → Action
unfolding lookup for_peers send_signal
send_peer_indicators peer_id indicators room = with_peer peer_id λ peer s. done (
    emit
      (for_peers (is_indicated peer room)
        (λ other. send_signal s other.transport_signal (peer_indicators indicators peer_id))
        (values s.peers))
      s)

unfoldable pub reply_peer_indicators : Guid → Guid → Json → Action
unfolding lookup send_signal
reply_peer_indicators origin_id peer_id indicators = with_peer origin_id λ peer s.
    done (emit (send_signal s peer.transport_signal (peer_indicators_reply indicators peer_id)) s)
