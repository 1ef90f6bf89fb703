-- ===== src/PeerConnectionManager/Tests/Messages.antt =====
-- frame/libs/peerConnectionManager.ts: who is told of what in a room with two peers, and the timers
-- of the statistics.
use frame_oldbackend_public.Prelude.{true, ◌≡◌, refl, ◌≢◌, ◌↔◌, some, List, [], ◌∷◌, arith}
use frame_oldbackend_public.Prelude.Maps.{lookup, includes, values}
use frame_oldbackend_public.Types.{Guid, Peer}
use frame_oldbackend_public.State.{State}
use frame_oldbackend_public.PeerConnectionManager.Consumers.{producers_for}
use frame_oldbackend_public.PeerConnectionManager.Command.{send_stats, stop_stats, fire_timer}
use frame_oldbackend_public.PeerConnectionManager.Told.Sends.{IsSent}
use frame_oldbackend_public.PeerConnectionManager.Told.{
  IsAudience, IsAsked, announce_leave-exact, create_consumer_messages-exact,
}
use frame_oldbackend_public.Types.{ipc_send, peer_disconnect, Signal}
use frame_oldbackend_public.PeerConnectionManager.Leaving.{announce_leave}
use frame_oldbackend_public.PeerConnectionManager.Consumers.{
  consumer_message, create_consumer_messages,
}
use frame_oldbackend_public.PeerConnectionManager.Audience.{IsOther, producers_for-exact}
use frame_oldbackend_public.PeerConnectionManager.Statistics.{stop-send_twice}
use frame_oldbackend_public.PeerConnectionManager.Tests.{guest, host, full, full-Inv}

producers_for-exact_example :
    (includes "p2" (producers_for guest (values full.peers)) ≡ true) ↔ IsOther guest full.peers "p2"
producers_for-exact_example = producers_for-exact guest full "p2" full-Inv

-- Timer 0 is set, and timer 1 comes next.
abbrev ticking : State
ticking = record full { timers = 0 ∷ []; stats_timeout = some 0; next_timer = 1 }

stop-send_twice_example :
    ((stop_stats (send_stats (send_stats ticking))).timers ≡ 1 ∷ 0 ∷ [])
    × (fire_timer 1 (stop_stats (send_stats (send_stats ticking)))
        ≡ send_stats (record (stop_stats (send_stats (send_stats ticking))) { timers = 0 ∷ [] }))
stop-send_twice_example = stop-send_twice ticking (omega arith, tt)

announce_leave-exact_example :
    IsSent (ipc_send "w2" (peer_disconnect "p1")) (announce_leave full "lounge" "p1") ↔ (
      (id : Guid) × (peer : Peer) × (lookup id full.peers ≡ some peer)
      × (peer.room ≡ some "lounge")
      × (id ≢ "p1")
      × (ipc_send "w2" (peer_disconnect "p1")
          ≡ ipc_send peer.transport_signal (peer_disconnect "p1")))
announce_leave-exact_example =
    announce_leave-exact full "lounge" "p1" (ipc_send "w2" (peer_disconnect "p1")) full-Inv refl

-- The first peer speaks: the second one, which is out of the lobby, hears it.
create_consumer_messages-exact_example :
    (signals : List Signal) × (create_consumer_messages "p1" "audio" "" full ≡ some signals)
    × (IsSent (consumer_message guest "audio" "" host) signals ↔ (
        (other : Guid) × (peer : Peer) × (lookup other full.peers ≡ some peer)
        × IsAudience guest "" peer
        × IsAsked guest "audio" "" peer (consumer_message guest "audio" "" host)))
unfolding lookup
create_consumer_messages-exact_example =
    create_consumer_messages-exact full "p1" guest "audio" ""
      (consumer_message guest "audio" "" host) (refl, (refl, tt)) refl
