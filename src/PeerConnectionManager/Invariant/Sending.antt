-- ===== src/PeerConnectionManager/Invariant/Sending.antt =====
-- The commands that only send keep the invariant.
use frame_oldbackend_public.Prelude.{String, Bool, true, false, Option, List, ◌==◌, if◌then◌else◌}
use frame_oldbackend_public.Types.{Guid, Json, Peer, Effect}
use frame_oldbackend_public.State.{State, done, emit}
use frame_oldbackend_public.PeerConnectionManager.Peers.{with_peer}
use frame_oldbackend_public.PeerConnectionManager.Transports.{restart_peer_ice}
use frame_oldbackend_public.PeerConnectionManager.Consumers.{
  consume_all_audio, consume_all_video, consume_all_events,
}
use frame_oldbackend_public.PeerConnectionManager.Producers.{
  create_media, create_data, create_events, mute_producer, unmute_producer, set_producer_state,
  close_peer_producer,
}
use frame_oldbackend_public.PeerConnectionManager.Announcements.{
  hush_room, hush_peer, send_peer_indicators, reply_peer_indicators,
}
use frame_oldbackend_public.PeerConnectionManager.Invariant.Base.{KeepsInv, with_peer-KeepsInv}
use frame_oldbackend_public.PeerConnectionManager.Invariant.Counting.{sends-KeepsInv}

-- A command that only sends, or returns.
sends_if-KeepsInv :
    (id : Guid) (b : Bool) (f : Peer → State → List Effect)
    → KeepsInv (with_peer id λ peer s. if b then done (emit (f peer s) s) else done s)
sends_if-KeepsInv id true f = sends-KeepsInv id f
sends_if-KeepsInv id false f = with_peer-KeepsInv id _ λ peer s v p e. v

pub create_media-KeepsInv : (id : Guid) (options : Json) → KeepsInv (create_media id options)
unfolding create_media
create_media-KeepsInv id options = sends-KeepsInv id _

pub create_data-KeepsInv : (id : Guid) (options : Json) → KeepsInv (create_data id options)
unfolding create_data
create_data-KeepsInv id options = sends-KeepsInv id _

pub create_events-KeepsInv : (id : Guid) (options : Json) → KeepsInv (create_events id options)
unfolding create_events
create_events-KeepsInv id options = sends-KeepsInv id _

pub consume_all_audio-KeepsInv : (id : Guid) → KeepsInv (consume_all_audio id)
unfolding consume_all_audio
consume_all_audio-KeepsInv id = sends-KeepsInv id _

pub consume_all_video-KeepsInv : (id : Guid) → KeepsInv (consume_all_video id)
unfolding consume_all_video
consume_all_video-KeepsInv id = sends-KeepsInv id _

pub consume_all_events-KeepsInv : (id : Guid) → KeepsInv (consume_all_events id)
unfolding consume_all_events
consume_all_events-KeepsInv id = sends-KeepsInv id _

pub set_producer_state-KeepsInv :
    (id : Guid) (state : Bool) (type : String) → KeepsInv (set_producer_state id state type)
unfolding set_producer_state
set_producer_state-KeepsInv id state type = sends-KeepsInv id _

pub close_peer_producer-KeepsInv :
    (id producer : Guid) (type : String) → KeepsInv (close_peer_producer id producer type)
unfolding close_peer_producer
close_peer_producer-KeepsInv id producer type = sends-KeepsInv id _

pub mute_producer-KeepsInv :
    (id producer : Guid) (kind : String) → KeepsInv (mute_producer id producer kind)
unfolding mute_producer
mute_producer-KeepsInv id producer kind = sends_if-KeepsInv id (kind == "audio") _

pub unmute_producer-KeepsInv :
    (id producer : Guid) (kind : String) → KeepsInv (unmute_producer id producer kind)
unfolding unmute_producer
unmute_producer-KeepsInv id producer kind = sends_if-KeepsInv id (kind == "audio") _

pub hush_room-KeepsInv : (id : Guid) → KeepsInv (hush_room id)
unfolding hush_room
hush_room-KeepsInv id = sends-KeepsInv id _

pub hush_peer-KeepsInv : (id hushed : Guid) → KeepsInv (hush_peer id hushed)
unfolding hush_peer
hush_peer-KeepsInv id hushed = sends-KeepsInv hushed _

pub send_peer_indicators-KeepsInv :
    (id : Guid) (indicators : Json) (room : Option String)
    → KeepsInv (send_peer_indicators id indicators room)
unfolding send_peer_indicators
send_peer_indicators-KeepsInv id indicators room = sends-KeepsInv id _

pub reply_peer_indicators-KeepsInv :
    (origin id : Guid) (indicators : Json) → KeepsInv (reply_peer_indicators origin id indicators)
unfolding reply_peer_indicators
reply_peer_indicators-KeepsInv origin id indicators = sends-KeepsInv origin _

pub restart_peer_ice-KeepsInv :
    (transport id : Guid) (ingress egress : Option Guid)
    → KeepsInv (restart_peer_ice transport id ingress egress)
unfolding restart_peer_ice
restart_peer_ice-KeepsInv transport id ingress egress = sends-KeepsInv id _
