-- ===== src/PeerConnectionManager/Agreement/Untouched.antt =====
-- frame/libs/peerConnectionManager.ts: the commands that leave the rooms and the router alone.
use frame_oldbackend_public.Prelude.{
  String, Bool, true, false, ◌≡◌, refl, inl, inr, Option, none, some, List, [], ◌∷◌, ◌==◌, arith,
  opt_eq, if◌then◌else◌, Option-cases, Bool-cases, ◌∙◌,
}
use frame_oldbackend_public.Prelude.Maps.{Map, lookup, insert}
use frame_oldbackend_public.Types.{Guid, Json, Peer, PeerCounter, Effect}
use frame_oldbackend_public.State.{State, Outcome, done, thrown, Action, ◌>>◌, state_of, emit}
use frame_oldbackend_public.PeerConnectionManager.Peers.{with_peer}
use frame_oldbackend_public.PeerConnectionManager.Counts.{
  collect_counts, get_peer_count, send_peer_count, count_of, requested_rooms,
}
use frame_oldbackend_public.PeerConnectionManager.Transports.{
  create_ingress_transport, create_egress_transport, connect_peer_transport, restart_peer_ice,
  count_in, connect_send, connect_send_in,
}
use frame_oldbackend_public.PeerConnectionManager.Consumers.{
  consume_all_audio, consume_all_video, consume_all_events, consume_all_movement, enter_room,
  request_movement,
}
use frame_oldbackend_public.PeerConnectionManager.Producers.{
  create_media, create_data, create_events, mute_producer, unmute_producer, set_producer_state,
  close_peer_producer,
}
use frame_oldbackend_public.PeerConnectionManager.Announcements.{
  hush_room, hush_peer, send_peer_indicators, reply_peer_indicators,
}

-- The rooms and the router of two states are the same.
abbrev pub IsKept : State → State → Type 0
IsKept s t = (t.rooms ≡ s.rooms) × (t.router ≡ s.router)

abbrev pub Keeps : Action → Type 0
Keeps m = (s : State) → IsKept s (state_of (m s))

with_peer-Keeps :
    (id : Guid) (f : Peer → Action) → ((peer : Peer) → Keeps (f peer)) → Keeps (with_peer id f)
with_peer-Keeps id f keeps s = elim (Option-cases (lookup id s.peers)) [
  | inl e ↦ rw (e, with_peer, state_of) (refl, refl)
  | inr (peer, e) ↦ rw (e, with_peer, state_of) (keeps peer s)
]

sends-Keeps :
    (id : Guid) (f : Peer → State → List Effect)
    → Keeps (with_peer id λ peer s. done (emit (f peer s) s))
sends-Keeps id f = with_peer-Keeps id _ λ peer s. (refl, refl)

if-Keeps : (b : Bool) (m n : Action) → Keeps m → Keeps n → Keeps (λ s. if b then m s else n s)
if-Keeps true m n first second = first
if-Keeps false m n first second = second

collect_counts-IsKept :
    (rooms : List String) (s : State) (counts : Map PeerCounter)
    → IsKept s (collect_counts rooms s counts).0
unfolding collect_counts
collect_counts-IsKept [] s counts = (refl, refl)
collect_counts-IsKept (room ∷ rooms) s counts =
    collect_counts-IsKept rooms _ (insert room (count_of s room) counts)

pub get_peer_count-Keeps :
    (id : Guid) (rooms : Option (List String)) → Keeps (get_peer_count id rooms)
unfolding get_peer_count
get_peer_count-Keeps id rooms =
    with_peer-Keeps id _ λ peer s. collect_counts-IsKept (requested_rooms rooms) s []

count_in-IsKept : (room : Option String) (s : State) → IsKept s (count_in room s)
unfolding count_in send_peer_count
count_in-IsKept none s = (refl, refl)
count_in-IsKept (some room) s = ground (arith, Bool-cases (room == ""))

pub create_ingress_transport-Keeps :
    (id : Guid) (streams caps : Json) → Keeps (create_ingress_transport id streams caps)
unfolding create_ingress_transport
create_ingress_transport-Keeps id streams caps =
    with_peer-Keeps id _ λ peer s. count_in-IsKept peer.room _

pub create_egress_transport-Keeps :
    (id : Guid) (streams caps : Json) (egress : Option Guid)
    → Keeps (create_egress_transport id streams caps egress)
unfolding create_egress_transport
create_egress_transport-Keeps id streams caps egress = with_peer-Keeps id _ λ peer s. (refl, refl)

connect_send-Keeps :
    (id : Guid) (peer : Peer) (room : String) (dtls : Json) → Keeps (connect_send id peer room dtls)
unfolding connect_send send_peer_count
connect_send-Keeps id peer room dtls s = ground (arith, Option-cases (lookup room s.peer_count))

pub connect_peer_transport-Keeps :
    (id : Guid) (direction : Option String) (dtls : Json) (egress : Option Guid)
    → Keeps (connect_peer_transport id direction dtls egress)
unfolding connect_peer_transport
connect_peer_transport-Keeps id direction dtls egress = with_peer-Keeps id _ λ peer.
    if-Keeps (opt_eq direction (some "send")) (connect_send_in id peer peer.room dtls) _
      (inside peer peer.room) (λ s. (refl, refl))
  where
    inside : (peer : Peer) (room : Option String) → Keeps (connect_send_in id peer room dtls)
    inside peer none s = (refl, refl)
    inside peer (some room) s =
        if-Keeps (room == "") done (connect_send id peer room dtls) (λ s. (refl, refl))
          (connect_send-Keeps id peer room dtls) s

enter_room-Keeps :
    (id : Guid) (spectator : Bool) (peer : Peer) (room : Option String)
    → Keeps (enter_room id spectator peer room)
unfolding enter_room
enter_room-Keeps id spectator peer none s = (refl, refl)
enter_room-Keeps id spectator peer (some room) s =
    ground (arith, Option-cases (lookup room s.peer_count))

pub >>-Keeps : (m n : Action) → Keeps m → Keeps n → Keeps (m >> n)
>>-Keeps m n first second s = go (m s) (first s)
  where
    go :
        (o : Outcome)
        → IsKept s (state_of o)
        → IsKept s (state_of (elim o [ done t ↦ n t | thrown t ↦ thrown t ]))
    go (done t) h = ((second t).0 ∙ h.0, (second t).1 ∙ h.1)
    go (thrown t) h = h

request_movement-Keeps : (id : Guid) → Keeps (request_movement id)
unfolding request_movement
request_movement-Keeps id = sends-Keeps id _

pub consume_all_movement-Keeps :
    (id : Guid) (spectator : Bool) → Keeps (consume_all_movement id spectator)
unfolding consume_all_movement
consume_all_movement-Keeps id spectator = with_peer-Keeps id _ λ peer.
    >>-Keeps (enter_room id spectator peer peer.room) (request_movement id)
      (enter_room-Keeps id spectator peer peer.room) (request_movement-Keeps id)

pub create_media-Keeps : (id : Guid) (options : Json) → Keeps (create_media id options)
unfolding create_media
create_media-Keeps id options = sends-Keeps id _

pub create_data-Keeps : (id : Guid) (options : Json) → Keeps (create_data id options)
unfolding create_data
create_data-Keeps id options = sends-Keeps id _

pub create_events-Keeps : (id : Guid) (options : Json) → Keeps (create_events id options)
unfolding create_events
create_events-Keeps id options = sends-Keeps id _

pub consume_all_audio-Keeps : (id : Guid) → Keeps (consume_all_audio id)
unfolding consume_all_audio
consume_all_audio-Keeps id = sends-Keeps id _

pub consume_all_video-Keeps : (id : Guid) → Keeps (consume_all_video id)
unfolding consume_all_video
consume_all_video-Keeps id = sends-Keeps id _

pub consume_all_events-Keeps : (id : Guid) → Keeps (consume_all_events id)
unfolding consume_all_events
consume_all_events-Keeps id = sends-Keeps id _

pub set_producer_state-Keeps :
    (id : Guid) (state : Bool) (type : String) → Keeps (set_producer_state id state type)
unfolding set_producer_state
set_producer_state-Keeps id state type = sends-Keeps id _

pub close_peer_producer-Keeps :
    (id producer : Guid) (type : String) → Keeps (close_peer_producer id producer type)
unfolding close_peer_producer
close_peer_producer-Keeps id producer type = sends-Keeps id _

pub mute_producer-Keeps :
    (id producer : Guid) (kind : String) → Keeps (mute_producer id producer kind)
unfolding mute_producer
mute_producer-Keeps id producer kind =
    with_peer-Keeps id _
      λ peer. if-Keeps (kind == "audio") _ done (λ s. (refl, refl)) (λ s. (refl, refl))

pub unmute_producer-Keeps :
    (id producer : Guid) (kind : String) → Keeps (unmute_producer id producer kind)
unfolding unmute_producer
unmute_producer-Keeps id producer kind =
    with_peer-Keeps id _
      λ peer. if-Keeps (kind == "audio") _ done (λ s. (refl, refl)) (λ s. (refl, refl))

pub hush_room-Keeps : (id : Guid) → Keeps (hush_room id)
unfolding hush_room
hush_room-Keeps id = sends-Keeps id _

pub hush_peer-Keeps : (id hushed : Guid) → Keeps (hush_peer id hushed)
unfolding hush_peer
hush_peer-Keeps id hushed = sends-Keeps hushed _

pub send_peer_indicators-Keeps :
    (id : Guid) (indicators : Json) (room : Option String)
    → Keeps (send_peer_indicators id indicators room)
unfolding send_peer_indicators
send_peer_indicators-Keeps id indicators room = sends-Keeps id _

pub reply_peer_indicators-Keeps :
    (origin id : Guid) (indicators : Json) → Keeps (reply_peer_indicators origin id indicators)
unfolding reply_peer_indicators
reply_peer_indicators-Keeps origin id indicators = sends-Keeps origin _

pub restart_peer_ice-Keeps :
    (transport id : Guid) (ingress egress : Option Guid)
    → Keeps (restart_peer_ice transport id ingress egress)
unfolding restart_peer_ice
restart_peer_ice-Keeps transport id ingress egress = sends-Keeps id _
