-- ===== src/PeerConnectionManager/Failures.antt =====
-- frame/libs/peerConnectionManager.ts, `command`: which commands can fail.
use frame_oldbackend_public.Prelude.{
  String, Bool, true, false, ◌≡◌, inl, inr, Option, List, ◌==◌, arith, if◌then◌else◌, Option-cases,
  Bool-cases,
}
use frame_oldbackend_public.Prelude.Maps.{lookup}
use frame_oldbackend_public.Types.{Guid, Json, Peer}
use frame_oldbackend_public.Types.Commands.{RequestMessage}
use frame_oldbackend_public.State.{State, Outcome, done, thrown, Action, ◌>>◌}
use frame_oldbackend_public.PeerConnectionManager.Peers.{with_peer}
use frame_oldbackend_public.PeerConnectionManager.Counts.{get_peer_count}
use frame_oldbackend_public.PeerConnectionManager.Leaving.{leave_room}
use frame_oldbackend_public.PeerConnectionManager.Transports.{
  create_ingress_transport, create_egress_transport, restart_peer_ice,
}
use frame_oldbackend_public.PeerConnectionManager.Consumers.{
  consume_all_audio, consume_all_video, consume_all_events,
}
use frame_oldbackend_public.PeerConnectionManager.Producers.{
  create_media, create_data, create_events, mute_producer, unmute_producer, set_producer_state,
  close_peer_producer,
}
use frame_oldbackend_public.PeerConnectionManager.Announcements.{
  hush_room, hush_peer, send_peer_indicators, reply_peer_indicators,
}
use frame_oldbackend_public.PeerConnectionManager.Command.{dispatch, failed, caught, command}

abbrev IsDone : Outcome → Type 0
IsDone (done s) = Unit
IsDone (thrown s) = ⊥

-- A call that returns in every state.
abbrev Returns : Action → Type 0
Returns m = (s : State) → IsDone (m s)

with_peer-Returns :
    (id : Guid) (f : Peer → Action) → ((peer : Peer) → Returns (f peer)) → Returns (with_peer id f)
with_peer-Returns id f returns s = elim (Option-cases (lookup id s.peers)) [
  | inl e ↦ rw (e, with_peer, IsDone) tt
  | inr (peer, e) ↦ rw (e, with_peer, IsDone) (returns peer s)
]

if-Returns : (b : Bool) (m n : Action) → Returns m → Returns n → Returns (if b then m else n)
if-Returns true m n first second = first
if-Returns false m n first second = second

if_in-Returns :
    (b : Bool) (m n : Action) → Returns m → Returns n → Returns (λ s. if b then m s else n s)
if_in-Returns true m n first second = first
if_in-Returns false m n first second = second

sends-Returns :
    (id : Guid) (f : Peer → State → State) → Returns (with_peer id λ peer s. done (f peer s))
sends-Returns id f = with_peer-Returns id _ λ peer s. tt

>>-Returns : (m n : Action) → Returns m → Returns n → Returns (m >> n)
>>-Returns m n first second s = go (m s) (first s)
  where
    go : (o : Outcome) → IsDone o → IsDone (elim o [ done t ↦ n t | thrown t ↦ thrown t ])
    go (done t) h = second t
    go (thrown t) h = h

leave_room-Returns : (id : Guid) (room : String) → Returns (leave_room id room)
unfolding leave_room
leave_room-Returns id room = with_peer-Returns id _ λ peer s.
    elim (Option-cases (lookup room s.rooms)) [
      | inl e ↦ rw (e, IsDone) tt
      | inr (found, e) ↦ elim (Option-cases (lookup room s.peer_count)) [
        | inl f ↦ rw (e, f, IsDone) tt
        | inr (count, f) ↦ rw (e, f, IsDone) tt
      ]
    ]

get_peer_count-Returns :
    (id : Guid) (rooms : Option (List String)) → Returns (get_peer_count id rooms)
unfolding get_peer_count
get_peer_count-Returns id rooms = sends-Returns id _

create_ingress_transport-Returns :
    (id : Guid) (streams caps : Json) → Returns (create_ingress_transport id streams caps)
unfolding create_ingress_transport
create_ingress_transport-Returns id streams caps = sends-Returns id _

create_egress_transport-Returns :
    (id : Guid) (streams caps : Json) (egress : Option Guid)
    → Returns (create_egress_transport id streams caps egress)
unfolding create_egress_transport
create_egress_transport-Returns id streams caps egress = sends-Returns id _

create_media-Returns : (id : Guid) (options : Json) → Returns (create_media id options)
unfolding create_media
create_media-Returns id options = sends-Returns id _

set_producer_state-Returns :
    (id : Guid) (state : Bool) (type : String) → Returns (set_producer_state id state type)
unfolding set_producer_state
set_producer_state-Returns id state type = sends-Returns id _

mute_producer-Returns :
    (id producer : Guid) (kind : String) → Returns (mute_producer id producer kind)
unfolding mute_producer
mute_producer-Returns id producer kind =
    with_peer-Returns id _ λ peer. if_in-Returns (kind == "audio") _ done (λ s. tt) (λ s. tt)

unmute_producer-Returns :
    (id producer : Guid) (kind : String) → Returns (unmute_producer id producer kind)
unfolding unmute_producer
unmute_producer-Returns id producer kind =
    with_peer-Returns id _ λ peer. if_in-Returns (kind == "audio") _ done (λ s. tt) (λ s. tt)

-- The commands that may end in the `catch` of `command`.
unfoldable pub may_fail : RequestMessage → Bool
may_fail (RequestMessage.join_room peer room) = true
may_fail (RequestMessage.connect_ingress_transport peer direction dtls) = true
may_fail (RequestMessage.connect_egress_transport peer direction dtls egress) = true
may_fail (RequestMessage.get_room_movement peer spectator) = true
may_fail (RequestMessage.boot_peer peer) = true
may_fail (RequestMessage.disconnect_peer_websocket transport) = true
may_fail _ = false

dispatch-Returns :
    (uuid ws : Guid) (m : RequestMessage) → may_fail m ≡ false → Returns (dispatch uuid ws m)
unfolding dispatch may_fail close_peer_producer consume_all_audio consume_all_events
    consume_all_video create_data create_events hush_peer hush_room reply_peer_indicators
    restart_peer_ice send_peer_indicators
dispatch-Returns uuid ws (RequestMessage.request_identity region) h = λ s. tt
dispatch-Returns uuid ws (RequestMessage.join_room peer room) h = λ s. ground arith
dispatch-Returns uuid ws (RequestMessage.get_room_metrics peer rooms) h =
    get_peer_count-Returns peer rooms
dispatch-Returns uuid ws (RequestMessage.leave_room peer room) h = leave_room-Returns peer room
dispatch-Returns uuid ws (RequestMessage.create_ingress_transport peer streams caps) h =
    create_ingress_transport-Returns peer streams caps
dispatch-Returns uuid ws (RequestMessage.create_egress_transport peer streams caps egress) h =
    create_egress_transport-Returns peer streams caps egress
dispatch-Returns uuid ws (RequestMessage.connect_ingress_transport peer direction dtls) h =
    λ s. ground arith
dispatch-Returns uuid ws (RequestMessage.connect_egress_transport peer direction dtls egress) h =
    λ s. ground arith
dispatch-Returns uuid ws (RequestMessage.produce_media peer kind options) h =
    if-Returns (kind == "audio") (create_media peer options)
      (if kind == "video" then create_media peer options else done)
      (create_media-Returns peer options)
      (if-Returns (kind == "video") (create_media peer options) done
        (create_media-Returns peer options) λ t. tt)
dispatch-Returns uuid ws (RequestMessage.produce_data peer options) h = sends-Returns peer _
dispatch-Returns uuid ws (RequestMessage.produce_events peer options) h = sends-Returns peer _
dispatch-Returns uuid ws (RequestMessage.get_room_audio peer) h = sends-Returns peer _
dispatch-Returns uuid ws (RequestMessage.get_room_video peer) h = sends-Returns peer _
dispatch-Returns uuid ws (RequestMessage.get_room_movement peer spectator) h = λ s. ground arith
dispatch-Returns uuid ws (RequestMessage.get_room_events peer) h = sends-Returns peer _
dispatch-Returns uuid ws (RequestMessage.mute_producer peer producer kind) h =
    mute_producer-Returns peer producer kind
dispatch-Returns uuid ws (RequestMessage.resume_producer peer producer kind) h =
    unmute_producer-Returns peer producer kind
dispatch-Returns uuid ws (RequestMessage.set_audio_state peer state) h =
    set_producer_state-Returns peer state "audio"
dispatch-Returns uuid ws (RequestMessage.set_video_state peer state) h =
    set_producer_state-Returns peer state "video"
dispatch-Returns uuid ws (RequestMessage.set_desktop_state peer state) h =
    >>-Returns (set_producer_state peer state "desktopAudio")
      (set_producer_state peer state "desktopVideo")
      (set_producer_state-Returns peer state "desktopAudio")
      (set_producer_state-Returns peer state "desktopVideo")
dispatch-Returns uuid ws (RequestMessage.hush_peers peer) h = sends-Returns peer _
dispatch-Returns uuid ws (RequestMessage.hush_user peer hushed) h = sends-Returns hushed _
dispatch-Returns uuid ws (RequestMessage.peer_indicators peer indicators) h = sends-Returns peer _
dispatch-Returns uuid ws (RequestMessage.reply_peer_indicators origin peer indicators) h =
    sends-Returns origin _
dispatch-Returns uuid ws (RequestMessage.boot_peer peer) h = λ s. ground arith
dispatch-Returns uuid ws (RequestMessage.disconnect_peer_websocket transport) h = λ s. ground arith
dispatch-Returns uuid ws (RequestMessage.producer_close peer producer media_type) h =
    sends-Returns peer _
dispatch-Returns uuid ws RequestMessage.begin_sending_stats h = λ s. tt
dispatch-Returns uuid ws RequestMessage.end_sending_stats h = λ s. tt
dispatch-Returns uuid ws (RequestMessage.restart_ice transport peer ingress egress) h =
    sends-Returns peer _
dispatch-Returns uuid ws RequestMessage.unknown h = λ s. tt

caught-failed : (ws w : Guid) (o : Outcome) → (caught ws o).1 ≡ failed w → IsDone o → ⊥
caught-failed ws w (done s) h d = ground arith
caught-failed ws w (thrown s) h d = d

caught-same : (ws w : Guid) (o : Outcome) → (caught ws o).1 ≡ failed w → w ≡ ws
caught-same ws w (done s) h = ground arith
caught-same ws w (thrown s) h = ground arith

-- A command that fails is one of six: joining a room, connecting an ingress or an egress
-- transport, asking for the movement of the room, booting a peer, and disconnecting a websocket.
-- The failure is answered to the websocket that sent the command.
pub command-failed :
    (uuid ws w : Guid) (m : RequestMessage) (s : State)
    → (command uuid ws m s).1 ≡ failed w
    → (may_fail m ≡ true) × (w ≡ ws)
unfolding command
command-failed uuid ws w m s h = (
  elim (Bool-cases (may_fail m)) [
    | inl e ↦ e
    | inr e ↦
        elim (caught-failed ws w (dispatch uuid ws m s) h (dispatch-Returns uuid ws m e s)) [ ]
  ],
  caught-same ws w (dispatch uuid ws m s) h,
)
