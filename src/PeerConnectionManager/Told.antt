-- ===== src/PeerConnectionManager/Told.antt =====
-- frame/libs/peerConnectionManager.ts: which clients are told of what, in the loops over the peers.
pub mod Sends
use frame_oldbackend_public.Prelude.{
  String, true, false, Option, truthy, ◌≡◌, refl, ◌≢◌, ◌↔◌, ◌⊎◌, some, none, List, [], ◌∷◌, arith,
  eq_iff, if◌then◌else◌,
}
use frame_oldbackend_public.Prelude.Maps.{lookup, values}
use frame_oldbackend_public.Prelude.Entries.{IsDistinct}
use frame_oldbackend_public.Types.{
  Guid, Json, Peer, Effect, ipc_send, peer_disconnect, Signal, request, consume,
}
use frame_oldbackend_public.State.{State}
use frame_oldbackend_public.PeerConnectionManager.Peers.{send_signal, for_peers, is_other_in}
use frame_oldbackend_public.PeerConnectionManager.Leaving.{announce_leave}
use frame_oldbackend_public.PeerConnectionManager.Consumers.{
  is_consumer, consumer_message, consumer_messages, create_consumer_messages,
}
use frame_oldbackend_public.PeerConnectionManager.Audience.{opt_eq_iff}
use frame_oldbackend_public.PeerConnectionManager.Invariant.Base.{Inv, lookup-IsPeer}
use frame_oldbackend_public.PeerConnectionManager.Told.Sends.{IsSent, sends-exact}

abbrev leave_message : Guid → Peer → Effect
leave_message leaving peer = ipc_send peer.transport_signal (peer_disconnect leaving)

abbrev leave_sends : String → Guid → List Peer → List Effect
leave_sends room leaving =
    for_peers (is_other_in (some room) leaving) (λ peer. leave_message leaving peer ∷ [])

leave_sends-cons :
    (room : String) (leaving : Guid) (peer : Peer) (peers : List Peer)
    → leave_sends room leaving (peer ∷ peers) ≡ (
        if is_other_in (some room) leaving peer
        then leave_message leaving peer ∷ leave_sends room leaving peers
        else leave_sends room leaving peers)
unfolding for_peers
leave_sends-cons room leaving peer peers = refl

leave_sends-nil : (room : String) (leaving : Guid) → leave_sends room leaving [] ≡ []
unfolding for_peers
leave_sends-nil room leaving = refl

announce_leave-sends :
    (s : State) (room : String) (leaving : Guid)
    → s.has_ipc ≡ true
    → announce_leave s room leaving ≡ leave_sends room leaving (values s.peers)
unfolding announce_leave send_signal
announce_leave-sends s room leaving ipc = rw ipc refl

-- A peer leaves a room, in a state with the invariant and in a process with a channel: the
-- messages to the others are exactly, for each known peer that is in the room and is another peer,
-- the message to its own websocket that the peer has left.
pub announce_leave-exact :
    (s : State) (room : String) (leaving : Guid) (e : Effect)
    → Inv s
    → s.has_ipc ≡ true
    → IsSent e (announce_leave s room leaving) ↔ (
        (id : Guid) × (peer : Peer) × (lookup id s.peers ≡ some peer)
        × (peer.room ≡ some room)
        × (id ≢ leaving)
        × (e ≡ ipc_send peer.transport_signal (peer_disconnect leaving)))
announce_leave-exact s room leaving e v ipc =
    let (there, back) =
      sends-exact (is_other_in (some room) leaving) (leave_message leaving)
        (leave_sends room leaving) (leave_sends-nil room leaving) (leave_sends-cons room leaving)
        s.peers e v.distinct in
    rw (announce_leave-sends s room leaving ipc) (
      λ h.
          (let (id, peer, found, passed, same) = there h in
            let named = (lookup-IsPeer id peer s v found).named in
            (
              id,
              peer,
              found,
              ground (arith, opt_eq_iff peer.room (some room)),
              ground (arith, eq_iff peer.id leaving),
              same,
            )),
      λ (id, peer, found, inside, other, same).
          let named = (lookup-IsPeer id peer s v found).named in
          back (
            id,
            peer,
            found,
            ground (arith, eq_iff peer.id leaving, opt_eq_iff peer.room (some room)),
            same,
          ),
    )

consumer_messages-cons :
    (producer : Peer) (type label : String) (peer : Peer) (peers : List Peer)
    → consumer_messages producer type label (peer ∷ peers) ≡ (
        if is_consumer producer label peer
        then consumer_message producer type label peer ∷ consumer_messages producer type label peers
        else consumer_messages producer type label peers)
unfolding consumer_messages
consumer_messages-cons producer type label peer peers = refl

consumer_messages-nil :
    (producer : Peer) (type label : String) → consumer_messages producer type label [] ≡ []
unfolding consumer_messages
consumer_messages-nil producer type label = refl

-- A peer that is told of a new producer under a label: it is in the same room, out of the lobby, and
-- another peer unless the label is FrameEvents.
abbrev pub IsAudience : Peer → String → Peer → Type 0
IsAudience producer label peer =
    (peer.room ≡ producer.room)
    × (peer.room ≢ none)
    × (peer.room ≢ some "")
    × (peer.is_lobby ≡ false)
    × ((producer.id ≢ peer.id) ⊎ (label ≡ "FrameEvents"))

-- The message to the peer's websocket that it consume the producer.
abbrev AsksFor : Peer → Peer → Option String → Option Json → Signal → Type 0
AsksFor producer peer consume_type caps signal =
    signal
    ≡ request peer.transport_signal (consume consume_type peer.id (producer.id ∷ []) peer.room caps)

-- What is asked: media go by their type and carry the peer's capabilities, data go by their label.
abbrev pub IsAsked : Peer → String → String → Peer → Signal → Type 0
IsAsked producer type label peer signal =
    ((type ≡ "audio")
      × AsksFor producer peer (some "consumeAudio") peer.device_rtp_capabilities signal)
    ⊎ ((type ≡ "video")
        × AsksFor producer peer (some "consumeVideo") peer.device_rtp_capabilities signal)
    ⊎ ((type ≢ "audio")
        × (type ≢ "video")
        × (label ≡ "AvatarMovement")
        × AsksFor producer peer (some "consumeMovement") none signal)
    ⊎ ((type ≢ "audio")
        × (type ≢ "video")
        × (label ≡ "FrameEvents")
        × AsksFor producer peer (some "consumeEvents") none signal)
    ⊎ ((type ≢ "audio")
        × (type ≢ "video")
        × (label ≢ "AvatarMovement")
        × (label ≢ "FrameEvents")
        × AsksFor producer peer none none signal)

truthy_iff : (o : Option String) → (truthy o ≡ true) ↔ ((o ≢ none) × (o ≢ some ""))
truthy_iff none = ground arith
truthy_iff (some a) = ground (arith, eq_iff a "")

is_consumer_iff :
    (producer : Peer) (label : String) (peer : Peer)
    → (is_consumer producer label peer ≡ true) ↔ IsAudience producer label peer
is_consumer_iff producer label peer = ground (
  arith,
  opt_eq_iff peer.room producer.room,
  truthy_iff peer.room,
  eq_iff producer.id peer.id,
  eq_iff label "FrameEvents",
)

consumer_message_iff :
    (producer : Peer) (type label : String) (peer : Peer) (signal : Signal)
    → (signal ≡ consumer_message producer type label peer) ↔ IsAsked producer type label peer signal
consumer_message_iff producer type label peer signal = ground (
  arith,
  eq_iff "audio" "video",
  eq_iff "AvatarMovement" "FrameEvents",
  eq_iff type "audio",
  eq_iff type "video",
  eq_iff label "AvatarMovement",
  eq_iff label "FrameEvents",
)

-- A new producer of a known peer, where no peer stands twice: the call returns messages, and they
-- are exactly the ones for each known peer that is in the same room, which has a name that is not
-- empty, that is out of the lobby, and that is another peer unless the label is FrameEvents. The
-- message goes to the peer's websocket and asks that the peer consume the producer: audio and video
-- with the peer's capabilities, movement and events by the label, and no kind for other data.
pub create_consumer_messages-exact :
    (s : State) (id : Guid) (producer : Peer) (type label : String) (signal : Signal)
    → IsDistinct s.peers
    → lookup id s.peers ≡ some producer
    → (signals : List Signal) × (create_consumer_messages id type label s ≡ some signals)
      × (IsSent signal signals ↔ (
          (other : Guid) × (peer : Peer) × (lookup other s.peers ≡ some peer)
          × IsAudience producer label peer
          × IsAsked producer type label peer signal))
unfolding create_consumer_messages
create_consumer_messages-exact s id producer type label signal distinct found =
    let (there, back) =
      sends-exact (is_consumer producer label) (consumer_message producer type label)
        (consumer_messages producer type label) (consumer_messages-nil producer type label)
        (consumer_messages-cons producer type label) s.peers signal distinct in
    (
      consumer_messages producer type label (values s.peers),
      rw (found, create_consumer_messages) refl,
      (
        λ h.
            (let (other, peer, e, passed, same) = there h in
              (
                other,
                peer,
                e,
                (is_consumer_iff producer label peer).0 passed,
                (consumer_message_iff producer type label peer signal).0 same,
              )),
        λ (other, peer, e, audience, asked). back (
          other,
          peer,
          e,
          (is_consumer_iff producer label peer).1 audience,
          (consumer_message_iff producer type label peer signal).1 asked,
        ),
      ),
    )
