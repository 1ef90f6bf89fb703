-- ===== src/Avatar/Leaving.antt =====
-- frame/webapp/core/avatar.ts: `leaveCleanup` and `leaveFrame`.
use Prim.Native.Char.{code}
use frame_oldbackend_public.Prelude.{
  String, Bool, true, false, ◌&&◌, ◌||◌, Option, none, some, List, [], ◌∷◌, ◌++◌, ◌+◌, map, leb,
  if◌then◌else◌,
}
use frame_oldbackend_public.Prelude.Maps.{Map, values}
use frame_oldbackend_public.Types.Commands.{leave_room}
use frame_oldbackend_public.Movement.Timer.{stop_sending}
use frame_oldbackend_public.Avatar.MovementServer.{close_socket}
use frame_oldbackend_public.Avatar.State.{
  Handle, Consumer, Producer, ClientEffect, closed, leave_handled, Avatar, perform, send,
}
use frame_oldbackend_public.Avatar.Consumers.{close_all}

all_digits : String → Bool
all_digits String.[] = true
all_digits (String.◌∷◌ c s) = leb b'0' (code c) && leb (code c) b'9' && all_digits s

-- Whether a key of an array is an index: a number written without leading zeros. The bound of 2^32 - 1
-- is left aside.
unfoldable pub is_index : String → Bool
unfolding all_digits
is_index String.[] = false
is_index (String.◌∷◌ c String.[]) = leb b'0' (code c) && leb (code c) b'9'
is_index (String.◌∷◌ c (String.◌∷◌ d s)) =
    leb b'1' (code c) && leb (code c) b'9' && leb b'0' (code d) && leb (code d) b'9' && all_digits s

module _ {ℓ} {V : Type ℓ} where
  -- `array.length > 0`, for an array that holds its values under such keys and others
  unfoldable pub has_length : Map V → Bool
  unfolding is_index
  has_length [] = false
  has_length ((key, value) ∷ rest) = is_index key || has_length rest

  -- What `array.forEach` visits
  unfoldable pub elements : Map V → List V
  unfolding is_index
  elements [] = []
  elements ((key, value) ∷ rest) = if is_index key then value ∷ elements rest else elements rest

-- `producer?.close()`
abbrev pub close_producer : Option Producer → List ClientEffect
close_producer none = []
close_producer (some producer) = closed producer.handle ∷ []

abbrev pub close_lists : List (List Consumer) → List ClientEffect
close_lists [] = []
close_lists (consumers ∷ rest) = close_all consumers ++ close_lists rest

-- The first four loops.
abbrev pub close_consumers : Avatar → List ClientEffect
close_consumers a =
    close_all (values a.audio_consumers)
    ++ (close_all (values a.video_consumers)
        ++ (close_lists (values a.movement_consumers)
            ++ close_lists (values a.frame_events_consumers)))

abbrev pub close_producers : Avatar → List ClientEffect
unfolding elements
close_producers a =
    close_producer a.video_producer
    ++ (close_producer a.audio_producer
        ++ (map (λ p. closed p.handle) (elements a.screen_video_producer)
            ++ (map (λ p. closed p.handle) (elements a.screen_audio_producer)
                ++ (close_producer a.movement_producer ++ close_producer a.frame_events_producer))))

abbrev pub close_transport : Option Handle → List ClientEffect
close_transport none = []
close_transport (some transport) = closed transport ∷ []

abbrev pub close_transports : Avatar → List ClientEffect
close_transports a =
    map closed (values a.consumer_transport) ++ close_transport a.producer_transport

-- The assignments after the loops; `screenAudioProducerIds` is set twice.
abbrev pub forget_consumers : Avatar → Avatar
forget_consumers a = record a {
  movement_consumers = [];
  frame_events_consumers = [];
  audio_consumers = [];
  video_consumers = [];
  screen_audio_consumers = [];
  screen_video_consumers = [];
  screen_audio_producer_ids = [];
}

-- `if (transitions)`: whether the page has an element for the webcam and one for the microphone.
abbrev pub forget_media : Bool → Bool → Avatar → Avatar
forget_media webcam microphone a = record a {
  video_producer = if webcam then none else a.video_producer;
  audio_producer = if microphone then none else a.audio_producer;
  producer_transport = none;
  consumer_transport = [];
  collection = a.collection + 1;
}

-- The page that the avatar leaves: whether it goes to another frame, and its elements.
pub record Page : Type 0 where
  pub transitions : Bool
  pub webcam : Bool
  pub microphone : Bool

-- `failed` stands for a TypeError: a list of consumers has no method `close`.
pub data Left : Type 0 where
  left : Avatar → Left
  failed : Avatar → Left

unfoldable pub leave_cleanup : Page → Avatar → Left
unfolding has_length elements
leave_cleanup page a =
    elim (has_length a.screen_audio_consumers || has_length a.screen_video_consumers) [
      | true ↦ failed (perform (close_consumers a) a)
      | false ↦
          let a1 =
            perform (close_consumers a ++ (close_producers a ++ close_transports a))
              (forget_consumers a) in
          left (if page.transitions then forget_media page.webcam page.microphone a1 else a1)
    ]

unfoldable pub leave_frame : String → Page → Avatar → Left
unfolding leave_cleanup send stop_sending
leave_frame frame_name page a =
    let a1 = record a { avatar_mover = stop_sending a.avatar_mover } in
    elim (leave_cleanup page (perform (leave_handled frame_name ∷ []) a1)) [
      | failed a2 ↦ failed a2
      | left a2 ↦
          let a3 = send (leave_room a2.avatar_id frame_name) a2 in
          left (record a3 { link = close_socket a3.link.movement_transport a3.link })
    ]
