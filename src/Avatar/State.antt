-- ===== src/Avatar/State.antt =====
-- frame/webapp/core/avatar.ts: the fields of the class `avatar`, and what its methods do to the outside.
use frame_oldbackend_public.Prelude.{
  ℕ, String, Bool, true, false, Option, none, List, [], ◌∷◌, ◌++◌,
}
use frame_oldbackend_public.Prelude.Maps.{Map}
use frame_oldbackend_public.Types.{Guid, Json}
use frame_oldbackend_public.Movement.Timer.{Sender}
use frame_oldbackend_public.Avatar.MovementServer.{Link, new_link}
use frame_oldbackend_public.Types.Commands.{RequestMessage}

-- An object of mediasoup-client (a consumer, producer or transport), by its identity.
abbrev pub Handle : Type 0
Handle = ℕ

pub record Consumer : Type 0 where
  pub handle : Handle
  pub paused : Bool

pub record Producer : Type 0 where
  pub handle : Handle
  pub kind : String
  pub paused : Bool

-- The four announcements of a media server.
pub data Announcement : Type 0 where
  audio video movement events : Announcement

-- The options of an announced producer: the transport through which it is consumed, the `source` and
-- the rest of its data.
pub record ConsumerOptions : Type 0 where
  pub transport_id : Guid
  pub source : String
  pub options : Json

abbrev pub Announced : Type 0
Announced = List (Guid × ConsumerOptions)

-- A track of `mediaStreams`: undefined, false, true, or a track with its kind and device.
pub data Track : Type 0 where
  absent off on : Track
  track : (kind : String) (device_id : Option String) → Track

-- What the methods do outside the class. A call of a handler stands for the call if it is set.
pub data ClientEffect : Type 0 where
  -- `signalTransport.send`
  signalled : RequestMessage → ClientEffect
  -- Methods of mediasoup-client's objects
  closed paused resumed : Handle → ClientEffect
  consuming : (transport : Handle) → Announcement → ConsumerOptions → ClientEffect
  producing : (transport : Handle) (kind source : String) → ClientEffect
  producing_data : (transport : Handle) (label : String) → ClientEffect
  removed_track : Handle → ClientEffect
  replaced_track : (producer track : Handle) → ClientEffect
  -- A track of the device is stopped, and the page shows a track.
  stopped_track shown : (track : Handle) → ClientEffect
  -- The callback of `produce` and `producedata`
  produced : (id : Guid) → ClientEffect
  -- The handlers that the harness sets
  identity_handled : (id : Guid) → ClientEffect
  enter_handled leave_handled : (frame_name : String) → ClientEffect
  audio_handled video_handled : (peer_id : Guid) (consumer : Handle) → ClientEffect
  disconnect_handled hushed_handled : (peer_id : Guid) → ClientEffect
  audio_state_handled video_state_handled : (peer_id : Guid) (state : String) → ClientEffect
  indicators_handled : (peer_id : Guid) (indicators : Json) (should_reply : Bool) → ClientEffect
  count_handled : (room_name : String) (count : Json) → ClientEffect
  event_handled : (callback : ℕ) (message : Json) → ClientEffect
  -- `stateManager`
  notified : ClientEffect
  hardware_enabled : (device : String) (state : Bool) → ClientEffect
  audio_muted : Bool → ClientEffect
  -- `window.location.href = "/"`
  sent_home : ClientEffect

-- What an asynchronous method still has to do, at the `await` where it stands.
pub data Task : Type 0 where
  -- for `consumerConnected`, then for the transport of the first one announced
  awaiting_connection awaiting_transport : Announcement → Announced → Task
  -- for `consume` or `consumeData` of the first one announced
  awaiting_consumer : Announcement → (peer_id : Guid) → ConsumerOptions → Announced → Task
  -- for `webRTCDevice.load`, with what follows: whether there is an ingress, and the egress
  awaiting_device :
      (ingress : Bool) (egress : Option Guid) (movement : Bool)
      (server_info : Option (Option String × Option String))
      → Task
  -- for the ICE servers; the number is that of the collection of transports that is assigned to
  awaiting_ingress : Task
  awaiting_egress : (id : Guid) (collection : ℕ) → Task
  -- for `produce`, with the device of a screen
  awaiting_microphone awaiting_webcam : Task
  awaiting_screen_audio awaiting_screen_video : (device_id : Option String) → Task
  -- in the handler of `produce` and `producedata`, for the id that the media server gives
  awaiting_media_id : (source device_id : String) → Task
  awaiting_data_id : (label : String) → Task
  -- in `participate`: for `producerConnected`, and for the two data producers
  awaiting_producer : (moves emits : Bool) → Task
  awaiting_movement_producer : (emits : Bool) → Task
  awaiting_events_producer : (is_spectator : Bool) → Task

pub record Avatar : Type 0 where
  pub room : String
  -- The empty text stands for an identity that is undefined; it names no peer either.
  pub avatar_id : Guid
  -- `websocketReady()`
  pub websocket_ready : Bool
  -- `stateManager.getState().avatar.lobby`
  pub lobby : Bool
  -- `webRTCDevice`: whether it is loaded, and what it can do
  pub device_loaded : Bool
  pub num_streams : Json
  pub rtp_capabilities : Json
  pub consumer_connected : Bool
  pub producer_connected : Bool
  -- `consumerTransport`, and how often it was set to a new collection
  pub consumer_transport : Map Handle
  pub collection : ℕ
  pub producer_transport : Option Handle
  pub audio_consumers : Map Consumer
  pub audio_consumer_state : Map Bool
  pub video_consumers : Map Consumer
  pub screen_audio_consumers : Map (List Consumer)
  pub screen_video_consumers : Map (List Consumer)
  pub movement_consumers : Map (List Consumer)
  pub frame_events_consumers : Map (List Consumer)
  pub audio_producer : Option Producer
  pub video_producer : Option Producer
  pub audio_produced : Bool
  pub screen_audio_producer : Map Producer
  pub screen_video_producer : Map Producer
  pub movement_producer : Option Producer
  pub frame_events_producer : Option Producer
  pub audio_producer_id : Option Guid
  pub video_producer_id : Option Guid
  pub screen_audio_producer_ids : Map Guid
  pub screen_video_producer_ids : Map Guid
  pub movement_producer_id : Option Guid
  pub frame_events_producer_id : Option Guid
  pub frame_events_handler : Map (List ℕ)
  pub link : Link
  pub avatar_mover : Sender
  pub tasks : List Task
  pub trace : List ClientEffect

-- The constructor, for a page of a room.
abbrev pub new_avatar : String → Avatar
new_avatar room = record {
  room = room;
  avatar_id = "";
  websocket_ready = false;
  lobby = true;
  device_loaded = false;
  num_streams = "";
  rtp_capabilities = "";
  consumer_connected = false;
  producer_connected = false;
  consumer_transport = [];
  collection = 0;
  producer_transport = none;
  audio_consumers = [];
  audio_consumer_state = [];
  video_consumers = [];
  screen_audio_consumers = [];
  screen_video_consumers = [];
  movement_consumers = [];
  frame_events_consumers = [];
  audio_producer = none;
  video_producer = none;
  audio_produced = false;
  screen_audio_producer = [];
  screen_video_producer = [];
  movement_producer = none;
  frame_events_producer = none;
  audio_producer_id = none;
  video_producer_id = none;
  screen_audio_producer_ids = [];
  screen_video_producer_ids = [];
  movement_producer_id = none;
  frame_events_producer_id = none;
  frame_events_handler = [];
  link = new_link;
  avatar_mover = record {
    transport = record { input_header = 0; send_packet = λ i. 0 };
    timer_id = none;
    timers = [];
    next_timer = 0;
  };
  tasks = [];
  trace = [];
}

abbrev pub perform : List ClientEffect → Avatar → Avatar
perform effects a = record a { trace = a.trace ++ effects }

-- `send`: nothing is sent unless the websocket is open.
unfoldable pub send : RequestMessage → Avatar → Avatar
send message a = elim a.websocket_ready [ true ↦ perform (signalled message ∷ []) a | false ↦ a ]

abbrev pub add_task : Task → Avatar → Avatar
add_task task a = record a { tasks = a.tasks ++ (task ∷ []) }
