-- ===== src/Types/Peers.antt =====
-- frame/libs/peerTypes.ts: peers, rooms and counters; the pipes and sockets of signalRouterTypes.ts.
use frame_oldbackend_public.Prelude.{ℕ, String, Bool, Option, List}
use frame_oldbackend_public.Prelude.Counters.{ℤ}

abbrev pub Guid : Type 0
Guid = String

abbrev pub Json : Type 0
Json = String

-- A connection to a media server, by the identity of its object.
abbrev pub NetSocket : Type 0
NetSocket = ℕ

-- A media producer on the server's side, by the identity of its object.
abbrev pub Producer : Type 0
Producer = ℕ

pub record Peer : Type 0 where
  pub id : Guid
  pub transport_signal : Guid
  pub device_rtp_capabilities : Option Json
  pub room : Option String
  pub debug : Option Bool
  pub region : String
  pub is_lobby : Bool
  pub ingress : Option Guid
  pub egress : Option Guid
  pub movement : Option Guid
  pub device_capabilities : Option Json
  pub sctp_options : Option Json
  pub is_participant : Bool
  pub is_spectator : Bool
  pub audio_producer : Option Producer
  pub video_producer : Option Producer
  pub desktop_audio_producer : Option Producer
  pub desktop_video_producer : Option Producer

pub record PeerCounter : Type 0 where
  pub lobby_count : ℤ
  pub spectator_count : ℤ
  pub peer_count : ℤ
  pub participant_count : ℤ

-- A room of the connection manager, and an entry of the routing table.
pub record Room : Type 0 where
  pub ingress : List Guid
  pub egress : List Guid
  pub movement : List Guid

pub record MediaServerPipe : Type 0 where
  pub ingress : Guid
  pub egress : Guid
  pub ingress_route : Guid
  pub egress_route : Option Guid
