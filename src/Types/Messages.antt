-- ===== src/Types/Messages.antt =====
-- The messages between the api server, the media servers and the clients, and the effects of
-- sending them.
use frame_oldbackend_public.Prelude.{ℕ, String, Option, List}
use frame_oldbackend_public.Prelude.Maps.{Map}
use frame_oldbackend_public.Types.Peers.{Guid, Json, NetSocket, Producer, Peer, PeerCounter}

-- `MessageResponse` of peerTypes.ts, `createRouterGroup` and `NewConsumerSignal`: what the api
-- server asks of a media server. In `consume` the first field is the `type`, which may be unset.
pub data MediaMessage : Type 0 where
  create_router_group : (room : String) → MediaMessage
  create_webrtc_ingress :
      (peer_id : Guid) (sctp_options : Json) (router_network : Option String)
      (router_pipes : List Guid)
      → MediaMessage
  create_webrtc_egress :
      (peer_id : Guid) (sctp_options : Json) (router_network : Option String) → MediaMessage
  connect_webrtc_ingress connect_webrtc_egress :
      (dtls_parameters : Json) (peer_id : Guid) → MediaMessage
  create_media_producer :
      (peer_id : Guid) (producer_options : Json) (router_network : Option String)
      (rtp_capabilities : Option Json) (egress : Option Guid)
      → MediaMessage
  create_data_producer create_event_producer :
      (peer_id : Guid) (producer_options : Json) (router_network : Option String)
      (egress : Option Guid)
      → MediaMessage
  consume :
      (type : Option String) (consumer_peer : Guid) (producer_peer : List Guid)
      (room : Option String) (rtp_caps : Option Json)
      → MediaMessage
  producer_pause producer_resume producer_close :
      (peer_id : Guid) (producer_id : Guid) (media_type : String) → MediaMessage
  consumer_pause consumer_resume : (peer_id : Guid) (consumer_id : Guid) → MediaMessage
  restart_ice : (transport_id : Guid) (peer_id : Guid) → MediaMessage
  disconnect_transport : (peer_id : Guid) → MediaMessage
  destroy_router_group : (room : Option String) → MediaMessage

-- `MessageResponse` of signalRouterTypes.ts: what a media server tells the api server. `details`
-- holds the fields that are only passed on; `other` is every type that the router does not name.
pub data RelayMessage : Type 0 where
  register_media_server register_movement_server : (mode region : String) → RelayMessage
  created_movement_server : (domain : String) → RelayMessage
  store_pipe_relay : (ingress_route egress : Guid) (details : Json) → RelayMessage
  connect_pipe_relay : (ingress_route egress_route : Guid) (details : Json) → RelayMessage
  create_relay_producer : (egress : Guid) (details : Json) → RelayMessage
  created_relay_producer : (peer_id : Guid) (kind label : String) (details : Json) → RelayMessage
  server_load : (mode region : String) (load : ℕ) → RelayMessage
  other : Json → RelayMessage

pub record ParseMessages : Type 0 where
  pub wsid : Option Guid
  pub node : Guid
  pub message : Option RelayMessage
  pub communication : Option Json

-- What is written to a media server: a request, or a media server's message unaltered.
pub data Signal : Type 0 where
  request : (wsid : Guid) → MediaMessage → Signal
  relayed : ParseMessages → Signal

-- What the connection manager tells a client.
pub data Communication : Type 0 where
  identity : (id : Guid) (region : String) → Communication
  peer_disconnect : (peer : Guid) → Communication
  peer_count : Map PeerCounter → Communication
  hushed : (peer_id : Guid) → Communication
  boot_user : (peer_id : Guid) → Communication
  peer_indicators peer_indicators_reply : (indicators : Json) (peer_id : Guid) → Communication

pub data Effect : Type 0 where
  -- `connection.write`
  net_write : NetSocket → Signal → Effect
  -- `process.send({ ws, communication })`
  ipc_send : (ws : Guid) → Communication → Effect
  -- `process.send(parsedMessage)`
  ipc_forward : ParseMessages → Effect
  -- `process.send({ stats })`
  ipc_stats : Map Peer → Effect
  -- `resetDefaultSlide` and `updateLastVisited` of the module frameSettings
  reset_default_slide update_last_visited : (room : String) → Effect
  -- `producer.resume()` and `producer.pause()`
  resume_media pause_media : Producer → Effect
