-- ===== src/Types/Commands.antt =====
-- frame/libs/peerTypes.ts, `RequestMessage`: the commands of the clients. Values that are only passed
-- on are `Json`; what a client may leave out is an `Option`.
use frame_oldbackend_public.Prelude.{String, Bool, Option, List}
use frame_oldbackend_public.Types.Peers.{Guid, Json}

pub data RequestMessage : Type 0 where
  request_identity : (region : String) → RequestMessage
  join_room leave_room : (peer_id : Guid) (room : String) → RequestMessage
  get_room_metrics : (peer_id : Guid) (rooms : Option (List String)) → RequestMessage
  create_ingress_transport : (peer_id : Guid) (num_streams rtp_capabilities : Json) → RequestMessage
  create_egress_transport :
      (peer_id : Guid) (num_streams rtp_capabilities : Json) (egress : Option Guid) → RequestMessage
  connect_ingress_transport :
      (peer_id : Guid) (direction : Option String) (dtls_parameters : Json) → RequestMessage
  connect_egress_transport :
      (peer_id : Guid) (direction : Option String) (dtls_parameters : Json) (egress : Option Guid)
      → RequestMessage
  produce_media : (producing_peer : Guid) (kind : String) (producer_options : Json) → RequestMessage
  produce_data produce_events : (producing_peer : Guid) (producer_options : Json) → RequestMessage
  get_room_audio get_room_video get_room_events : (requesting_peer : Guid) → RequestMessage
  get_room_movement : (requesting_peer : Guid) (is_spectator : Bool) → RequestMessage
  mute_producer resume_producer : (peer_id producer_id : Guid) (kind : String) → RequestMessage
  set_audio_state set_video_state set_desktop_state :
      (peer_id : Guid) (state : Bool) → RequestMessage
  hush_peers : (peer_id : Guid) → RequestMessage
  hush_user : (peer_id hushed : Guid) → RequestMessage
  peer_indicators : (peer_id : Guid) (indicators : Json) → RequestMessage
  reply_peer_indicators : (origin_id peer_id : Guid) (indicators : Json) → RequestMessage
  boot_peer : (peer_id : Guid) → RequestMessage
  disconnect_peer_websocket : (transport : Guid) → RequestMessage
  producer_close : (peer_id producer_id : Guid) (media_type : String) → RequestMessage
  begin_sending_stats end_sending_stats : RequestMessage
  restart_ice : (transport_id peer_id : Guid) (ingress egress : Option Guid) → RequestMessage
  -- `getMovementServer`, and every type that `command` does not name
  unknown : RequestMessage
