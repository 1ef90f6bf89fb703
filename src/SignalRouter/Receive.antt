-- ===== src/SignalRouter/Receive.antt =====
-- frame/libs/signalRouter.ts, the decoder's callback: what a media server's message does.
use frame_oldbackend_public.Prelude.{
  String, Bool, ◌&&◌, Option, none, some, List, [], ◌∷◌, ◌++◌, ◌==◌, if◌then◌else◌,
}
use frame_oldbackend_public.Types.{
  Guid, NetSocket, MediaServerPipe, RelayMessage, ParseMessages, Signal, relayed, Effect,
  ipc_forward, register_media_server, register_movement_server, created_movement_server,
  store_pipe_relay, connect_pipe_relay, create_relay_producer, created_relay_producer, server_load,
  other,
}
use frame_oldbackend_public.State.{State, emit}
use frame_oldbackend_public.SignalRouter.Servers.{ServerPool, register, record_load}
use frame_oldbackend_public.SignalRouter.Router.{Router}
use frame_oldbackend_public.SignalRouter.Kinds.{Kind, ingress, egress, movement, pool_of, with_pool}
use frame_oldbackend_public.SignalRouter.Requests.{send_ingress, send_egress}

abbrev pub modify_pool : Kind → (ServerPool → ServerPool) → State → State
modify_pool k f s = record s { router = with_pool k (f (pool_of k s.router)) s.router }

-- The kind of a new media server; any other mode is an error.
abbrev pub media_mode : String → Option Kind
media_mode mode =
    if mode == "ingress" then some ingress else if mode == "egress" then some egress else none

abbrev pub load_mode : String → Option Kind
load_mode mode =
    if mode == "movement"
    then some movement
    else if mode == "ingress"
    then some ingress
    else if mode == "egress"
    then some egress
    else none

abbrev pub in_mode : Option Kind → (ServerPool → ServerPool) → State → State
in_mode none f s = s
in_mode (some k) f s = modify_pool k f s

unfoldable pub is_pipe : Guid → Guid → MediaServerPipe → Bool
is_pipe egress_id ingress_route pipe =
    pipe.egress == egress_id && pipe.ingress_route == ingress_route

-- Sets the egress route of the first pipe between the two ends; returns its ingress server.
unfoldable pub connect_pipe :
    Guid → Guid → Guid → List MediaServerPipe → Option (Guid × List MediaServerPipe)
unfolding is_pipe
connect_pipe egress_id ingress_route egress_route [] = none
connect_pipe egress_id ingress_route egress_route (pipe ∷ pipes) =
    if is_pipe egress_id ingress_route pipe
    then some (pipe.ingress, record pipe { egress_route = some egress_route } ∷ pipes)
    else elim (connect_pipe egress_id ingress_route egress_route pipes) [
      | none ↦ none
      | some (server, rest) ↦ some (server, pipe ∷ rest)
    ]

abbrev with_pipes : List MediaServerPipe → State → State
with_pipes pipes s = let r = s.router in record s { router = record r { pipes = pipes } }

-- The messages for the peers that consume a new producer are sent to its egress server.
unfoldable pub send_consumers : Router → Guid → List Signal → List Effect
unfolding send_egress
send_consumers r node [] = []
send_consumers r node (m ∷ ms) = send_egress r (some node) m ++ send_consumers r node ms

-- The callback `newConsumers_cb`; `none` stands for `false`.
abbrev pub NewConsumers : Type 0
NewConsumers = Guid → String → String → State → Option (List Signal)

unfoldable pub on_relay : NewConsumers → NetSocket → ParseMessages → RelayMessage → State → State
unfolding register record_load connect_pipe send_consumers send_ingress send_egress
on_relay new_consumers connection parsed (register_movement_server mode region) s =
    modify_pool movement (register parsed.node region connection) s
on_relay new_consumers connection parsed (created_movement_server domain) s = s
on_relay new_consumers connection parsed (register_media_server mode region) s =
    in_mode (media_mode mode) (register parsed.node region connection) s
on_relay new_consumers connection parsed (store_pipe_relay ingress_route egress_id details) s =
    let pipe : MediaServerPipe = record {
      ingress = parsed.node;
      egress = egress_id;
      ingress_route = ingress_route;
      egress_route = none;
    } in
    emit (send_egress s.router (some egress_id) (relayed parsed))
      (with_pipes (s.router.pipes ++ pipe ∷ []) s)
on_relay new_consumers connection parsed (connect_pipe_relay ingress_route egress_route details) s =
    elim (connect_pipe parsed.node ingress_route egress_route s.router.pipes) [
      | none ↦ s
      | some (server, pipes) ↦
          emit (send_ingress s.router (some server) (relayed parsed)) (with_pipes pipes s)
    ]
on_relay new_consumers connection parsed (create_relay_producer egress_id details) s =
    emit (send_egress s.router (some egress_id) (relayed parsed)) s
on_relay new_consumers connection parsed (created_relay_producer peer_id kind label details) s =
    elim (new_consumers peer_id kind label s) [
      | none ↦ s
      | some messages ↦ emit (send_consumers s.router parsed.node messages) s
    ]
on_relay new_consumers connection parsed (server_load mode region load) s =
    in_mode (load_mode mode) (record_load parsed.node region load) s
on_relay new_consumers connection parsed (other details) s = s

-- A message with no `message` but a `communication` goes back to the client.
unfoldable pub on_communication : ParseMessages → State → State
on_communication parsed s = elim parsed.communication [
  | none ↦ s
  | some _ ↦ if s.has_ipc then emit (ipc_forward parsed ∷ []) s else s
]

-- The callback; `none` is a message that is not JSON.
unfoldable pub on_message : NewConsumers → NetSocket → Option ParseMessages → State → State
unfolding on_relay on_communication
on_message new_consumers connection none s = s
on_message new_consumers connection (some parsed) s = elim parsed.message [
  | none ↦ on_communication parsed s
  | some message ↦ on_relay new_consumers connection parsed message s
]
