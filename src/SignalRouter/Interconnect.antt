-- ===== src/SignalRouter/Interconnect.antt =====
-- frame/libs/signalRouter.ts: how an ingress and an egress server are connected by a pipe, and how
-- servers register.
use frame_oldbackend_public.Prelude.{
  ℕ, String, ◌≡◌, refl, ◌≢◌, Option, none, some, List, [], ◌∷◌, ◌++◌, arith, eq_iff, ◌∙◌, ap,
}
use frame_oldbackend_public.Prelude.Maps.{lookup, insert, lookup-insert_self, includes}
use frame_oldbackend_public.Types.{
  Guid, Json, NetSocket, MediaServerPipe, ParseMessages, RelayMessage, relayed,
  register_media_server, server_load, store_pipe_relay, connect_pipe_relay,
}
use frame_oldbackend_public.State.{State}
use frame_oldbackend_public.SignalRouter.Servers.{
  ServerPool, ok, or_default, get_server, register, record_load,
}
use frame_oldbackend_public.SignalRouter.Router.{get_ingress}
use frame_oldbackend_public.SignalRouter.Regions.{resolve_region}
use frame_oldbackend_public.SignalRouter.Requests.{send_ingress, send_egress}
use frame_oldbackend_public.SignalRouter.Selection.{get_server-least}
use frame_oldbackend_public.SignalRouter.Receive.{NewConsumers, on_message, on_relay, connect_pipe}

-- A pipe that stands behind a list without a match is the one that is connected.
connect_pipe-append :
    (egress_id route out : Guid) (pipes : List MediaServerPipe) (pipe : MediaServerPipe)
    → connect_pipe egress_id route out pipes ≡ none
    → pipe.egress ≡ egress_id
    → pipe.ingress_route ≡ route
    → connect_pipe egress_id route out (pipes ++ pipe ∷ [])
      ≡ some (pipe.ingress, pipes ++ record pipe { egress_route = some out } ∷ [])
unfolding connect_pipe
connect_pipe-append egress_id route out [] pipe unknown e r =
    ground (arith, eq_iff pipe.egress egress_id, eq_iff pipe.ingress_route route)
connect_pipe-append egress_id route out (p ∷ pipes) pipe unknown e r =
    ground (arith, connect_pipe-append egress_id route out pipes pipe)

abbrev pub message_from : Guid → RelayMessage → Option ParseMessages
message_from node message =
    some (record { wsid = none; node = node; message = some message; communication = none })

-- An ingress server stores a pipe to an egress server, which then connects it, where no pipe
-- between the two was on record for this route. The first message goes to the egress server and
-- the second back to the ingress server, both unaltered, and the pipe is the last one on record,
-- with the routes of both ends.
pub store-connect :
    (nc : NewConsumers) (c c' : NetSocket) (ingress_id egress_id route out : Guid)
    (details details' : Json) (s : State)
    → connect_pipe egress_id route out s.router.pipes ≡ none
    → let store : ParseMessages = record {
      wsid = none;
      node = ingress_id;
      message = some (store_pipe_relay route egress_id details);
      communication = none;
    } in
      let connect : ParseMessages = record {
        wsid = none;
        node = egress_id;
        message = some (connect_pipe_relay route out details');
        communication = none;
      } in
      let s' = on_message nc c' (some connect) (on_message nc c (some store) s) in
      (s'.router.pipes
        ≡ s.router.pipes
          ++ record {
            ingress = ingress_id;
            egress = egress_id;
            ingress_route = route;
            egress_route = some out;
          }
            ∷ [])
      × (s'.trace
          ≡ (s.trace ++ send_egress s.router (some egress_id) (relayed store))
            ++ send_ingress s.router (some ingress_id) (relayed connect))
unfolding on_message on_relay
store-connect nc c c' ingress_id egress_id route out details details' s unknown =
    let pipe : MediaServerPipe = record {
      ingress = ingress_id;
      egress = egress_id;
      ingress_route = route;
      egress_route = none;
    } in
    let connected = connect_pipe-append egress_id route out s.router.pipes pipe unknown refl refl in
    (ground (arith, connected), ground (arith, connected))

-- A pool after the registration and the first report of the first server of a region.
module _ (c : NetSocket) (node region : String) (load : ℕ) (p : ServerPool) where
  abbrev reported : ServerPool
  reported = record_load node region load (register node region c p)

  reported_regions :
      lookup region p.regions ≡ none → lookup region reported.regions ≡ some (node ∷ [])
  unfolding record_load register
  reported_regions e =
      lookup-insert_self region _ p.regions ∙ ap (λ o. some (or_default [] o ++ node ∷ [])) e

  reported_load :
      lookup region p.load ≡ none → lookup region reported.load ≡ some ((node, load) ∷ [])
  unfolding record_load register insert
  reported_load e =
      lookup-insert_self region _ p.load ∙ ap (λ o. some (insert node load (or_default [] o))) e

  first_server-chosen :
      node ≢ ""
      → lookup region p.regions ≡ none
      → lookup region p.load ≡ none
      → get_server reported region ≡ ok (some node)
  unfolding lookup includes
  first_server-chosen named no_servers no_loads =
      let (id, _, chosen, found, _) =
        get_server-least reported region ((node, load) ∷ []) (node ∷ []) (reported_load no_loads)
          (reported_regions no_servers) (ground arith) (refl, tt)
          ((ground (arith, eq_iff node node), named), tt) in
      ground (arith, eq_iff node id)

-- An ingress server with an id that is not empty registers and reports its load, in a region that
-- has no ingress server and no load of one on record: then it is the ingress server of every
-- client whose location is resolved to this region.
pub first_ingress-chosen :
    (nc : NewConsumers) (c : NetSocket) (node region client : String) (load : ℕ) (s : State)
    → node ≢ ""
    → resolve_region s.router.egress.regions client ≡ region
    → lookup region s.router.ingress.regions ≡ none
    → lookup region s.router.ingress.load ≡ none
    → let s1 = on_message nc c (message_from node (register_media_server "ingress" region)) s in
      let s2 = on_message nc c (message_from node (server_load "ingress" region load)) s1 in
      get_ingress s2.router client ≡ ok (some node)
unfolding on_message on_relay get_ingress
first_ingress-chosen nc c node region client load s named resolved no_servers no_loads =
    rw resolved (first_server-chosen c node region load s.router.ingress named no_servers no_loads)
