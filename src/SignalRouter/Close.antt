-- ===== src/SignalRouter/Close.antt =====
-- frame/libs/signalRouter.ts, the handler of a connection's "close" event: the server of the
-- connection is removed, with its loads, its pipes and the routes through it.
use frame_oldbackend_public.Prelude.{
  String, Bool, false, ◌||◌, Option, none, some, List, [], ◌∷◌, ◌==◌, if◌then◌else◌,
}
use frame_oldbackend_public.Prelude.Maps.{Map, includes}
use frame_oldbackend_public.Types.{Guid, NetSocket, Room, MediaServerPipe}
use frame_oldbackend_public.State.{State, done, thrown, Action, ◌>>◌, modify}
use frame_oldbackend_public.SignalRouter.Servers.{ServerPool}
use frame_oldbackend_public.SignalRouter.Router.{resolve_server_to_region}
use frame_oldbackend_public.SignalRouter.Kinds.{
  Kind, ingress, egress, movement, pool_of, with_pool, server_of, remove_server, remove_load,
  remove_region,
}

abbrev pub with_state_pool : Kind → ServerPool → State → State
with_state_pool k p s = record s { router = with_pool k p s.router }

-- An update of the servers of one kind, which may throw.
abbrev pub update_pool : Kind → (ServerPool → Option ServerPool) → Action
update_pool k f s = elim (f (pool_of k s.router)) [
  | none ↦ thrown s
  | some p ↦ done (with_state_pool k p s)
]

-- Runs `f` at the region of a server, if it has one.
abbrev pub at_region : Guid → (String → Action) → Action
at_region id f s = elim (resolve_server_to_region s.router id) [
  | none ↦ done s
  | some region ↦ if region == "" then done s else f region s
]

unfoldable pub forget_load : Kind → Guid → Action
unfolding resolve_server_to_region remove_load
forget_load k id = at_region id λ region. update_pool k (remove_load region id)

unfoldable pub forget_region : Kind → Guid → Action
unfolding resolve_server_to_region remove_load remove_region
forget_region k id =
    at_region id
      λ region. update_pool k (remove_load region id) >> update_pool k (remove_region region id)

unfoldable pub forget_server : Kind → Guid → Action
unfolding remove_server
forget_server k id = modify (λ s. with_state_pool k (remove_server id (pool_of k s.router)) s)

-- The removal of an egress server takes away its load once, that of the others twice.
unfoldable pub close_server : (Guid → Action) → Kind → Guid → Action
unfolding forget_server forget_load forget_region
close_server drop egress id = drop id >> forget_server egress id >> forget_region egress id
close_server drop ingress id =
    drop id >> forget_server ingress id >> forget_load ingress id >> forget_region ingress id
close_server drop movement id =
    drop id >> forget_server movement id >> forget_load movement id >> forget_region movement id

unfoldable pub close_found : (Guid → Action) → Kind → Option Guid → Action
unfolding close_server
close_found drop k none s = done s
close_found drop k (some id) s = if id == "" then done s else close_server drop k id s

abbrev pub is_server : Option Guid → Guid → Bool
is_server none id = false
is_server (some server) id = server == id

-- `this.pipes.filter(pipe => pipe.egress !== egressServer && pipe.ingress !== ingressServer)`
unfoldable pub keep_pipes : Option Guid → Option Guid → List MediaServerPipe → List MediaServerPipe
keep_pipes ingress_server egress_server [] = []
keep_pipes ingress_server egress_server (pipe ∷ pipes) =
    let rest = keep_pipes ingress_server egress_server pipes in
    if is_server egress_server pipe.egress || is_server ingress_server pipe.ingress
    then rest
    else pipe ∷ rest

abbrev pub includes_found : Option Guid → List Guid → Bool
includes_found none ids = false
includes_found (some id) ids = includes id ids

-- Whether a route names one of the closed servers.
unfoldable pub is_stale : Option Guid → Option Guid → Option Guid → Room → Bool
unfolding includes
is_stale ingress_server egress_server movement_server route =
    includes_found egress_server route.egress
    || includes_found ingress_server route.ingress
    || includes_found movement_server route.movement

unfoldable pub keep_routes : (Room → Bool) → Map Room → Map Room
keep_routes stale [] = []
keep_routes stale ((name, route) ∷ routes) =
    let rest = keep_routes stale routes in if stale route then rest else (name, route) ∷ rest

unfoldable pub forget_routes : Option Guid → Option Guid → Option Guid → State → State
unfolding keep_pipes is_stale keep_routes
forget_routes ingress_server egress_server movement_server s =
    let r = s.router in
    record s {
      router = record r {
        pipes = keep_pipes ingress_server egress_server r.pipes;
        routing_table =
            keep_routes (is_stale ingress_server egress_server movement_server) r.routing_table;
      };
    }

-- The handler; `drop` is the callback `dropServer_cb`. The three servers are looked up first.
unfoldable pub on_close : (Guid → Action) → NetSocket → Action
unfolding server_of close_found forget_routes
on_close drop connection s =
    let ingress_server = server_of connection s.router.ingress.servers in
    let egress_server = server_of connection s.router.egress.servers in
    let movement_server = server_of connection s.router.movement.servers in
    (close_found drop egress egress_server
        >> close_found drop ingress ingress_server
        >> close_found drop movement movement_server
        >> modify (forget_routes ingress_server egress_server movement_server))
      s
