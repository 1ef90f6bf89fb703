-- ===== src/SignalRouter/Router.antt =====
-- frame/libs/signalRouter.ts: the state of the router, the region of a server, and the choice of a
-- server for a client.
use frame_oldbackend_public.Prelude.{
  String, Option, none, some, List, [], ◌∷◌, ◌==◌, ◌&&◌, not, if◌then◌else◌,
}
use frame_oldbackend_public.Prelude.Maps.{Map, lookup, insert, includes}
use frame_oldbackend_public.Types.{Guid, Room, MediaServerPipe}
use frame_oldbackend_public.SignalRouter.Servers.{
  ServerPool, no_servers, Result, get_server, or_default,
}
use frame_oldbackend_public.SignalRouter.Regions.{resolve_region}

pub record Router : Type 0 where
  pub ingress : ServerPool
  pub egress : ServerPool
  pub movement : ServerPool
  pub routing_table : Map Room
  pub pipes : List MediaServerPipe

-- What the constructor sets.
abbrev pub new_router : Router
new_router = record {
  ingress = no_servers;
  egress = no_servers;
  movement = no_servers;
  routing_table = [];
  pipes = [];
}

abbrev pub empty_room : Room
empty_room = record { ingress = []; egress = []; movement = [] }

-- A property key: an undefined key is read as the text "undefined".
abbrev pub property_key : Option String → String
property_key none = "undefined"
property_key (some k) = k

unfoldable pub set_route : String → Room → Router → Router
set_route name room r = record r { routing_table = insert name room r.routing_table }

unfoldable pub get_route : Router → Option String → Room
get_route r name = or_default empty_room (lookup (property_key name) r.routing_table)

unfoldable pub get_route_egress : Router → Option String → List Guid
unfolding get_route
get_route_egress r name = (get_route r name).egress

unfoldable pub get_ingress : Router → String → Result (Option Guid)
get_ingress r region = get_server r.ingress (resolve_region r.egress.regions region)

unfoldable pub get_egress : Router → String → Result (Option Guid)
get_egress r region = get_server r.egress (resolve_region r.egress.regions region)

unfoldable pub get_movement : Router → String → Result (Option Guid)
get_movement r region = get_server r.movement (resolve_region r.egress.regions region)

-- One of the loops of `resolveServerToRegion`: a found id must be truthy.
unfoldable pub find_region : Guid → Map (List Guid) → Option String
unfolding includes
find_region id [] = none
find_region id ((region, servers) ∷ m) =
    if includes id servers && not (id == "") then some region else find_region id m

abbrev or_else : Option String → Option String → Option String
or_else none other = other
or_else (some a) other = some a

unfoldable pub resolve_server_to_region : Router → Guid → Option String
unfolding find_region
resolve_server_to_region r id =
    or_else (find_region id r.ingress.regions)
      (or_else (find_region id r.egress.regions) (find_region id r.movement.regions))
