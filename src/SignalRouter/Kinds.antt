-- ===== src/SignalRouter/Kinds.antt =====
-- frame/libs/signalRouter.ts: the three kinds of server, and what the close handler removes of a
-- server: `delete load[region][id]` and the filter of `regions[region]`, which throw a TypeError
-- where the region has no entry.
use frame_oldbackend_public.Prelude.{
  String, Option, none, some, List, [], ◌∷◌, ◌==◌, nat_eq, if◌then◌else◌,
}
use frame_oldbackend_public.Prelude.Maps.{Map, lookup, insert, erase}
use frame_oldbackend_public.Types.{Guid, NetSocket}
use frame_oldbackend_public.SignalRouter.Servers.{ServerPool}
use frame_oldbackend_public.SignalRouter.Router.{Router}

pub data Kind : Type 0 where
  ingress egress movement : Kind

abbrev pub pool_of : Kind → Router → ServerPool
pool_of ingress r = r.ingress
pool_of egress r = r.egress
pool_of movement r = r.movement

abbrev pub with_pool : Kind → ServerPool → Router → Router
with_pool ingress p r = record r { ingress = p }
with_pool egress p r = record r { egress = p }
with_pool movement p r = record r { movement = p }

-- `Object.keys(servers).filter(key => servers[key] == connection)[0]`
unfoldable pub server_of : NetSocket → Map NetSocket → Option Guid
server_of connection [] = none
server_of connection ((id, c) ∷ servers) =
    if nat_eq c connection then some id else server_of connection servers

-- `list.filter(other => other !== id)`
unfoldable pub without : Guid → List Guid → List Guid
without id [] = []
without id (x ∷ xs) = if x == id then without id xs else x ∷ without id xs

-- `delete this.ingress[id]`
unfoldable pub remove_server : Guid → ServerPool → ServerPool
unfolding erase
remove_server id p = record p { servers = erase id p.servers }

-- `delete load[region][id]`
unfoldable pub remove_load : String → Guid → ServerPool → Option ServerPool
unfolding lookup insert erase
remove_load region id p = elim (lookup region p.load) [
  | none ↦ none
  | some loads ↦ some (record p { load = insert region (erase id loads) p.load })
]

-- `regions[region] = regions[region].filter(other => other !== id)`
unfoldable pub remove_region : String → Guid → ServerPool → Option ServerPool
unfolding lookup insert without
remove_region region id p = elim (lookup region p.regions) [
  | none ↦ none
  | some ids ↦ some (record p { regions = insert region (without id ids) p.regions })
]
