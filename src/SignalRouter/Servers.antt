-- ===== src/SignalRouter/Servers.antt =====
-- frame/libs/signalRouter.ts: the servers of one kind (ingress, egress or movement), that is the
-- fields `ingress`, `ingressRegions` and `ingressLoad`, and those of the other two kinds; how a
-- server registers and reports its load, and how the least loaded one is chosen. Loads are only
-- compared, so they are naturals.
use frame_oldbackend_public.Prelude.{
  ℕ, String, Option, none, some, List, [], ◌∷◌, ◌++◌, leb, truthy, if◌then◌else◌,
}
use frame_oldbackend_public.Prelude.Maps.{Map, lookup, insert, includes}
use frame_oldbackend_public.Types.{Guid, NetSocket}

pub record ServerPool : Type 0 where
  pub servers : Map NetSocket
  pub regions : Map (List Guid)
  pub load : Map (Map ℕ)

abbrev pub no_servers : ServerPool
no_servers = record { servers = []; regions = []; load = [] }

-- The value of a property, or `d` where it is undefined.
abbrev pub or_default {ℓ} : {A : Type ℓ} → A → Option A → A
or_default d none = d
or_default d (some a) = a

-- A server registers its connection and its region.
unfoldable pub register : Guid → String → NetSocket → ServerPool → ServerPool
register node region connection p = record p {
  servers = insert node connection p.servers;
  regions = insert region (or_default [] (lookup region p.regions) ++ node ∷ []) p.regions;
}

unfoldable pub record_load : Guid → String → ℕ → ServerPool → ServerPool
record_load node region load p = record p {
  load = insert region (insert node load (or_default [] (lookup region p.load))) p.load;
}

-- `Object.entries(load).sort(([, load1], [, load2]) => load1 - load2)`, which is stable.
unfoldable pub insert_by_load : String × ℕ → Map ℕ → Map ℕ
insert_by_load e [] = e ∷ []
insert_by_load e (x ∷ xs) = if leb e.1 x.1 then e ∷ x ∷ xs else x ∷ insert_by_load e xs

unfoldable pub sort_by_load : Map ℕ → Map ℕ
unfolding insert_by_load
sort_by_load [] = []
sort_by_load (e ∷ es) = insert_by_load e (sort_by_load es)

-- A call that may throw a TypeError.
pub data Result {ℓ} (A : Type ℓ) : Type ℓ where
  ok : A → Result A
  throws : Result A

-- `servers.find(element => element === leastLoaded[0])`. `leastLoaded` is undefined if no load is known,
-- and the callback, which reads it, is called only if there is a server.
unfoldable pub find_least : Map ℕ → List Guid → Result (Option Guid)
unfolding includes
find_least [] [] = ok none
find_least [] (server ∷ servers) = throws
find_least ((id, _) ∷ _) servers = ok (if includes id servers then some id else none)

-- `selectedServer` before the default.
unfoldable pub select_least : ServerPool → String → Result (Option Guid)
unfolding find_least sort_by_load lookup
select_least p region = elim (lookup region p.load) [
  | none ↦ ok none
  | some loads ↦ elim (lookup region p.regions) [
    | none ↦ ok none
    | some servers ↦ find_least (sort_by_load loads) servers
  ]
]

-- `Object.values(regions)[0]?.[0]`
unfoldable pub default_server : Map (List Guid) → Option Guid
default_server [] = none
default_server ((_, []) ∷ _) = none
default_server ((_, id ∷ _) ∷ _) = some id

abbrev or_else_default : ServerPool → Result (Option Guid) → Result (Option Guid)
or_else_default p throws = throws
or_else_default p (ok selected) =
    ok (if truthy selected then selected else default_server p.regions)

unfoldable pub get_server : ServerPool → String → Result (Option Guid)
unfolding select_least default_server
get_server p region = or_else_default p (select_least p region)
