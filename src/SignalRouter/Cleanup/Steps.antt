-- ===== src/SignalRouter/Cleanup/Steps.antt =====
-- frame/libs/signalRouter.ts: what each step of the close handler changes, and what the final filters
-- leave.
use frame_oldbackend_public.Prelude.{
  String, false, ◌≡◌, refl, ◌≢◌, inl, inr, Option, none, some, List, [], ◌∷◌, ◌==◌, if◌then◌else◌,
  arith, eq_iff, Option-cases, ◌∙◌, ap, sym,
}
use frame_oldbackend_public.Prelude.Maps.{Map, lookup, erase, includes}
use frame_oldbackend_public.Prelude.Entries.{Entries}
use frame_oldbackend_public.Types.{Guid, NetSocket, Room, MediaServerPipe}
use frame_oldbackend_public.State.{State, done, Action, ◌>>◌, state_of, >>-eq-done}
use frame_oldbackend_public.SignalRouter.Servers.{ServerPool}
use frame_oldbackend_public.SignalRouter.Router.{resolve_server_to_region}
use frame_oldbackend_public.SignalRouter.Kinds.{
  Kind, ingress, egress, movement, pool_of, remove_load, remove_region,
}
use frame_oldbackend_public.SignalRouter.Close.{
  with_state_pool, update_pool, at_region, forget_load, forget_region, forget_server, close_server,
  close_found, keep_pipes, is_stale, keep_routes,
}

-- What the router needs of its callback `dropServer_cb`.
pub record DropServer : Type 0 where
  pub drop : Guid → Action
  pub keeps_router : (id : Guid) (s : State) → (state_of (drop id s)).router ≡ s.router

abbrev pub servers_in : Kind → State → Map NetSocket
servers_in k s = (pool_of k s.router).servers

remove_load-servers :
    (region id : String) (p q : ServerPool)
    → remove_load region id p ≡ some q
    → q.servers ≡ p.servers
unfolding remove_load
remove_load-servers region id p q e = ground (arith, Option-cases (lookup region p.load))

remove_region-servers :
    (region id : String) (p q : ServerPool)
    → remove_region region id p ≡ some q
    → q.servers ≡ p.servers
unfolding remove_region
remove_region-servers region id p q e = ground (arith, Option-cases (lookup region p.regions))

with_state_pool-servers :
    (k k' : Kind) (p : ServerPool) (s : State)
    → p.servers ≡ servers_in k s
    → servers_in k' (with_state_pool k p s) ≡ servers_in k' s
with_state_pool-servers ingress ingress p s e = e
with_state_pool-servers ingress egress p s e = refl
with_state_pool-servers ingress movement p s e = refl
with_state_pool-servers egress ingress p s e = refl
with_state_pool-servers egress egress p s e = e
with_state_pool-servers egress movement p s e = refl
with_state_pool-servers movement ingress p s e = refl
with_state_pool-servers movement egress p s e = refl
with_state_pool-servers movement movement p s e = e

-- An action that leaves every connection of every kind registered.
abbrev KeepsServers : Action → Type 0
KeepsServers m = (k : Kind) (s t : State) → m s ≡ done t → servers_in k t ≡ servers_in k s

update_pool-KeepsServers :
    (k : Kind) (f : ServerPool → Option ServerPool)
    → ((p q : ServerPool) → f p ≡ some q → q.servers ≡ p.servers)
    → KeepsServers (update_pool k f)
update_pool-KeepsServers k f keeps k' s t h = elim (Option-cases (f (pool_of k s.router))) [
  | inl e ↦ ground arith
  | inr (p, e) ↦ ground (arith, with_state_pool-servers k k' p s (keeps (pool_of k s.router) p e))
]

at_region-KeepsServers :
    (id : Guid) (f : String → Action)
    → ((region : String) → KeepsServers (f region))
    → KeepsServers (at_region id f)
at_region-KeepsServers id f keeps k s t h =
    elim (Option-cases (resolve_server_to_region s.router id)) [
      | inl e ↦ ground arith
      | inr (region, e) ↦ ground (arith, keeps region k s t)
    ]

>>-KeepsServers : (m n : Action) → KeepsServers m → KeepsServers n → KeepsServers (m >> n)
>>-KeepsServers m n first second k s u h =
    let (t, e, r) = >>-eq-done m n s u h in second k t u r ∙ first k s t e

forget_load-KeepsServers : (k : Kind) (id : Guid) → KeepsServers (forget_load k id)
unfolding forget_load
forget_load-KeepsServers k id =
    at_region-KeepsServers id _
      λ region. update_pool-KeepsServers k _ (remove_load-servers region id)

forget_region-KeepsServers : (k : Kind) (id : Guid) → KeepsServers (forget_region k id)
unfolding forget_region
forget_region-KeepsServers k id = at_region-KeepsServers id _ λ region.
    >>-KeepsServers _ _ (update_pool-KeepsServers k _ (remove_load-servers region id))
      (update_pool-KeepsServers k _ (remove_region-servers region id))

-- The connections of the kind `j` once the server `id` of the kind `k` is deleted.
abbrev erased : Kind → Guid → Kind → Map NetSocket → Map NetSocket
erased ingress id ingress m = erase id m
erased egress id egress m = erase id m
erased movement id movement m = erase id m
erased _ id _ m = m

forget_server-servers :
    (k j : Kind) (id : Guid) (s t : State)
    → forget_server k id s ≡ done t
    → servers_in j t ≡ erased k id j (servers_in j s)
unfolding forget_server
forget_server-servers ingress ingress id s t h = ground arith
forget_server-servers ingress egress id s t h = ground arith
forget_server-servers ingress movement id s t h = ground arith
forget_server-servers egress ingress id s t h = ground arith
forget_server-servers egress egress id s t h = ground arith
forget_server-servers egress movement id s t h = ground arith
forget_server-servers movement ingress id s t h = ground arith
forget_server-servers movement egress id s t h = ground arith
forget_server-servers movement movement id s t h = ground arith

module _ (d : DropServer) where
  drop-servers :
      (j : Kind) (id : Guid) (s t : State) → d.drop id s ≡ done t → servers_in j t ≡ servers_in j s
  drop-servers j id s t h =
      ap (λ r. (pool_of j r).servers) (ap (λ o. (state_of o).router) (sym h) ∙ d.keeps_router id s)

  -- The callback, the deletion, and what follows it.
  closing-servers :
      (k j : Kind) (id : Guid) (rest : Action) (s t : State)
      → KeepsServers rest
      → (d.drop id >> forget_server k id >> rest) s ≡ done t
      → servers_in j t ≡ erased k id j (servers_in j s)
  closing-servers k j id rest s t keeps h =
      let (b, first, last) = >>-eq-done (d.drop id >> forget_server k id) rest s t h in
      let (a, dropped, deleted) = >>-eq-done (d.drop id) (forget_server k id) s b first in
      keeps j b t last
      ∙ forget_server-servers k j id a b deleted
      ∙ ap (erased k id j) (drop-servers j id s a dropped)

  close_server-servers :
      (k j : Kind) (id : Guid) (s t : State)
      → close_server d.drop k id s ≡ done t
      → servers_in j t ≡ erased k id j (servers_in j s)
  unfolding close_server
  close_server-servers egress j id s t h =
      closing-servers egress j id (forget_region egress id) s t
        (forget_region-KeepsServers egress id) h
  close_server-servers ingress j id s t h =
      let (b, first, last) =
        >>-eq-done (d.drop id >> forget_server ingress id >> forget_load ingress id)
          (forget_region ingress id) s t h in
      forget_region-KeepsServers ingress id j b t last
      ∙ closing-servers ingress j id (forget_load ingress id) s b
          (forget_load-KeepsServers ingress id) first
  close_server-servers movement j id s t h =
      let (b, first, last) =
        >>-eq-done (d.drop id >> forget_server movement id >> forget_load movement id)
          (forget_region movement id) s t h in
      forget_region-KeepsServers movement id j b t last
      ∙ closing-servers movement j id (forget_load movement id) s b
          (forget_load-KeepsServers movement id) first

abbrev pub erased_found : Kind → Option Guid → Kind → Map NetSocket → Map NetSocket
erased_found k none j m = m
erased_found k (some id) j m = if id == "" then m else erased k id j m

pub close_found-servers :
    (d : DropServer) (k j : Kind) (found : Option Guid) (s t : State)
    → close_found d.drop k found s ≡ done t
    → servers_in j t ≡ erased_found k found j (servers_in j s)
unfolding close_found
close_found-servers d k j none s t h = ground arith
close_found-servers d k j (some id) s t h = ground (arith, close_server-servers d k j id s t)

-- The servers of a route of one kind.
abbrev pub ids_of : Kind → Room → List Guid
ids_of ingress route = route.ingress
ids_of egress route = route.egress
ids_of movement route = route.movement

-- No pipe of the list begins, or ends, at the server.
abbrev NoneBegins : Guid → List MediaServerPipe → Type 0
NoneBegins id [] = Unit
NoneBegins id (pipe ∷ pipes) = (pipe.ingress ≢ id) × NoneBegins id pipes

abbrev pub NoneEnds : Guid → List MediaServerPipe → Type 0
NoneEnds id [] = Unit
NoneEnds id (pipe ∷ pipes) = (pipe.egress ≢ id) × NoneEnds id pipes

-- Movement servers have no pipes.
abbrev pub HasNoPipe : Kind → Guid → List MediaServerPipe → Type 0
HasNoPipe ingress id pipes = NoneBegins id pipes
HasNoPipe egress id pipes = NoneEnds id pipes
HasNoPipe movement id pipes = Unit

abbrev pub HasNoRoute : Kind → Guid → Map Room → Type 0
HasNoRoute k id = Entries (λ _ route. includes id (ids_of k route) ≡ false)

pub keep_pipes-HasNoPipe :
    (i e : Option Guid) (pipes : List MediaServerPipe) (id : Guid)
    → (i ≡ some id → HasNoPipe ingress id (keep_pipes i e pipes))
      × (e ≡ some id → HasNoPipe egress id (keep_pipes i e pipes))
unfolding keep_pipes
keep_pipes-HasNoPipe i e [] id = ((λ _. tt), (λ _. tt))
keep_pipes-HasNoPipe i e (pipe ∷ pipes) id =
    let rest = keep_pipes-HasNoPipe i e pipes id in
    (
      (λ f. ground (arith, rest.0 f, eq_iff id pipe.ingress)),
      (λ f. ground (arith, rest.1 f, eq_iff id pipe.egress)),
    )

pub keep_routes-HasNoRoute :
    (k : Kind) (i e m : Option Guid) (id : Guid) (routes : Map Room)
    → elim k [ ingress ↦ i | egress ↦ e | movement ↦ m ] ≡ some id
    → HasNoRoute k id (keep_routes (is_stale i e m) routes)
unfolding keep_routes is_stale
keep_routes-HasNoRoute k i e m id [] f = tt
keep_routes-HasNoRoute ingress i e m id ((name, route) ∷ routes) f =
    ground (arith, keep_routes-HasNoRoute ingress i e m id routes f)
keep_routes-HasNoRoute egress i e m id ((name, route) ∷ routes) f =
    ground (arith, keep_routes-HasNoRoute egress i e m id routes f)
keep_routes-HasNoRoute movement i e m id ((name, route) ∷ routes) f =
    ground (arith, keep_routes-HasNoRoute movement i e m id routes f)
