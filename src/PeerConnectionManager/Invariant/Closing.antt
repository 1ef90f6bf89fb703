-- ===== src/PeerConnectionManager/Invariant/Closing.antt =====
-- The close of a media server's connection keeps the invariant.
use frame_oldbackend_public.Prelude.{
  String, inl, inr, Option, none, some, ◌==◌, if◌then◌else◌, Option-cases, Bool-cases,
}
use frame_oldbackend_public.Types.{Guid, NetSocket}
use frame_oldbackend_public.State.{State, Action, ◌>>◌, state_of, modify}
use frame_oldbackend_public.SignalRouter.Servers.{ServerPool}
use frame_oldbackend_public.SignalRouter.Router.{resolve_server_to_region}
use frame_oldbackend_public.SignalRouter.Kinds.{
  Kind, ingress, egress, movement, pool_of, server_of, remove_load, remove_region,
}
use frame_oldbackend_public.SignalRouter.Close.{
  update_pool, at_region, forget_load, forget_region, forget_server, close_server, close_found,
  forget_routes, on_close,
}
use frame_oldbackend_public.PeerConnectionManager.Disconnect.{drop_route}
use frame_oldbackend_public.PeerConnectionManager.Invariant.Base.{
  Inv, KeepsInv, with_router-Inv, >>-KeepsInv,
}
use frame_oldbackend_public.PeerConnectionManager.Invariant.Disconnecting.{drop_route-KeepsInv}

update_pool-KeepsInv : (k : Kind) (f : ServerPool → Option ServerPool) → KeepsInv (update_pool k f)
update_pool-KeepsInv k f s v = elim (Option-cases (f (pool_of k s.router))) [
  | inl e ↦ rw (e, update_pool, state_of) v
  | inr (p, e) ↦ rw (e, update_pool, state_of) (with_router-Inv _ s v)
]

at_region-KeepsInv :
    (id : Guid) (f : String → Action)
    → ((region : String) → KeepsInv (f region))
    → KeepsInv (at_region id f)
at_region-KeepsInv id f keeps s v = elim (Option-cases (resolve_server_to_region s.router id)) [
  | inl e ↦ rw (e, at_region, state_of) v
  | inr (region, e) ↦ elim (Bool-cases (region == "")) [
    | inl n ↦ rw (e, n, at_region, state_of) v
    | inr n ↦ rw (e, n, at_region) (keeps region s v)
  ]
]

forget_load-KeepsInv : (k : Kind) (id : Guid) → KeepsInv (forget_load k id)
unfolding forget_load
forget_load-KeepsInv k id =
    at_region-KeepsInv id (λ region. update_pool k (remove_load region id))
      (λ region. update_pool-KeepsInv k (remove_load region id))

forget_region-KeepsInv : (k : Kind) (id : Guid) → KeepsInv (forget_region k id)
unfolding forget_region
forget_region-KeepsInv k id =
    at_region-KeepsInv id
      (λ region. update_pool k (remove_load region id) >> update_pool k (remove_region region id))
      (λ region.
        >>-KeepsInv (update_pool k (remove_load region id))
          (update_pool k (remove_region region id)) (update_pool-KeepsInv k (remove_load region id))
          (update_pool-KeepsInv k (remove_region region id)))

forget_server-KeepsInv : (k : Kind) (id : Guid) → KeepsInv (forget_server k id)
unfolding forget_server
forget_server-KeepsInv k id s v = with_router-Inv _ s v

-- The callback and the deletion.
begin_close-KeepsInv : (k : Kind) (id : Guid) → KeepsInv (drop_route id >> forget_server k id)
begin_close-KeepsInv k id =
    >>-KeepsInv (drop_route id) (forget_server k id) (drop_route-KeepsInv id)
      (forget_server-KeepsInv k id)

-- A removal that takes the load away twice.
close_twice-KeepsInv :
    (k : Kind) (id : Guid)
    → KeepsInv (drop_route id >> forget_server k id >> forget_load k id >> forget_region k id)
close_twice-KeepsInv k id =
    >>-KeepsInv (drop_route id >> forget_server k id >> forget_load k id) (forget_region k id)
      (>>-KeepsInv (drop_route id >> forget_server k id) (forget_load k id)
        (begin_close-KeepsInv k id) (forget_load-KeepsInv k id))
      (forget_region-KeepsInv k id)

close_server-KeepsInv : (k : Kind) (id : Guid) → KeepsInv (close_server drop_route k id)
unfolding close_server
close_server-KeepsInv egress id =
    >>-KeepsInv (drop_route id >> forget_server egress id) (forget_region egress id)
      (begin_close-KeepsInv egress id) (forget_region-KeepsInv egress id)
close_server-KeepsInv ingress id = close_twice-KeepsInv ingress id
close_server-KeepsInv movement id = close_twice-KeepsInv movement id

close_found-KeepsInv : (k : Kind) (found : Option Guid) → KeepsInv (close_found drop_route k found)
unfolding close_found
close_found-KeepsInv k none s v = v
close_found-KeepsInv k (some id) s v = elim (Bool-cases (id == "")) [
  | inl e ↦ rw (e, close_found, state_of) v
  | inr e ↦ rw (e, if◌then◌else◌) (close_server-KeepsInv k id s v)
]

forget_routes-Inv : (i e m : Option Guid) (s : State) → Inv s → Inv (forget_routes i e m s)
unfolding forget_routes
forget_routes-Inv i e m s v = with_router-Inv _ s v

closings-KeepsInv :
    (i e m : Option Guid)
    → KeepsInv (
        close_found drop_route egress e
        >> close_found drop_route ingress i
        >> close_found drop_route movement m
        >> modify (forget_routes i e m))
closings-KeepsInv i e m =
    >>-KeepsInv
      (close_found drop_route egress e
        >> close_found drop_route ingress i
        >> close_found drop_route movement m)
      (modify (forget_routes i e m))
      (>>-KeepsInv (close_found drop_route egress e >> close_found drop_route ingress i)
        (close_found drop_route movement m)
        (>>-KeepsInv (close_found drop_route egress e) (close_found drop_route ingress i)
          (close_found-KeepsInv egress e) (close_found-KeepsInv ingress i))
        (close_found-KeepsInv movement m))
      (forget_routes-Inv i e m)

pub on_close-KeepsInv : (c : NetSocket) → KeepsInv (on_close drop_route c)
unfolding on_close
on_close-KeepsInv c s v =
    closings-KeepsInv (server_of c s.router.ingress.servers) (server_of c s.router.egress.servers)
      (server_of c s.router.movement.servers) s v
