-- ===== src/SignalRouter/Cleanup.antt =====
-- frame/libs/signalRouter.ts: what is left of a server after its connection has closed, and when
-- the close handler throws.
mod Steps
pub use Steps.{DropServer, ids_of, HasNoPipe}
use frame_oldbackend_public.Prelude.{false, ◌≡◌, refl, ◌≢◌, Option, none, some, arith, eq_iff, ◌∙◌}
use frame_oldbackend_public.Prelude.Maps.{Map, lookup, erase, includes, lookup-erase_self}
use frame_oldbackend_public.Prelude.Entries.{Entries}
use frame_oldbackend_public.Types.{Guid, NetSocket}
use frame_oldbackend_public.State.{State, done, ◌>>◌, modify, >>-eq-done}
use frame_oldbackend_public.SignalRouter.Kinds.{Kind, ingress, egress, movement, pool_of, server_of}
use frame_oldbackend_public.SignalRouter.Close.{close_found, forget_routes, on_close}
use Steps.{
  servers_in, erased_found, HasNoRoute, close_found-servers, keep_pipes-HasNoPipe,
  keep_routes-HasNoRoute,
}

-- The server of a connection, of each kind.
abbrev found : Kind → NetSocket → State → Option Guid
found k connection s = server_of connection (servers_in k s)

forget_routes-HasNoPipe :
    (k : Kind) (i e m : Option Guid) (id : Guid) (s : State)
    → elim k [ ingress ↦ i | egress ↦ e | movement ↦ m ] ≡ some id
    → HasNoPipe k id (forget_routes i e m s).router.pipes
unfolding forget_routes
forget_routes-HasNoPipe ingress i e m id s f = (keep_pipes-HasNoPipe i e s.router.pipes id).0 f
forget_routes-HasNoPipe egress i e m id s f = (keep_pipes-HasNoPipe i e s.router.pipes id).1 f
forget_routes-HasNoPipe movement i e m id s f = tt

forget_routes-HasNoRoute :
    (k : Kind) (i e m : Option Guid) (id : Guid) (s : State)
    → elim k [ ingress ↦ i | egress ↦ e | movement ↦ m ] ≡ some id
    → HasNoRoute k id (forget_routes i e m s).router.routing_table
unfolding forget_routes
forget_routes-HasNoRoute k i e m id s f = keep_routes-HasNoRoute k i e m id s.router.routing_table f

forget_routes-servers :
    (k : Kind) (i e m : Option Guid) (s : State)
    → servers_in k (forget_routes i e m s) ≡ servers_in k s
unfolding forget_routes
forget_routes-servers ingress i e m s = refl
forget_routes-servers egress i e m s = refl
forget_routes-servers movement i e m s = refl

erased_found_self :
    (k : Kind) (i e m : Option Guid) (id : Guid) (servers : Map NetSocket)
    → elim k [ ingress ↦ i | egress ↦ e | movement ↦ m ] ≡ some id
    → id ≢ ""
    → erased_found movement m k (erased_found ingress i k (erased_found egress e k servers))
      ≡ erase id servers
erased_found_self ingress i e m id servers f h = ground (arith, eq_iff id "")
erased_found_self egress i e m id servers f h = ground (arith, eq_iff id "")
erased_found_self movement i e m id servers f h = ground (arith, eq_iff id "")

found_by_kind :
    (k : Kind) (connection : NetSocket) (s : State)
    → elim k [
      | ingress ↦ found ingress connection s
      | egress ↦ found egress connection s
      | movement ↦ found movement connection s
    ]
      ≡ found k connection s
found_by_kind ingress connection s = refl
found_by_kind egress connection s = refl
found_by_kind movement connection s = refl

done_injective : (s t : State) → done s ≡ done t → s ≡ t
done_injective s t h = cc

-- Once the close handler has returned, with a callback that leaves the router alone, the server
-- that the connection belonged to, whichever its kind and if its id is not empty, is gone: it is
-- no longer registered and no route of the routing table names it; no pipe begins at it if it was
-- an ingress server, and none ends at it if it was an egress server.
pub on_close-removes :
    (d : DropServer) (connection : NetSocket) (k : Kind) (id : Guid) (s s' : State)
    → on_close d.drop connection s ≡ done s'
    → server_of connection (pool_of k s.router).servers ≡ some id
    → id ≢ ""
    → (lookup id (pool_of k s'.router).servers ≡ none)
      × Entries (λ _ route. includes id (ids_of k route) ≡ false) s'.router.routing_table
      × HasNoPipe k id s'.router.pipes
unfolding on_close
on_close-removes d connection k id s s' h f named =
    let i = found ingress connection s in
    let e = found egress connection s in
    let m = found movement connection s in
    let (c, first, last) =
      >>-eq-done
        (close_found d.drop egress e
          >> close_found d.drop ingress i
          >> close_found d.drop movement m)
        (modify (forget_routes i e m)) s s' h in
    let (b, first', third) =
      >>-eq-done (close_found d.drop egress e >> close_found d.drop ingress i)
        (close_found d.drop movement m) s c first in
    let (a, one, two) =
      >>-eq-done (close_found d.drop egress e) (close_found d.drop ingress i) s b first' in
    let final = done_injective (forget_routes i e m c) s' last in
    let which = found_by_kind k connection s ∙ f in
    rw (← final) (
      rw
          (
            forget_routes-servers k i e m c,
            close_found-servers d movement k m b c third,
            close_found-servers d ingress k i a b two,
            close_found-servers d egress k e s a one,
            erased_found_self k i e m id (servers_in k s) which named,
          )
          (lookup-erase_self id _),
      forget_routes-HasNoRoute k i e m id c which,
      forget_routes-HasNoPipe k i e m id c which,
    )
