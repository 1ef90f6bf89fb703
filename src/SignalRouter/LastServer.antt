-- ===== src/SignalRouter/LastServer.antt =====
-- frame/libs/signalRouter.ts: the close handler where the loads of the region are missing or few.
use frame_oldbackend_public.Prelude.{
  ℕ, String, true, refl, ◌≡◌, ◌≢◌, none, some, List, [], ◌∷◌, arith, eq_iff, ◌∙◌, ap, sym,
}
use frame_oldbackend_public.Prelude.Maps.{
  Map, includes, lookup, insert, erase, lookup-erase_self, lookup-insert_self,
}
use frame_oldbackend_public.Types.{Guid, NetSocket}
use frame_oldbackend_public.State.{State, done, thrown, state_of}
use frame_oldbackend_public.SignalRouter.Servers.{
  ServerPool, ok, throws, default_server, get_server,
}
use frame_oldbackend_public.SignalRouter.Router.{resolve_server_to_region}
use frame_oldbackend_public.SignalRouter.Kinds.{
  egress, server_of, remove_server, remove_load, remove_region, without,
}
use frame_oldbackend_public.SignalRouter.Close.{
  with_state_pool, forget_region, forget_server, close_server, close_found, forget_routes, on_close,
}
use frame_oldbackend_public.SignalRouter.Cleanup.{DropServer}
use frame_oldbackend_public.SignalRouter.Selection.{get_server-throws, get_server-default}

includes-without :
    (id other : Guid) (ids : List Guid)
    → other ≢ id
    → includes other ids ≡ true
    → includes other (without id ids) ≡ true
unfolding includes without
includes-without id other [] apart h = ground arith
includes-without id other (x ∷ ids) apart h =
    ground (arith, eq_iff x id, eq_iff x other, includes-without id other ids)

includes-ne-nil : (id : Guid) (ids : List Guid) → includes id ids ≡ true → ids ≢ []
unfolding includes
includes-ne-nil id [] h = ground arith
includes-ne-nil id (x ∷ ids) h = ground arith

without-only : (id : Guid) → without id (id ∷ []) ≡ []
unfolding without
without-only id = ground (arith, eq_iff id id)

insert_first :
    (region : String) (ids : List Guid) (rest : Map (List Guid))
    → insert region [] ((region, ids) ∷ rest) ≡ (region, []) ∷ rest
unfolding insert
insert_first region ids rest = ground (arith, eq_iff region region)

module _ (d : DropServer) (connection : NetSocket) (id region : String) (s t : State)
    (registered : server_of connection s.router.egress.servers ≡ some id) (named : id ≢ "")
    (dropped : d.drop id s ≡ done t) (resolved : resolve_server_to_region s.router id ≡ some region)
    (region_named : region ≢ "") where
  router_kept : t.router ≡ s.router
  router_kept = ap (λ o. (state_of o).router) (sym dropped) ∙ d.keeps_router id s

  -- The state in which the egress server is deleted, and its region is looked up.
  abbrev deleted : State
  deleted = with_state_pool egress (remove_server id t.router.egress) t

  resolved_later : resolve_server_to_region deleted.router id ≡ some region
  unfolding resolve_server_to_region remove_server
  resolved_later = ap (λ r. resolve_server_to_region r id) router_kept ∙ resolved

  -- The connection of an egress server closes; the callback returns and leaves the router alone,
  -- the server's region is found, and no load was reported in it: the handler throws. The server
  -- is no longer registered by then, but the routes and pipes are all as before.
  pub on_close-throws :
      lookup region s.router.egress.load ≡ none
      → (s' : State) × (on_close d.drop connection s ≡ thrown s')
        × (lookup id s'.router.egress.servers ≡ none)
        × (s'.router.routing_table ≡ s.router.routing_table)
        × (s'.router.pipes ≡ s.router.pipes)
  unfolding on_close close_found close_server forget_server forget_region remove_load
  on_close-throws missing = (
    deleted,
    ground (
      arith,
      eq_iff id "",
      eq_iff region "",
      resolved_later,
      ap (λ r. lookup region r.egress.load) router_kept,
    ),
    unfold remove_server in lookup-erase_self id t.router.egress.servers,
    ap (λ r. r.routing_table) router_kept,
    ap (λ r. r.pipes) router_kept,
  )

  -- The load of the last server of the region, and the pool without that server.
  module _ (load : ℕ) (ids : List Guid) where
    abbrev emptied : ServerPool
    emptied =
        let p = t.router.egress in
        record p {
          servers = erase id p.servers;
          load = insert region (erase id ((id, load) ∷ [])) p.load;
          regions = insert region (without id ids) p.regions;
        }

    abbrev closed : State
    closed = forget_routes none (some id) none (with_state_pool egress emptied t)

    erase_only : erase id ((id, load) ∷ []) ≡ []
    unfolding erase
    erase_only = ground (arith, eq_iff id id)

    loads_emptied : lookup region emptied.load ≡ some []
    loads_emptied = lookup-insert_self region _ t.router.egress.load ∙ ap some erase_only

    handled :
        lookup region s.router.egress.load ≡ some ((id, load) ∷ [])
        → lookup region s.router.egress.regions ≡ some ids
        → server_of connection s.router.ingress.servers ≡ none
        → server_of connection s.router.movement.servers ≡ none
        → on_close d.drop connection s ≡ done closed
    unfolding on_close close_found close_server forget_server forget_region remove_load
        remove_region remove_server
    handled loads listed no_ingress no_movement = ground (
      arith,
      eq_iff id "",
      eq_iff region "",
      resolved_later,
      ap (λ r. lookup region r.egress.load) router_kept,
      ap (λ r. lookup region r.egress.regions) router_kept,
    )

    -- The connection of an egress server closes, which belongs to no other server; the callback
    -- returns and leaves the router alone, the server's region is found, the id and the region are
    -- not empty, and the loads of the region are those of this server only, though another server
    -- of the region is on record: the handler returns, and then the choice of an egress server for
    -- this region throws, while that other server is still on record there.
    pub last_load-throws :
        (other : Guid)
        → lookup region s.router.egress.load ≡ some ((id, load) ∷ [])
        → lookup region s.router.egress.regions ≡ some ids
        → server_of connection s.router.ingress.servers ≡ none
        → server_of connection s.router.movement.servers ≡ none
        → includes other ids ≡ true
        → other ≢ id
        → (s' : State) × (left : List Guid) × (on_close d.drop connection s ≡ done s')
          × (lookup region s'.router.egress.regions ≡ some left)
          × (includes other left ≡ true)
          × (get_server s'.router.egress region ≡ throws)
    unfolding forget_routes
    last_load-throws other loads listed no_ingress no_movement listed_other apart =
        let there = includes-without id other ids apart listed_other in
        let stored = lookup-insert_self region (without id ids) t.router.egress.regions in
        (
          closed,
          without id ids,
          handled loads listed no_ingress no_movement,
          stored,
          there,
          get_server-throws emptied region (without id ids) loads_emptied stored
              (includes-ne-nil other (without id ids) there),
        )

  -- The connection of an egress server closes, which belongs to no other server; the callback
  -- returns and leaves the router alone, the server's id and its region, which is found, are not
  -- empty, and the server is the only one of the region that stands first on record, and the only
  -- one with a load there: the handler returns, and then no egress server is chosen for this
  -- region. The default is the first server of that first region, which has none, whatever servers
  -- the other regions have, and these are all still on record.
  pub last_server-unserved :
      (load : ℕ) (rest : Map (List Guid))
      → lookup region s.router.egress.load ≡ some ((id, load) ∷ [])
      → s.router.egress.regions ≡ (region, id ∷ []) ∷ rest
      → server_of connection s.router.ingress.servers ≡ none
      → server_of connection s.router.movement.servers ≡ none
      → (s' : State) × (on_close d.drop connection s ≡ done s')
        × (get_server s'.router.egress region ≡ ok none)
        × (s'.router.egress.regions ≡ (region, []) ∷ rest)
  unfolding forget_routes lookup default_server
  last_server-unserved load rest loads first no_ingress no_movement =
      let listed : lookup region s.router.egress.regions ≡ some (id ∷ []) =
        ground (arith, eq_iff region region) in
      let only : without id (id ∷ []) ≡ [] = without-only id in
      let regions : (emptied load (id ∷ [])).regions ≡ (region, []) ∷ rest =
        rw (only, ap (λ r. r.egress.regions) router_kept ∙ first)
          (insert_first region (id ∷ []) rest) in
      let none_left =
        lookup-insert_self region (without id (id ∷ [])) t.router.egress.regions ∙ ap some only in
      (
        closed load (id ∷ []),
        handled load (id ∷ []) loads listed no_ingress no_movement,
        get_server-default (emptied load (id ∷ [])) region (loads_emptied load (id ∷ [])) none_left
            ∙ rw regions refl,
        regions,
      )
