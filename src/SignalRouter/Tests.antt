-- ===== src/SignalRouter/Tests.antt =====
-- frame/libs/signalRouter.ts: runs of the router on concrete servers.
use frame_oldbackend_public.Prelude.{
  ℕ, true, false, ◌≡◌, refl, ◌≤◌, Option, none, some, List, [], ◌∷◌, arith, not_empty, eq_iff,
}
use frame_oldbackend_public.Prelude.Maps.{Map, lookup, includes}
use frame_oldbackend_public.Prelude.Entries.{Entries}
use frame_oldbackend_public.Types.{
  Guid, Room, MediaServerPipe, ParseMessages, relayed, net_write, register_media_server,
  server_load, store_pipe_relay, connect_pipe_relay,
}
use frame_oldbackend_public.State.{State, done, thrown, new_state}
use frame_oldbackend_public.SignalRouter.Servers.{ServerPool, ok, throws, get_server}
use frame_oldbackend_public.SignalRouter.Regions.{resolve_region}
use frame_oldbackend_public.SignalRouter.Router.{
  Router, new_router, get_ingress, resolve_server_to_region,
}
use frame_oldbackend_public.SignalRouter.Kinds.{egress, server_of}
use frame_oldbackend_public.SignalRouter.Close.{on_close}
use frame_oldbackend_public.SignalRouter.Receive.{NewConsumers, on_message, connect_pipe}
use frame_oldbackend_public.SignalRouter.Requests.{send_egress, send_ingress}
use frame_oldbackend_public.SignalRouter.Cleanup.{DropServer, on_close-removes}
use frame_oldbackend_public.SignalRouter.Selection.{get_server-least}
use frame_oldbackend_public.SignalRouter.Interconnect.{
  message_from, store-connect, first_ingress-chosen,
}
use frame_oldbackend_public.SignalRouter.LastServer.{
  on_close-throws, last_load-throws, last_server-unserved,
}

-- Two egress servers in us-east-1, the second one with the lower load, and one in eu-west-2.
abbrev two_servers : ServerPool
two_servers = record {
  servers = ("e1", 1) ∷ ("e2", 2) ∷ ("e3", 3) ∷ [];
  regions = ("us-east-1", "e1" ∷ "e2" ∷ []) ∷ ("eu-west-2", "e3" ∷ []) ∷ [];
  load = ("us-east-1", ("e1", 7) ∷ ("e2", 4) ∷ []) ∷ ("eu-west-2", ("e3", 9) ∷ []) ∷ [];
}

abbrev lounge : Room
lounge = record { ingress = "i1" ∷ []; egress = "e1" ∷ []; movement = [] }

abbrev hall : Room
hall = record { ingress = "i1" ∷ []; egress = "e2" ∷ []; movement = [] }

abbrev pipe : MediaServerPipe
pipe = record { ingress = "i1"; egress = "e1"; ingress_route = "r1"; egress_route = none }

abbrev router : Router
router = record new_router {
  egress = two_servers;
  routing_table = ("lounge", lounge) ∷ ("hall", hall) ∷ [];
  pipes = pipe ∷ [];
}

abbrev routed : State
routed = record new_state { router = router }

-- The callback that does nothing.
abbrev no_drop : DropServer
no_drop = record { drop = λ id s. done s; keeps_router = λ id s. refl }

abbrev no_consumers : NewConsumers
no_consumers peer kind label s = none

abbrev after_close : State
after_close = record new_state {
  router = record new_router {
    egress = record {
      servers = ("e2", 2) ∷ ("e3", 3) ∷ [];
      regions = ("us-east-1", "e2" ∷ []) ∷ ("eu-west-2", "e3" ∷ []) ∷ [];
      load = ("us-east-1", ("e2", 4) ∷ []) ∷ ("eu-west-2", ("e3", 9) ∷ []) ∷ [];
    };
    routing_table = ("hall", hall) ∷ [];
  };
}

close_e1 : on_close no_drop.drop 1 routed ≡ done after_close
unfolding on_close
close_e1 = refl

e1_registered : server_of 1 two_servers.servers ≡ some "e1"
unfolding server_of
e1_registered = refl

on_close-removes_example :
    (lookup "e1" after_close.router.egress.servers ≡ none)
    × Entries (λ _ route. includes "e1" route.egress ≡ false) after_close.router.routing_table
    × Unit {0}
on_close-removes_example =
    on_close-removes no_drop 1 egress "e1" routed after_close close_e1 e1_registered
      (not_empty "e1" refl)

abbrev us_east_loads : Map ℕ
us_east_loads = ("e1", 7) ∷ ("e2", 4) ∷ []

get_server-least_example :
    (id : Guid) × (load : ℕ) × (get_server two_servers "us-east-1" ≡ ok (some id))
    × (lookup id us_east_loads ≡ some load)
    × Entries (λ _ l. load ≤ l) us_east_loads
unfolding lookup includes
get_server-least_example =
    get_server-least two_servers "us-east-1" us_east_loads ("e1" ∷ "e2" ∷ []) refl refl
      (ground arith) (refl, (refl, tt))
      ((refl, not_empty "e1" refl), ((refl, not_empty "e2" refl), tt))

least_is_e2 : get_server two_servers "us-east-1" ≡ ok (some "e2")
unfolding get_server
least_is_e2 = refl

-- Only the first of the two servers in us-east-1 has reported its load.
abbrev half_loaded : State
half_loaded = record new_state {
  router = record router {
    egress = record two_servers { load = ("us-east-1", ("e1", 7) ∷ []) ∷ [] };
  };
}

last_load-throws_example :
    (s' : State) × (left : List Guid) × (on_close no_drop.drop 1 half_loaded ≡ done s')
    × (lookup "us-east-1" s'.router.egress.regions ≡ some left)
    × (includes "e2" left ≡ true)
    × (get_server s'.router.egress "us-east-1" ≡ throws)
unfolding server_of resolve_server_to_region lookup includes
last_load-throws_example =
    last_load-throws no_drop 1 "e1" "us-east-1" half_loaded half_loaded refl (not_empty "e1" refl)
      refl refl (not_empty "us-east-1" refl) 7 ("e1" ∷ "e2" ∷ []) "e2" refl refl refl refl refl
      (ground (arith, eq_iff "e2" "e1"))

-- eu-west-2 stands first, with its only server; us-east-1 has two.
abbrev eu_first : State
eu_first = record new_state {
  router = record router {
    egress = record two_servers {
      regions = ("eu-west-2", "e3" ∷ []) ∷ ("us-east-1", "e1" ∷ "e2" ∷ []) ∷ [];
    };
  };
}

last_server-unserved_example :
    (s' : State) × (on_close no_drop.drop 3 eu_first ≡ done s')
    × (get_server s'.router.egress "eu-west-2" ≡ ok none)
    × (s'.router.egress.regions ≡ ("eu-west-2", []) ∷ ("us-east-1", "e1" ∷ "e2" ∷ []) ∷ [])
unfolding server_of resolve_server_to_region lookup
last_server-unserved_example =
    last_server-unserved no_drop 3 "e3" "eu-west-2" eu_first eu_first refl (not_empty "e3" refl)
      refl refl (not_empty "eu-west-2" refl) 9 (("us-east-1", "e1" ∷ "e2" ∷ []) ∷ []) refl refl refl
      refl

-- No egress server has reported a load.
abbrev unloaded : State
unloaded = record new_state { router = record router { egress = record two_servers { load = [] } } }

on_close-throws_example :
    (s' : State) × (on_close no_drop.drop 1 unloaded ≡ thrown s')
    × (lookup "e1" s'.router.egress.servers ≡ none)
    × (s'.router.routing_table ≡ router.routing_table)
    × (s'.router.pipes ≡ pipe ∷ [])
unfolding server_of resolve_server_to_region lookup
on_close-throws_example =
    on_close-throws no_drop 1 "e1" "us-east-1" unloaded unloaded refl (not_empty "e1" refl) refl
      refl (not_empty "us-east-1" refl) refl

-- The pipes after a second pipe from the same ingress server is stored and connected.
abbrev stored : Option ParseMessages
stored = message_from "i1" (store_pipe_relay "r2" "e1" "{}")

abbrev connected : Option ParseMessages
connected = message_from "e1" (connect_pipe_relay "r2" "o2" "{}")

store-connect_example :
    ((on_message no_consumers 1 connected (on_message no_consumers 2 stored routed)).router.pipes
      ≡ pipe
        ∷ record { ingress = "i1"; egress = "e1"; ingress_route = "r2"; egress_route = some "o2" }
        ∷ [])
    × ((on_message no_consumers 1 connected (on_message no_consumers 2 stored routed)).trace
        ≡ net_write 1 (
            relayed (record {
              wsid = none;
              node = "i1";
              message = some (store_pipe_relay "r2" "e1" "{}");
              communication = none;
            }))
          ∷ [])
unfolding connect_pipe send_egress send_ingress
store-connect_example = store-connect no_consumers 2 1 "i1" "e1" "r2" "o2" "{}" "{}" routed refl

first_ingress-chosen_example :
    get_ingress
      (on_message no_consumers 4 (message_from "i9" (server_load "ingress" "us-east-1" 3)) (
        on_message no_consumers 4
          (message_from "i9" (register_media_server "ingress" "us-east-1"))
          routed)).router
      "JFK50-P1"
    ≡ ok (some "i9")
unfolding resolve_region lookup
first_ingress-chosen_example =
    first_ingress-chosen no_consumers 4 "i9" "us-east-1" "JFK50-P1" 3 routed (not_empty "i9" refl)
      refl refl refl
