-- ===== src/State.antt =====
-- The state that frame/libs/peerConnectionManager.ts and frame/libs/signalRouter.ts share: the
-- module's `peers` and `rooms`, the fields of the two classes, and what was sent, in order.
use frame_oldbackend_public.Prelude.{ℕ, Bool, true, Option, none, List, [], ◌++◌, ◌≡◌, refl, arith}
use frame_oldbackend_public.Prelude.Maps.{Map}
use frame_oldbackend_public.Types.{Peer, PeerCounter, Room, Effect}
use frame_oldbackend_public.SignalRouter.Router.{Router, new_router}

pub record State : Type 0 where
  pub router : Router
  pub peers : Map Peer
  pub rooms : Map Room
  pub peer_count : Map PeerCounter
  -- Whether `process.send` is set, that is whether this process is a forked child.
  pub has_ipc : Bool
  -- The timers that are set, the one in `#statsTimeout`, and the next timer.
  pub timers : List ℕ
  pub stats_timeout : Option ℕ
  pub next_timer : ℕ
  pub trace : List Effect

abbrev pub new_state : State
new_state = record {
  router = new_router;
  peers = [];
  rooms = [];
  peer_count = [];
  has_ipc = true;
  timers = [];
  stats_timeout = none;
  next_timer = 0;
  trace = [];
}

-- What a call does: it returns, or it throws a TypeError and leaves the state as it then is.
pub data Outcome : Type 0 where
  done : State → Outcome
  thrown : State → Outcome

abbrev pub Action : Type 0
Action = State → Outcome

-- `m; k`: a throw skips what follows.
infixl 5 ◌>>◌
abbrev pub ◌>>◌ : Action → Action → Action
◌>>◌ m k s = elim (m s) [ done s' ↦ k s' | thrown s' ↦ thrown s' ]

abbrev pub state_of : Outcome → State
state_of (done s) = s
state_of (thrown s) = s

abbrev pub modify : (State → State) → Action
modify f s = done (f s)

abbrev pub emit : List Effect → State → State
emit effects s = record s { trace = s.trace ++ effects }

-- Inversion of a sequence that returns.
pub >>-eq-done :
    (m k : Action) (s s' : State)
    → (m >> k) s ≡ done s'
    → (t : State) × (m s ≡ done t) × (k t ≡ done s')
>>-eq-done m k s s' h = go (m s) refl
  where
    go : (o : Outcome) → m s ≡ o → (t : State) × (m s ≡ done t) × (k t ≡ done s')
    go (done t) e = (t, e, ground arith)
    go (thrown t) e = ground arith
