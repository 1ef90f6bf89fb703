-- ===== src/Avatar/MovementServer.antt =====
-- frame/webapp/core/avatar.ts: the websocket to a regional movement server, and the attempts to find
-- one again (`connectRegionalMovementServer`, `getRegionalMovementServer`).
use frame_oldbackend_public.Prelude.{
  ℕ, suc, ◌+◌, ◌*◌, ◌^◌, String, Bool, true, false, ◌||◌, Option, none, some, List, [], ◌∷◌, ◌++◌,
  ltb, nat_eq, if◌then◌else◌, truthy,
}
use frame_oldbackend_public.Prelude.Timers.{without_timer, is_set}

-- A number that the constructor leaves undefined.
pub data Attempt : Type 0 where
  undefined : Attempt
  not_a_number : Attempt
  number : ℕ → Attempt

abbrev pub next_attempt : Attempt → Attempt
next_attempt undefined = not_a_number
next_attempt not_a_number = not_a_number
next_attempt (number n) = number (suc n)

-- `attempt < 6` and `attempt > 0`
abbrev pub below_six : Attempt → Bool
below_six undefined = false
below_six not_a_number = false
below_six (number n) = ltb n 6

abbrev pub is_positive : Attempt → Bool
is_positive undefined = false
is_positive not_a_number = false
is_positive (number n) = ltb 0 n

-- The pause before the next attempt, in milliseconds.
abbrev pub pause_of : Attempt → ℕ
pause_of undefined = 5000
pause_of not_a_number = 5000
pause_of (number n) = if ltb 0 n then 5000 + 2 ^ n * 1000 else 5000

pub data LinkEffect : Type 0 where
  opened : (host : String) (room : Option String) → LinkEffect
  closed_socket : ℕ → LinkEffect
  waits : (milliseconds : ℕ) → LinkEffect
  notified : LinkEffect

-- The fields of the class that concern the movement server. Sockets and timers have numbers.
pub record Link : Type 0 where
  pub regional_movement_server : Bool
  pub movement_transport : Option ℕ
  -- `movementTransport.readyState === WebSocket.OPEN`
  pub is_open : Bool
  pub next_socket : ℕ
  pub movement_server_connection_attempt : Attempt
  pub timers : List ℕ
  pub get_movement_server_timeout : Option ℕ
  pub next_timer : ℕ
  pub movement_reconnecting : Bool
  pub trace : List LinkEffect

abbrev pub new_link : Link
new_link = record {
  regional_movement_server = false;
  movement_transport = none;
  is_open = false;
  next_socket = 0;
  movement_server_connection_attempt = undefined;
  timers = [];
  get_movement_server_timeout = none;
  next_timer = 0;
  movement_reconnecting = false;
  trace = [];
}

abbrev pub act : LinkEffect → Link → Link
act e l = record l { trace = l.trace ++ (e ∷ []) }

-- `clearTimeout(this.getMovementServerTimeout)`
unfoldable pub clear_timeout : Link → Link
unfolding without_timer
clear_timeout l = elim l.get_movement_server_timeout [
  | none ↦ l
  | some t ↦ record l { timers = without_timer t l.timers }
]

unfoldable pub get_regional_movement_server : Link → Link
unfolding clear_timeout
get_regional_movement_server l =
    if l.is_open
    then l
    else if below_six l.movement_server_connection_attempt
    then act (waits (pause_of l.movement_server_connection_attempt)) (record l {
      timers = l.next_timer ∷ l.timers;
      get_movement_server_timeout = some l.next_timer;
      next_timer = suc l.next_timer;
    })
    else act notified (clear_timeout l)

-- The timer `t` fires; the request to the server is commented out in the source.
unfoldable pub on_timeout : ℕ → Link → Link
unfolding is_set clear_timeout get_regional_movement_server
on_timeout t l = elim (is_set t l.timers) [
  | false ↦ l
  | true ↦
      let l1 = clear_timeout (record l { timers = without_timer t l.timers }) in
      get_regional_movement_server
        (if is_positive l1.movement_server_connection_attempt then act notified l1 else l1)
]

abbrev pub close_socket : Option ℕ → Link → Link
close_socket none l = l
close_socket (some s) l = act (closed_socket s) (record l { is_open = false })

-- The server is given by its host, which may be missing, and its room.
unfoldable pub connect_regional_movement_server : Option String → Option String → Link → Link
connect_regional_movement_server host room l =
    let l1 = close_socket l.movement_transport (record l { regional_movement_server = true }) in
    let l2 = record l1 {
      movement_server_connection_attempt = next_attempt l1.movement_server_connection_attempt;
    } in
    elim host [
      | none ↦ l2
      | some h ↦
          if truthy (some h)
          then act (opened h room) (record l2 {
            movement_transport = some l2.next_socket;
            is_open = false;
            next_socket = suc l2.next_socket;
          })
          else l2
    ]

-- The server's description is missing: its host is read of `undefined`, which throws.
unfoldable pub connect_undefined : Link → Link
connect_undefined l =
    close_socket l.movement_transport (record l { regional_movement_server = true })

abbrev pub is_current : ℕ → Link → Bool
is_current s l = elim l.movement_transport [ none ↦ false | some t ↦ nat_eq t s ]

-- The websocket `s` opens or closes.
unfoldable pub on_open : ℕ → Link → Link
unfolding clear_timeout
on_open s l = record (clear_timeout (record l { is_open = is_current s l || l.is_open })) {
  movement_server_connection_attempt = number 0;
  movement_reconnecting = false;
}

unfoldable pub on_close : Bool → ℕ → Link → Link
unfolding get_regional_movement_server
on_close was_clean s l =
    let l1 = record l { is_open = if is_current s l then false else l.is_open } in
    if was_clean
    then l1
    else if below_six l1.movement_server_connection_attempt
    then get_regional_movement_server (record l1 { movement_reconnecting = true })
    else l1
