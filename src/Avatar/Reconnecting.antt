-- ===== src/Avatar/Reconnecting.antt =====
-- frame/webapp/core/avatar.ts: what the attempts to find a movement server again come to.
use frame_oldbackend_public.Prelude.{
  ℕ, zero, suc, String, true, false, none, some, Option, List, [], ◌∷◌, ◌++◌, ◌≡◌, sym, ap, ◌∙◌,
  arith, truthy,
}
use mathlib.Core.List.{append-nil, append_assoc}
use frame_oldbackend_public.Prelude.Timers.{without_timer, is_set}
use frame_oldbackend_public.Avatar.MovementServer.{
  not_a_number, number, LinkEffect, opened, waits, Link, new_link, clear_timeout,
  get_regional_movement_server, on_timeout, connect_regional_movement_server, on_open, on_close,
}

-- The timer that was set last fires, so many times.
abbrev pub fire_times : ℕ → Link → Link
unfolding on_timeout
fire_times zero l = l
fire_times (suc n) l = elim l.get_movement_server_timeout [
  | none ↦ l
  | some t ↦ fire_times n (on_timeout t l)
]

-- So many waits of five seconds.
abbrev pub waits_of : ℕ → List LinkEffect
waits_of zero = []
waits_of (suc n) = waits 5000 ∷ waits_of n

-- Between two timers: no connection, no attempt counted, and one timer, which is the one on record.
abbrev pub IsWaiting : ℕ → Link → Type 0
IsWaiting t l =
    (l.is_open ≡ false)
    × (l.movement_server_connection_attempt ≡ number 0)
    × (l.get_movement_server_timeout ≡ some t)
    × (l.timers ≡ t ∷ [])

on_timeout-IsWaiting :
    (t : ℕ) (l : Link)
    → IsWaiting t l
    → IsWaiting l.next_timer (on_timeout t l)
      × ((on_timeout t l).trace ≡ l.trace ++ (waits 5000 ∷ []))
unfolding on_timeout is_set without_timer clear_timeout get_regional_movement_server
on_timeout-IsWaiting t l waiting = let timers = waiting.3 in ground arith

fire_times-IsWaiting :
    (n t : ℕ) (l : Link)
    → IsWaiting t l
    → (t' : ℕ) × IsWaiting t' (fire_times n l) × ((fire_times n l).trace ≡ l.trace ++ waits_of n)
unfolding fire_times
fire_times-IsWaiting zero t l waiting = (t, waiting, sym (append-nil l.trace))
fire_times-IsWaiting (suc n) t l waiting =
    let (again, said) = on_timeout-IsWaiting t l waiting in
    let (t', waits', trace) = fire_times-IsWaiting n l.next_timer (on_timeout t l) again in
    rw (fire_times, waiting.2)
      (
        t',
        waits',
        trace
            ∙ ap (λ e. e ++ waits_of n) said
            ∙ append_assoc l.trace (waits 5000 ∷ []) (waits_of n),
      )

-- The first websocket to a movement server closes before it has opened: nothing is tried again, and
-- the user is not told.
pub first_close-silent :
    (host : String) (room : Option String)
    → truthy (some host) ≡ true
    → let l = on_close false 0 (connect_regional_movement_server (some host) room new_link) in
      (l.timers ≡ [])
      × (l.movement_server_connection_attempt ≡ not_a_number)
      × (l.trace ≡ opened host room ∷ [])
unfolding on_close connect_regional_movement_server
first_close-silent host room h = ground arith

closed_again :
    (s : ℕ) (l : Link)
    → l.movement_transport ≡ some s
    → l.timers ≡ []
    → let l' = on_close false s (on_open s l) in
      IsWaiting l.next_timer l' × (l'.trace ≡ l.trace ++ (waits 5000 ∷ []))
unfolding on_open on_close clear_timeout get_regional_movement_server without_timer
closed_again s l current idle = ground arith

-- The websocket to the movement server opens and closes uncleanly, and the timer that is then set fires
-- any number of times: every time there is only another wait of five seconds. No websocket is opened,
-- no attempt is counted, and the user is never told.
pub fire_times-waits :
    (n s : ℕ) (l : Link)
    → l.movement_transport ≡ some s
    → l.timers ≡ []
    → let l' = fire_times n (on_close false s (on_open s l)) in
      (t : ℕ) × IsWaiting t l' × (l'.trace ≡ l.trace ++ waits_of (suc n))
fire_times-waits n s l current idle =
    let (waiting, said) = closed_again s l current idle in
    let (t, again, trace) =
      fire_times-IsWaiting n l.next_timer (on_close false s (on_open s l)) waiting in
    (
      t,
      again,
      trace ∙ ap (λ e. e ++ waits_of n) said ∙ append_assoc l.trace (waits 5000 ∷ []) (waits_of n),
    )
