-- ===== src/Movement/Timer.antt =====
-- frame/webapp/core/movementProtocol.ts: `startSendingMovement`, `stopSendingMovement` and
-- `isSendingMovement`, and the timer between them.
use frame_oldbackend_public.Prelude.{
  ℕ, suc, Bool, true, false, ◌≡◌, refl, Option, none, some, List, [], ◌∷◌, arith, if◌then◌else◌,
}
use frame_oldbackend_public.Prelude.Timers.{
  without_timer, is_set, AreOld, without_timer-old, is_set-old,
}
use frame_oldbackend_public.Movement.Transport.{Transport, Sent, tick}

-- The transport with its timer: the one in `timerId`, those that are set, and the next one.
pub record Sender : Type 0 where
  pub transport : Transport
  pub timer_id : Option ℕ
  pub timers : List ℕ
  pub next_timer : ℕ

unfoldable pub start_sending : Sender → Sender
start_sending s = record s {
  timer_id = some s.next_timer;
  timers = s.next_timer ∷ s.timers;
  next_timer = suc s.next_timer;
}

unfoldable pub stop_sending : Sender → Sender
unfolding without_timer
stop_sending s = elim s.timer_id [
  | none ↦ s
  | some t ↦ record s { timers = without_timer t s.timers }
]

unfoldable pub is_sending : Sender → Bool
is_sending s = elim s.timer_id [ none ↦ false | some t ↦ true ]

-- A timer that is set fires, and sets the next one.
unfoldable pub fire : Bool → ℕ → Sender → Sender × List Sent
unfolding is_set without_timer tick start_sending
fire full t s =
    if is_set t s.timers
    then (
      start_sending
          (record s { transport = (tick full s.transport).0; timers = without_timer t s.timers }),
      (tick full s.transport).1,
    )
    else (s, [])

unset : (full : Bool) (t : ℕ) (s : Sender) → is_set t s.timers ≡ false → fire full t s ≡ (s, [])
unfolding fire
unset full t s e = rw (e, if◌then◌else◌) refl

cleared :
    (s : Sender) → AreOld s.next_timer s.timers → (stop_sending (start_sending s)).timers ≡ s.timers
unfolding stop_sending start_sending
cleared s old = ground (arith, without_timer-old s.next_timer s.timers old)

-- The sending starts, where every timer that was set is older than the next one, and stops: the
-- timers are as before, and the timer that the start had set sends nothing and changes nothing. Yet
-- `isSendingMovement` still answers true.
pub stop_sending-start_sending :
    (full : Bool) (s : Sender)
    → AreOld s.next_timer s.timers
    → let s' = stop_sending (start_sending s) in
      (s'.timers ≡ s.timers) × (fire full s.next_timer s' ≡ (s', [])) × (is_sending s' ≡ true)
unfolding stop_sending start_sending is_sending
stop_sending-start_sending full s old =
    let s' = stop_sending (start_sending s) in
    let same = cleared s old in
    (same, unset full s.next_timer s' (rw same (is_set-old s.next_timer s.timers old)), refl)
