-- ===== src/PeerConnectionManager/Statistics.antt =====
-- frame/libs/peerConnectionManager.ts: the timers of `beginSendingStats` and `endSendingStats`.
use frame_oldbackend_public.Prelude.{
  ℕ, suc, true, false, ◌≡◌, refl, some, ◌∷◌, arith, if◌then◌else◌, Bool-cases, ap, ◌∙◌,
}
use frame_oldbackend_public.Prelude.Timers.{
  without_timer, is_set, AreOld, AreOld-suc, without_timer-old, is_set-old,
}
use frame_oldbackend_public.State.{State}
use frame_oldbackend_public.PeerConnectionManager.Command.{send_stats, stop_stats, fire_timer}

-- The fields for the timers after one round.
abbrev IsRound : State → State → Type 0
IsRound s t =
    (t.timers ≡ s.next_timer ∷ s.timers)
    × (t.stats_timeout ≡ some s.next_timer)
    × (t.next_timer ≡ suc s.next_timer)

send_stats-IsRound : (s : State) → IsRound s (send_stats s)
unfolding send_stats
send_stats-IsRound s = ground (arith, Bool-cases s.has_ipc)

stop_stats-timers :
    (s : State) (t : ℕ)
    → s.stats_timeout ≡ some t
    → (stop_stats s).timers ≡ without_timer t s.timers
unfolding stop_stats
stop_stats-timers s t e = rw (e, stop_stats) refl

stopped :
    (s t : State) → AreOld s.next_timer s.timers → IsRound s t → (stop_stats t).timers ≡ s.timers
unfolding without_timer
stopped s t old (timers, timeout, next) =
    rw (stop_stats-timers t s.next_timer timeout, timers) ground
      (arith, without_timer-old s.next_timer s.timers old)

round-AreOld :
    (s t : State) → AreOld s.next_timer s.timers → IsRound s t → AreOld t.next_timer t.timers
round-AreOld s t old (timers, timeout, next) =
    rw (next, timers) (omega arith, AreOld-suc s.next_timer s.timers old)

unset-fire : (t : ℕ) (s : State) → is_set t s.timers ≡ false → fire_timer t s ≡ s
unfolding fire_timer
unset-fire t s e = rw (e, if◌then◌else◌) refl

set-fire :
    (t : ℕ) (s : State)
    → is_set t s.timers ≡ true
    → fire_timer t s ≡ send_stats (record s { timers = without_timer t s.timers })
unfolding fire_timer
set-fire t s e = rw (e, if◌then◌else◌) refl

-- The statistics that begin and then end, where every timer that was set is older than the next
-- one, leave the timers as they were, and the timer that the beginning had set does nothing.
pub stop-send :
    (s : State)
    → AreOld s.next_timer s.timers
    → ((stop_stats (send_stats s)).timers ≡ s.timers)
      × (fire_timer s.next_timer (stop_stats (send_stats s)) ≡ stop_stats (send_stats s))
stop-send s old =
    let timers = stopped s (send_stats s) old (send_stats-IsRound s) in
    (
      timers,
      unset-fire s.next_timer (stop_stats (send_stats s))
          (rw timers (is_set-old s.next_timer s.timers old)),
    )

-- The statistics begin twice and end once, where every timer that was set is older than the next
-- one: the timer of the first beginning is still set, and when it fires the next round begins.
pub stop-send_twice :
    (s : State)
    → AreOld s.next_timer s.timers
    → let s' = stop_stats (send_stats (send_stats s)) in
      (s'.timers ≡ s.next_timer ∷ s.timers)
      × (fire_timer s.next_timer s' ≡ send_stats (record s' { timers = s.timers }))
unfolding is_set without_timer
stop-send_twice s old =
    let (timers, timeout, next) = send_stats-IsRound s in
    let left =
      stopped (send_stats s) (send_stats (send_stats s))
        (round-AreOld s (send_stats s) old (send_stats-IsRound s))
        (send_stats-IsRound (send_stats s))
      ∙ timers in
    (
      left,
      set-fire s.next_timer (stop_stats (send_stats (send_stats s))) (rw left ground arith)
          ∙ ap (λ ts. send_stats (record (stop_stats (send_stats (send_stats s))) { timers = ts }))
              (rw left ground (arith, without_timer-old s.next_timer s.timers old)),
    )
