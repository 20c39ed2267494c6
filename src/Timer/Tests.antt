-- ===== src/Timer/Tests.antt =====
-- A wheel with one timer that is due and one that is not.
use mathlib.Core.List.{Perm}
use lfgateway.Base.Reach.{here, next}
use lfgateway.Base.{ℕ, ◌≡◌, List, [], ◌∷◌, ◌++◌, none, arith}
use lfgateway.Timer.{TimerWheel, find, add_timer, cancel_timer, tick}
use lfgateway.Timer.Due.{live, callbacks}
use lfgateway.Timer.Spec.{Call, calls, all_promised, Implements, calls-promised}
use lfgateway.Timer.Reached.{Reach, adds, cancels, timer_wheel, reached-runs_due}

abbrev with_timers : TimerWheel
with_timers = (add_timer 3 3 90 8 (add_timer 2 2 15 7 (timer_wheel 10 4)).1).1

two_timers : Reach (timer_wheel 10 4) with_timers
two_timers = next (next here (adds 2 2 15 7)) (adds 3 3 90 8)

abbrev after_cancel : TimerWheel
after_cancel = cancel_timer 2 with_timers

one_timer : Reach (timer_wheel 10 4) after_cancel
one_timer = next two_timers (cancels 2)

reached-runs_due_example :
    let (ran, after) = tick 50 after_cancel in
    ((j : ℕ) → find j after.timers ≡ live 50 (find j after_cancel.timers))
    × Perm (ran ++ callbacks after.timers) (callbacks after_cancel.timers)
reached-runs_due_example = reached-runs_due 10 4 50 (omega arith) one_timer

-- Two timers are added, one is cancelled, and the other is due at the tick.
abbrev some_calls : List Call
some_calls = Call.adds 100 101 50 7 ∷ Call.adds 100 100 10 8 ∷ Call.cancels 2 ∷ Call.ticks 200 ∷ []

calls-promised_example :
    Implements
      (calls some_calls (timer_wheel 10 4))
      (all_promised some_calls (record { pending = λ j. none; next_id = 1 }))
calls-promised_example =
    calls-promised 10 4 some_calls (omega arith) (omega arith)
      (omega arith, (omega arith, (omega arith, tt)))
