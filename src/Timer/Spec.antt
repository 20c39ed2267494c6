-- ===== src/Timer/Spec.antt =====
-- What the wheel promises, without its slots: identifiers with an expiration and a callback.
use lfgateway.Base.{
  ℕ, ◌+◌, ◌%◌, ◌^◌, ◌<◌, ◌≡◌, refl, ap, ◌∙◌, ◌==◌, List, [], ◌∷◌, Option, none, some, if◌then◌else◌,
  arith,
}
use lfgateway.Timer.{TimerEntry, TimerWheel, find, schedule, add_timer, cancel_timer, tick}
use lfgateway.Timer.Due.{live, find-erase}
use lfgateway.Timer.Tick.{tick-runs_due}
use lfgateway.Timer.Wound.{IsReady, add-IsReady, cancel-IsReady, tick-IsReady}
use lfgateway.Timer.Reached.{timer_wheel, timer_wheel-IsReady}

-- The pending timers by their identifiers, and the next identifier.
pub record Timers : Type 0 where
  pub pending : ℕ → Option TimerEntry
  pub next_id : ℕ

-- A call of the wheel's owner, with the readings of the clock.
pub data Call : Type 0 where
  adds : (now later delay_ms cb : ℕ) → Call
  cancels : (id : ℕ) → Call
  ticks : (now : ℕ) → Call

unfoldable pub call : Call → TimerWheel → TimerWheel
call (adds now later delay_ms cb) w = (add_timer now later delay_ms cb w).1
call (cancels id) w = cancel_timer id w
call (ticks now) w = (tick now w).1

unfoldable pub calls : List Call → TimerWheel → TimerWheel
calls [] w = w
calls (c ∷ cs) w = calls cs (call c w)

-- The expirations are values of `int64_t`.
abbrev pub AreInRange : List Call → Type 0
AreInRange [] = Unit {0}
AreInRange (adds now later delay_ms cb ∷ cs) = (now + delay_ms < 2 ^ 63) × AreInRange cs
AreInRange (cancels id ∷ cs) = AreInRange cs
AreInRange (ticks now ∷ cs) = (now < 2 ^ 63) × AreInRange cs

-- A call in the abstract: the second reading of the clock, the size of the wheel and the length of a
-- tick have no part in it.
abbrev pub promised : Call → Timers → Timers
promised (adds now later delay_ms cb) t = record {
  pending = λ j.
      if t.next_id == j
      then some (record { expiration = now + delay_ms; cb = cb })
      else t.pending j;
  next_id = (t.next_id + 1) % 2 ^ 64;
}
promised (cancels id) t = record t { pending = λ j. if id == j then none else t.pending j }
promised (ticks now) t = record t { pending = λ j. live now (t.pending j) }

abbrev pub all_promised : List Call → Timers → Timers
all_promised [] t = t
all_promised (c ∷ cs) t = all_promised cs (promised c t)

-- A wheel has the timers that it should have.
pub record Implements (w : TimerWheel) (t : Timers) : Type 0 where
  pub same : (j : ℕ) → find j w.timers ≡ t.pending j
  pub numbered : w.next_id ≡ t.next_id

call-IsReady : (c : Call) (w : TimerWheel) → IsReady w → IsReady (call c w)
unfolding call
call-IsReady (adds now later delay_ms cb) w i = add-IsReady now later delay_ms cb w i
call-IsReady (cancels id) w i = cancel-IsReady id w i
call-IsReady (ticks now) w i = tick-IsReady now w i

call-Implements :
    (c : Call) (w : TimerWheel) (t : Timers)
    → IsReady w
    → Implements w t
    → Implements (call c w) (promised c t)
unfolding call add_timer schedule cancel_timer find
call-Implements (adds now later delay_ms cb) w t i m = record {
  same = λ j. ground (arith, m.same j, m.numbered, find-erase w.next_id j w.timers i.wound.keyed);
  numbered = ground (arith, m.numbered);
}
call-Implements (cancels id) w t i m = record {
  same = λ j. ground (arith, m.same j, find-erase id j w.timers i.wound.keyed);
  numbered = m.numbered;
}
call-Implements (ticks now) w t i m = record {
  same = λ j. (tick-runs_due now w i.wound).0 j ∙ ap (live now) (m.same j);
  numbered = unfold tick in m.numbered;
}

calls-Implements :
    (cs : List Call) (w : TimerWheel) (t : Timers)
    → IsReady w
    → Implements w t
    → Implements (calls cs w) (all_promised cs t)
unfolding calls
calls-Implements [] w t i m = m
calls-Implements (c ∷ cs) w t i m =
    calls-Implements cs (call c w) (promised c t) (call-IsReady c w i) (call-Implements c w t i m)

-- The slots are invisible. After any calls on a new wheel with a slot at least, each identifier has the
-- timer, or none, that it has in the abstract, where adding stores the expiration, cancelling
-- forgets the timer and a tick forgets those that are due: neither the number of slots nor a length
-- of a tick above 0, nor the slot that the second reading of the clock chose, makes a difference, as long
-- as no expiration comes to 2 ^ 63.
pub calls-promised :
    (tick_ms wheel_size : ℕ) (cs : List Call)
    → 0 < tick_ms
    → 0 < wheel_size
    → AreInRange cs
    → Implements
        (calls cs (timer_wheel tick_ms wheel_size))
        (all_promised cs (record { pending = λ j. none; next_id = 1 }))
unfolding find
calls-promised tick_ms wheel_size cs divides h small =
    calls-Implements cs (timer_wheel tick_ms wheel_size) _
      (timer_wheel-IsReady tick_ms wheel_size h) (record { same = λ j. refl; numbered = refl })
