-- ===== src/Timer/Reached.antt =====
-- A wheel over its whole life.
use mathlib.Core.List.{Perm}
use lfgateway.Base.Reach.{Steps, Steps-keep}
use lfgateway.Base.{ℕ, zero, suc, ◌<◌, ◌≡◌, refl, ap, [], ◌++◌, arith, length, replicate}
use lfgateway.Timer.{TimerWheel, find, add_timer, cancel_timer, tick}
use lfgateway.Timer.Due.{live, callbacks}
use lfgateway.Timer.Tick.{tick-runs_due}
use lfgateway.Timer.Wound.{IsReady, add-IsReady, cancel-IsReady, tick-IsReady}

-- A wheel as it is built, and what its owner does with it.
abbrev pub timer_wheel : ℕ → ℕ → TimerWheel
timer_wheel tick_ms wheel_size = record {
  tick_ms = tick_ms;
  wheel_size = wheel_size;
  current_index = 0;
  wheel = replicate wheel_size [];
  timers = [];
  next_id = 1;
}

pub data Step : TimerWheel → TimerWheel → Type 0 where
  adds : {w : TimerWheel} (now later delay_ms cb : ℕ) → Step w (add_timer now later delay_ms cb w).1
  cancels : {w : TimerWheel} (id : ℕ) → Step w (cancel_timer id w)
  ticks : {w : TimerWheel} (now : ℕ) → Step w (tick now w).1

abbrev pub Reach : TimerWheel → TimerWheel → Type 0
Reach = Steps Step

Step-IsReady : {u v : TimerWheel} → Step u v → IsReady u → IsReady v
Step-IsReady (adds {w} now later delay_ms cb) i = add-IsReady now later delay_ms cb w i
Step-IsReady (cancels {w} id) i = cancel-IsReady id w i
Step-IsReady (ticks {w} now) i = tick-IsReady now w i

Reach-IsReady : {u v : TimerWheel} → Reach u v → IsReady u → IsReady v
Reach-IsReady r i = Steps-keep IsReady (λ u v s p. Step-IsReady s p) r i

length-replicate {ℓ} : {A : Type ℓ} (n : ℕ) (a : A) → length (replicate n a) ≡ n
length-replicate zero a = refl
length-replicate (suc n) a = ap suc (length-replicate n a)

pub timer_wheel-IsReady :
    (tick_ms wheel_size : ℕ) → 0 < wheel_size → IsReady (timer_wheel tick_ms wheel_size)
timer_wheel-IsReady tick_ms wheel_size h = record {
  wound = record { keyed = tt; placed = λ j e k. absurd (unfold find in ground arith) };
  sized = length-replicate wheel_size [];
  some_slot = h;
}

-- Whatever timers were added to a wheel, cancelled and run before, and whatever the clock did, a
-- tick takes out exactly the timers that are due, in whatever slot they stand, and runs the
-- callback of each timer that it takes out, once.
pub reached-runs_due :
    (tick_ms wheel_size now : ℕ) {w : TimerWheel}
    → 0 < wheel_size
    → Reach (timer_wheel tick_ms wheel_size) w
    → let (ran, after) = tick now w in
      ((j : ℕ) → find j after.timers ≡ live now (find j w.timers))
      × Perm (ran ++ callbacks after.timers) (callbacks w.timers)
reached-runs_due tick_ms wheel_size now {w} h r =
    tick-runs_due now w (Reach-IsReady r (timer_wheel-IsReady tick_ms wheel_size h)).wound
