-- ===== src/Timer.antt =====
-- `TimerWheel` (include/timer/timer.hpp). A callback is a number, and what it does is not modelled:
-- it must leave the wheel alone, since `tick` runs it while it goes through a slot.
pub mod Due
pub mod Tick
pub mod Wound
pub mod Reached
pub mod Spec
mod Tests
use lfgateway.Base.{
  ℕ, zero, suc, ◌+◌, ◌-◌, ◌/◌, ◌%◌, ◌^◌, leb, Bool, true, false, ◌==◌, List, [], ◌∷◌, ◌++◌, Option,
  none, some, if◌then◌else◌, take, drop, length,
}

-- `expiration` in milliseconds since the epoch.
pub record TimerEntry : Type 0 where
  pub expiration : ℕ
  pub cb : ℕ

-- The map of the timers by their identifiers.
unfoldable pub find : ℕ → List (ℕ × TimerEntry) → Option TimerEntry
find id [] = none
find id ((k, e) ∷ m) = if k == id then some e else find id m

unfoldable pub erase : ℕ → List (ℕ × TimerEntry) → List (ℕ × TimerEntry)
erase id [] = []
erase id ((k, e) ∷ m) = if k == id then m else (k, e) ∷ erase id m

pub record TimerWheel : Type 0 where
  pub tick_ms : ℕ
  pub wheel_size : ℕ
  pub current_index : ℕ
  pub wheel : List (List ℕ)
  pub timers : List (ℕ × TimerEntry)
  pub next_id : ℕ

-- `wheel_[idx].push_back(id)`
abbrev pub push_at : ℕ → ℕ → List (List ℕ) → List (List ℕ)
push_at zero id [] = []
push_at zero id (slot ∷ ss) = (slot ++ id ∷ []) ∷ ss
push_at (suc i) id [] = []
push_at (suc i) id (slot ∷ ss) = slot ∷ push_at i id ss

-- `now` is the clock at this second reading; a delay below 0 counts as 0. The code divides by `tick_ms_`,
-- which must not be 0, and adds in `int64_t`, which must not overflow.
unfoldable pub schedule : ℕ → ℕ → ℕ → TimerWheel → TimerWheel
schedule now id expires w =
    let delay = expires - now in
    record w { wheel = push_at ((w.current_index + delay / w.tick_ms) % w.wheel_size) id w.wheel }

-- With the clock's two readings; the delay is not negative. The identifier is returned.
unfoldable pub add_timer : ℕ → ℕ → ℕ → ℕ → TimerWheel → ℕ × TimerWheel
unfolding schedule
add_timer now later delay_ms cb w =
    let expires = now + delay_ms in
    (
      w.next_id,
      schedule later w.next_id expires (record w {
        next_id = (w.next_id + 1) % 2 ^ 64;
        timers = (w.next_id, record { expiration = expires; cb = cb }) ∷ erase w.next_id w.timers;
      }),
    )

unfoldable pub cancel_timer : ℕ → TimerWheel → TimerWheel
unfolding erase
cancel_timer id w = record w { timers = erase id w.timers }

-- A slot after `tick`, the timers that are left, and the callbacks that ran.
pub record Ticked : Type 0 where
  pub slot : List ℕ
  pub timers : List (ℕ × TimerEntry)
  pub ran : List ℕ

unfoldable pub tick_slot : ℕ → List ℕ → List (ℕ × TimerEntry) → Ticked
unfolding find erase
tick_slot now [] ts = record { slot = []; timers = ts; ran = [] }
tick_slot now (id ∷ ids) ts = elim (find id ts) [
  | none ↦ tick_slot now ids ts
  | some e ↦
      let due = tick_slot now ids (erase id ts) in
      let later = tick_slot now ids ts in
      if leb e.expiration now
      then record due { ran = e.cb ∷ due.ran }
      else record later { slot = id ∷ later.slot }
]

-- The slots from one on, in the order of the wheel.
unfoldable pub tick_slots :
    ℕ → List (List ℕ) → List (ℕ × TimerEntry) → List (List ℕ) × List (ℕ × TimerEntry) × List ℕ
unfolding tick_slot
tick_slots now [] ts = ([], ts, [])
tick_slots now (s ∷ ss) ts =
    let t = tick_slot now s ts in
    let (rest, us, ran) = tick_slots now ss t.timers in (t.slot ∷ rest, us, t.ran ++ ran)

-- The slots are visited from the current one on, and all of them once.
unfoldable pub tick : ℕ → TimerWheel → List ℕ × TimerWheel
unfolding tick_slots
tick now w =
    let (slots, left, ran) =
      tick_slots now (drop w.current_index w.wheel ++ take w.current_index w.wheel) w.timers in
    let n = length w.wheel - w.current_index in
    (
      ran,
      record w {
        wheel = drop n slots ++ take n slots;
        timers = left;
        current_index = (w.current_index + 1) % w.wheel_size;
      },
    )
