-- ===== src/Timer/Tick.antt =====
-- A whole tick.
use mathlib.Core.List.{Perm}
use mathlib.Core.List.Perm
use lfgateway.Base.{
  ℕ, ◌≡◌, refl, ◌∙◌, inl, inr, true, ◌||◌, List, [], ◌∷◌, ◌++◌, append_assoc, Option, none, some,
  if◌then◌else◌, arith, Option-cases, take, drop, take-append-drop,
}
use lfgateway.Timer.{TimerEntry, find, TimerWheel, tick_slot, tick_slots, tick}
use lfgateway.Timer.Due.{IsKeyed, scheduled, live, callbacks, tick_slot-lem}

live_twice : (now : ℕ) (o : Option TimerEntry) → live now (live now o) ≡ live now o
live_twice now none = refl
live_twice now (some e) = ground arith

-- What the slots do to the map together.
abbrev pub SlotsTicked :
    ℕ
    → List (List ℕ)
    → List (ℕ × TimerEntry)
    → List (List ℕ) × List (ℕ × TimerEntry) × List ℕ
    → Type 0
SlotsTicked now ss ts (slots, left, ran) =
    IsKeyed left
    × Perm (ran ++ callbacks left) (callbacks ts)
    × ((j : ℕ) → find j left ≡ (if scheduled j ss then live now (find j ts) else find j ts))

pub tick_slots-lem :
    (now : ℕ) (ss : List (List ℕ)) (ts : List (ℕ × TimerEntry))
    → IsKeyed ts
    → SlotsTicked now ss ts (tick_slots now ss ts)
unfolding tick_slots
tick_slots-lem now [] ts h = (h, Perm.refl (callbacks ts), λ j. refl)
tick_slots-lem now (s ∷ ss) ts h =
    let t = tick_slot now s ts in
    let (keyed, first, one) = tick_slot-lem now s ts h in
    let (slots, left, ran) = tick_slots now ss t.timers in
    let (keyed_left, others, rest) = tick_slots-lem now ss t.timers keyed in
    (
      keyed_left,
      rw (append_assoc t.ran ran (callbacks left))
          (Perm.trans (Perm.append_left t.ran others) first),
      λ j. ground (arith, rest j, one j, live_twice now (find j ts)),
    )

scheduled-append :
    (j : ℕ) (xs ys : List (List ℕ)) → scheduled j (xs ++ ys) ≡ (scheduled j xs || scheduled j ys)
scheduled-append j [] ys = refl
scheduled-append j (s ∷ xs) ys = ground (arith, scheduled-append j xs ys)

pub scheduled-rotate :
    (j n : ℕ) (ss : List (List ℕ)) → scheduled j (drop n ss ++ take n ss) ≡ scheduled j ss
scheduled-rotate j n ss = ground (
  arith,
  scheduled-append j (drop n ss) (take n ss),
  scheduled-append j (take n ss) (drop n ss),
  take-append-drop n ss,
)

-- The identifiers are different, and each timer's stands in a slot.
pub record IsWound (w : TimerWheel) : Type 0 where
  pub keyed : IsKeyed w.timers
  pub placed : (j : ℕ) (e : TimerEntry) → find j w.timers ≡ some e → scheduled j w.wheel ≡ true

-- A tick takes out exactly the timers that are due, whatever slot they stand in and however late
-- the tick comes, and runs the callback of each timer that it takes out, once.
pub tick-runs_due :
    (now : ℕ) (w : TimerWheel)
    → IsWound w
    → let (ran, after) = tick now w in
      ((j : ℕ) → find j after.timers ≡ live now (find j w.timers))
      × Perm (ran ++ callbacks after.timers) (callbacks w.timers)
unfolding tick
tick-runs_due now w i =
    let ss = drop w.current_index w.wheel ++ take w.current_index w.wheel in
    let (keyed, same, each) = tick_slots-lem now ss w.timers i.keyed in
    (
      (λ j. elim (Option-cases (find j w.timers)) [
        | inl e ↦ ground (arith, each j, e)
        | inr (x, e) ↦
            let place = scheduled-rotate j w.current_index w.wheel ∙ i.placed j x e in
            ground (arith, each j, e, place)
      ]),
      same,
    )
