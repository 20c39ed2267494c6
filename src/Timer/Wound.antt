-- ===== src/Timer/Wound.antt =====
-- The operations keep a wheel wound.
use native.Mathlib.Nat.{mod-lt}
use lfgateway.Base.{
  ℕ, zero, suc, ◌+◌, ◌-◌, ◌/◌, ◌%◌, ◌<◌, leb, ◌≡◌, refl, ap, ◌∙◌, inl, inr, true, ◌==◌, List, [],
  ◌∷◌, ◌++◌, some, arith, Option-cases, Bool-cases, take, drop, length, length-append,
  take-append-drop,
}
use lfgateway.Timer.{
  TimerEntry, find, erase, TimerWheel, push_at, schedule, add_timer, cancel_timer, tick_slot,
  tick_slots, tick,
}
use lfgateway.Timer.Due.{
  IsKeyed, occurs, scheduled, find-erase, erase-IsKeyed, tick_slot-gone, tick_slot-due,
  tick_slot-later, tick_slot-lem,
}
use lfgateway.Timer.Tick.{IsWound, tick_slots-lem, scheduled-rotate}

occurs-last : (id : ℕ) (l : List ℕ) → occurs id (l ++ id ∷ []) ≡ true
occurs-last id [] = ground arith
occurs-last id (k ∷ l) = ground (arith, occurs-last id l)

occurs-append : (j : ℕ) (l : List ℕ) (id : ℕ) → occurs j l ≡ true → occurs j (l ++ id ∷ []) ≡ true
occurs-append j [] id h = absurd (ground arith)
occurs-append j (k ∷ l) id h = ground (arith, occurs-append j l id)

push_at-scheduled :
    (i id : ℕ) (ss : List (List ℕ)) → i < length ss → scheduled id (push_at i id ss) ≡ true
push_at-scheduled i id [] h = absurd (omega arith)
push_at-scheduled zero id (s ∷ ss) h = ground (arith, occurs-last id s)
push_at-scheduled (suc i) id (s ∷ ss) h = ground (arith, push_at-scheduled i id ss (omega arith))

push_at-keeps :
    (i id j : ℕ) (ss : List (List ℕ)) → scheduled j ss ≡ true → scheduled j (push_at i id ss) ≡ true
push_at-keeps i id j [] h = absurd (ground arith)
push_at-keeps zero id j (s ∷ ss) h = ground (arith, occurs-append j s id)
push_at-keeps (suc i) id j (s ∷ ss) h = ground (arith, push_at-keeps i id j ss)

length-push_at : (i id : ℕ) (ss : List (List ℕ)) → length (push_at i id ss) ≡ length ss
length-push_at zero id [] = refl
length-push_at (suc i) id [] = refl
length-push_at zero id (s ∷ ss) = refl
length-push_at (suc i) id (s ∷ ss) = ap suc (length-push_at i id ss)

-- A wound wheel has a slot for each place.
pub record IsReady (w : TimerWheel) : Type 0 where
  pub wound : IsWound w
  pub sized : length w.wheel ≡ w.wheel_size
  pub some_slot : 0 < w.wheel_size

pub add-IsReady :
    (now later delay_ms cb : ℕ) (w : TimerWheel)
    → IsReady w
    → IsReady (add_timer now later delay_ms cb w).1
unfolding add_timer schedule find
add-IsReady now later delay_ms cb w i =
    let place = (w.current_index + (now + delay_ms - later) / w.tick_ms) % w.wheel_size in
    let inside : place < w.wheel_size =
      mod-lt (w.current_index + (now + delay_ms - later) / w.tick_ms) i.some_slot in
    record {
      wound = record {
        keyed = (
          ground (arith, find-erase w.next_id w.next_id w.timers i.wound.keyed),
          erase-IsKeyed w.next_id w.timers i.wound.keyed,
        );
        placed = λ j e h. elim (Bool-cases (w.next_id == j)) [
          | inl same ↦
              let number : w.next_id ≡ j = ground arith in
              rw (← number)
                (push_at-scheduled place w.next_id w.wheel (omega (arith, i.sized, inside)))
          | inr other ↦ push_at-keeps place w.next_id j w.wheel (
              i.wound.placed j e
                (ground (arith, other, h, find-erase w.next_id j w.timers i.wound.keyed)))
        ];
      };
      sized = length-push_at place w.next_id w.wheel ∙ i.sized;
      some_slot = i.some_slot;
    }

pub cancel-IsReady : (id : ℕ) (w : TimerWheel) → IsReady w → IsReady (cancel_timer id w)
unfolding cancel_timer
cancel-IsReady id w i = record {
  wound = record {
    keyed = erase-IsKeyed id w.timers i.wound.keyed;
    placed =
        λ j e h. i.wound.placed j e (ground (arith, h, find-erase id j w.timers i.wound.keyed));
  };
  sized = i.sized;
  some_slot = i.some_slot;
}

-- A timer that is left after a slot was gone through still stands in it, if it stood there.
tick_slot-keeps :
    (now j : ℕ) (e : TimerEntry) (ids : List ℕ) (ts : List (ℕ × TimerEntry))
    → IsKeyed ts
    → find j (tick_slot now ids ts).timers ≡ some e
    → occurs j ids ≡ true
    → occurs j (tick_slot now ids ts).slot ≡ true
tick_slot-keeps now j e [] ts k h o = absurd (ground arith)
tick_slot-keeps now j e (id ∷ ids) ts k h o = elim (Option-cases (find id ts)) [
  | inl gone ↦
      let (keyed, same, each) = tick_slot-lem now ids ts k in
      let step = tick_slot-gone now id ids ts gone in
      ground (arith, step, h, o, gone, each j, tick_slot-keeps now j e ids ts k)
  | inr (x, found) ↦ elim (Bool-cases (leb x.expiration now)) [
    | inl due ↦
        let rest = erase-IsKeyed id ts k in
        let (keyed, same, each) = tick_slot-lem now ids (erase id ts) rest in
        let step = tick_slot-due now id ids ts x found due in
        ground (
          arith,
          step,
          h,
          o,
          each j,
          find-erase id j ts k,
          tick_slot-keeps now j e ids (erase id ts) rest,
        )
    | inr later ↦
        let step = tick_slot-later now id ids ts x found later in
        ground (arith, step, h, o, tick_slot-keeps now j e ids ts k)
  ]
]

tick_slots-keeps :
    (now j : ℕ) (e : TimerEntry) (ss : List (List ℕ)) (ts : List (ℕ × TimerEntry))
    → IsKeyed ts
    → find j (tick_slots now ss ts).1 ≡ some e
    → scheduled j ss ≡ true
    → scheduled j (tick_slots now ss ts).0 ≡ true
unfolding tick_slots
tick_slots-keeps now j e [] ts k h o = absurd (ground arith)
tick_slots-keeps now j e (s ∷ ss) ts k h o =
    let t = tick_slot now s ts in
    let (keyed, same, each) = tick_slot-lem now s ts k in
    let (keyed_left, same_left, each_left) = tick_slots-lem now ss t.timers keyed in
    elim (Option-cases (find j t.timers)) [
      | inl gone ↦ absurd (ground (arith, each_left j, gone, h))
      | inr (x, found) ↦ ground (
        arith,
        o,
        h,
        tick_slot-keeps now j x s ts k found,
        tick_slots-keeps now j e ss t.timers keyed h,
      )
    ]

length-tick_slots :
    (now : ℕ) (ss : List (List ℕ)) (ts : List (ℕ × TimerEntry))
    → length (tick_slots now ss ts).0 ≡ length ss
unfolding tick_slots
length-tick_slots now [] ts = refl
length-tick_slots now (s ∷ ss) ts = ap suc (length-tick_slots now ss (tick_slot now s ts).timers)

length-rotate : (n : ℕ) (ss : List (List ℕ)) → length (drop n ss ++ take n ss) ≡ length ss
length-rotate n ss = omega (
  arith,
  length-append (drop n ss) (take n ss),
  length-append (take n ss) (drop n ss),
  ap length (take-append-drop n ss),
)

pub tick-IsReady : (now : ℕ) (w : TimerWheel) → IsReady w → IsReady (tick now w).1
unfolding tick
tick-IsReady now w i =
    let ss = drop w.current_index w.wheel ++ take w.current_index w.wheel in
    let slots = (tick_slots now ss w.timers).0 in
    let n = length w.wheel - w.current_index in
    let (keyed, same, each) = tick_slots-lem now ss w.timers i.wound.keyed in
    record {
      wound = record {
        keyed = keyed;
        placed = λ j e h.
            scheduled-rotate j n slots
            ∙ tick_slots-keeps now j e ss w.timers i.wound.keyed h
                (elim (Option-cases (find j w.timers)) [
                  | inl gone ↦ absurd (ground (arith, each j, gone, h))
                  | inr (x, found) ↦
                      scheduled-rotate j w.current_index w.wheel ∙ i.wound.placed j x found
                ]);
      };
      sized =
          length-rotate n slots
          ∙ length-tick_slots now ss w.timers
          ∙ length-rotate w.current_index w.wheel
          ∙ i.sized;
      some_slot = i.some_slot;
    }
