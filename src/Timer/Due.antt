-- ===== src/Timer/Due.antt =====
-- What a tick runs and what it leaves.
use lfgateway.Base.{
  ℕ, leb, ◌≡◌, refl, inl, inr, Bool, true, false, ◌||◌, ◌==◌, List, [], ◌∷◌, ◌++◌, Option, none,
  some, if◌then◌else◌, arith, Option-cases, Bool-cases, map,
}
use mathlib.Core.List.{Perm}
use mathlib.Core.List.Perm
use lfgateway.Timer.{TimerEntry, find, erase, Ticked, tick_slot}

-- No identifier stands twice in the map.
abbrev pub IsKeyed : List (ℕ × TimerEntry) → Type 0
IsKeyed [] = Unit {0}
IsKeyed ((k, e) ∷ m) = (find k m ≡ none) × IsKeyed m

abbrev pub occurs : ℕ → List ℕ → Bool
occurs id [] = false
occurs id (k ∷ ks) = k == id || occurs id ks

abbrev pub scheduled : ℕ → List (List ℕ) → Bool
scheduled id [] = false
scheduled id (s ∷ ss) = occurs id s || scheduled id ss

-- A timer, unless it is due.
abbrev pub live : ℕ → Option TimerEntry → Option TimerEntry
live now none = none
live now (some e) = if leb e.expiration now then none else some e

abbrev pub callbacks : List (ℕ × TimerEntry) → List ℕ
callbacks = map (λ (p : ℕ × TimerEntry). p.1.cb)

pub find-erase :
    (id j : ℕ) (m : List (ℕ × TimerEntry))
    → IsKeyed m
    → find j (erase id m) ≡ (if id == j then none else find j m)
unfolding find erase
find-erase id j [] h = ground arith
find-erase id j ((k, e) ∷ m) (new, h) = ground (arith, find-erase id j m h)

pub find-erase_other :
    (id j : ℕ) (m : List (ℕ × TimerEntry)) → find j m ≡ none → find j (erase id m) ≡ none
unfolding find erase
find-erase_other id j [] h = refl
find-erase_other id j ((k, e) ∷ m) h = ground (arith, find-erase_other id j m)

pub erase-IsKeyed : (id : ℕ) (m : List (ℕ × TimerEntry)) → IsKeyed m → IsKeyed (erase id m)
unfolding erase
erase-IsKeyed id [] h = tt
erase-IsKeyed id ((k, e) ∷ m) (new, h) = elim (Bool-cases (k == id)) [
  | inl same ↦ rw same h
  | inr other ↦ rw other (find-erase_other id k m new, erase-IsKeyed id m h)
]

erase-callbacks :
    (id : ℕ) (m : List (ℕ × TimerEntry)) (e : TimerEntry)
    → find id m ≡ some e
    → Perm (e.cb ∷ callbacks (erase id m)) (callbacks m)
unfolding find erase
erase-callbacks id [] e h = absurd (ground arith)
erase-callbacks id ((k, x) ∷ m) e h = elim (Bool-cases (k == id)) [
  | inl same ↦ let found : x ≡ e = ground arith in rw (same, found) (Perm.refl (e.cb ∷ callbacks m))
  | inr other ↦
      let deeper : find id m ≡ some e = ground arith in
      rw other (
        Perm.trans (Perm.swap x.cb e.cb (callbacks (erase id m)))
          (Perm.cons x.cb (erase-callbacks id m e deeper)))
]

pub tick_slot-gone :
    (now id : ℕ) (ids : List ℕ) (ts : List (ℕ × TimerEntry))
    → find id ts ≡ none
    → tick_slot now (id ∷ ids) ts ≡ tick_slot now ids ts
unfolding tick_slot
tick_slot-gone now id ids ts h = rw (h, tick_slot) refl

pub tick_slot-due :
    (now id : ℕ) (ids : List ℕ) (ts : List (ℕ × TimerEntry)) (e : TimerEntry)
    → find id ts ≡ some e
    → leb e.expiration now ≡ true
    → tick_slot now (id ∷ ids) ts
      ≡ (let due = tick_slot now ids (erase id ts) in record due { ran = e.cb ∷ due.ran })
unfolding tick_slot
tick_slot-due now id ids ts e h k = ground (arith, h, k)

pub tick_slot-later :
    (now id : ℕ) (ids : List ℕ) (ts : List (ℕ × TimerEntry)) (e : TimerEntry)
    → find id ts ≡ some e
    → leb e.expiration now ≡ false
    → tick_slot now (id ∷ ids) ts
      ≡ (let later = tick_slot now ids ts in record later { slot = id ∷ later.slot })
unfolding tick_slot
tick_slot-later now id ids ts e h k = ground (arith, h, k)

-- What one slot does to the map, seen through each identifier.
abbrev pub SlotTicked : ℕ → List ℕ → List (ℕ × TimerEntry) → Ticked → Type 0
SlotTicked now ids ts t =
    IsKeyed t.timers
    × Perm (t.ran ++ callbacks t.timers) (callbacks ts)
    × ((j : ℕ) → find j t.timers ≡ (if occurs j ids then live now (find j ts) else find j ts))

pub tick_slot-lem :
    (now : ℕ) (ids : List ℕ) (ts : List (ℕ × TimerEntry))
    → IsKeyed ts
    → SlotTicked now ids ts (tick_slot now ids ts)
tick_slot-lem now [] ts h = unfold tick_slot in (h, Perm.refl (callbacks ts), λ j. refl)
tick_slot-lem now (id ∷ ids) ts h = elim (Option-cases (find id ts)) [
  | inl e ↦
      let (keyed, same, rest) = tick_slot-lem now ids ts h in
      rw (tick_slot-gone now id ids ts e) (keyed, same, λ j. ground (arith, e, rest j))
  | inr (x, e) ↦ elim (Bool-cases (leb x.expiration now)) [
    | inl due ↦
        let (keyed, same, rest) = tick_slot-lem now ids (erase id ts) (erase-IsKeyed id ts h) in
        rw (tick_slot-due now id ids ts x e due) (
          keyed,
          Perm.trans (Perm.cons x.cb same) (erase-callbacks id ts x e),
          λ j. ground (arith, e, due, rest j, find-erase id j ts h),
        )
    | inr later ↦
        let (keyed, same, rest) = tick_slot-lem now ids ts h in
        rw (tick_slot-later now id ids ts x e later)
          (keyed, same, λ j. ground (arith, e, later, rest j))
  ]
]
