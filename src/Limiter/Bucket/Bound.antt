-- ===== src/Limiter/Bucket/Bound.antt =====
-- How many calls the bucket lets through.
use Prim.Native.Nat.{min}
use lfgateway.Base.{
  ℕ, suc, ◌+◌, ◌-◌, ◌*◌, ◌≤◌, ◌<◌, ◌≡◌, refl, ap, true, false, Option, none, some, List, [], ◌∷◌,
  arith, if◌then◌else◌, ltb, Bool-cases, inl, inr,
}
use lfgateway.Limiter.Bucket.{Bucket, script, Entry, eval, calls, after, count}

-- The count never passes the capacity.
pub script-tokens-le :
    (capacity rate now : ℕ) (b : Option Bucket)
    → (script capacity rate now b).0.tokens ≤ capacity * 1000
unfolding script
script-tokens-le capacity rate now none = ground arith
script-tokens-le capacity rate now (some b) = ground arith

-- Times of the gateway's clock that do not fall, from `t` on.
abbrev pub Rising : ℕ → List (ℕ × ℕ) → Type 0
Rising t [] = Unit {0}
Rising t ((u, server_now) ∷ us) = (t ≤ u) × Rising u us

-- The milliseconds that the refused calls had waited: each one's time less the stored time.
unfoldable pub refused_ms : ℕ → ℕ → Entry → List (ℕ × ℕ) → ℕ
refused_ms capacity rate e [] = 0
refused_ms capacity rate e ((now, server_now) ∷ ts) =
    let r = eval capacity rate now server_now (some e) in
    (if r.1 then 0 else now - e.bucket.last_time) + refused_ms capacity rate r.0 ts

-- How many of the calls find that the key has expired.
unfoldable pub resets : ℕ → ℕ → Entry → List (ℕ × ℕ) → ℕ
resets capacity rate e [] = 0
resets capacity rate e ((now, server_now) ∷ ts) =
    let r = eval capacity rate now server_now (some e) in
    (if ltb server_now e.expires then 0 else 1) + resets capacity rate r.0 ts

-- One call: what it takes out is covered by what was there and by the refill.
script_cost :
    (capacity rate now : ℕ) (b : Bucket)
    → b.last_time ≤ now
    → let r = script capacity rate now (some b) in
      (r.0.tokens + (if r.1 then 1000 else 0) ≤ b.tokens + (now - b.last_time) * rate)
      × (r.0.last_time ≡ (if r.1 then now else b.last_time))
unfolding script
script_cost capacity rate now b h = ground arith

-- A call that finds no key takes at most a full bucket.
script_reset :
    (capacity rate now : ℕ)
    → let r = script capacity rate now none in
      (r.0.tokens + (if r.1 then 1000 else 0) ≤ capacity * 1000) × (r.0.last_time ≡ now)
unfolding script
script_reset capacity rate now = ground arith

eval_live :
    (capacity rate now server_now : ℕ) (e : Entry)
    → ltb server_now e.expires ≡ true
    → eval capacity rate now server_now (some e) ≡ (
      record { bucket = (script capacity rate now (some e.bucket)).0; expires = server_now + 3000 },
      (script capacity rate now (some e.bucket)).1,
    )
unfolding eval
eval_live capacity rate now server_now e h = rw h refl

eval_gone :
    (capacity rate now server_now : ℕ) (e : Entry)
    → ltb server_now e.expires ≡ false
    → eval capacity rate now server_now (some e) ≡ (
      record { bucket = (script capacity rate now none).0; expires = server_now + 3000 },
      (script capacity rate now none).1,
    )
unfolding eval
eval_gone capacity rate now server_now e h = rw h refl

span : (l n rate : ℕ) → l ≤ n → (n - l) * rate + l * rate ≡ n * rate
span l n rate h = let e : n - l + l ≡ n = omega arith in omega (arith, ap (λ (t : ℕ). t * rate) e)

-- One call of the whole script, by what it found.
eval_cost :
    (capacity rate now server_now : ℕ) (e : Entry)
    → e.bucket.last_time ≤ now
    → let r = eval capacity rate now server_now (some e) in
      (r.0.bucket.last_time ≤ now)
      × (r.0.bucket.tokens + (if r.1 then 1000 else 0) + e.bucket.last_time * rate
          ≤ e.bucket.tokens
            + r.0.bucket.last_time * rate
            + (if r.1 then 0 else now - e.bucket.last_time) * rate
            + (if ltb server_now e.expires then 0 else 1) * (capacity * 1000))
eval_cost capacity rate now server_now e h = elim (Bool-cases (ltb server_now e.expires)) [
  | inl live ↦
      let s = script capacity rate now (some e.bucket) in
      let cost = script_cost capacity rate now e.bucket h in
      elim (Bool-cases s.1) [
        | inl taken ↦
            rw (eval_live capacity rate now server_now e live, live)
              (ground (arith, span e.bucket.last_time now rate h))
        | inr refused ↦
            rw (eval_live capacity rate now server_now e live, live)
              (ground (arith, span e.bucket.last_time now rate h))
      ]
  | inr gone ↦
      let s = script capacity rate now none in
      let cost = script_reset capacity rate now in
      elim (Bool-cases s.1) [
        | inl taken ↦
            rw (eval_gone capacity rate now server_now e gone, gone)
              (ground (arith, span e.bucket.last_time now rate h))
        | inr refused ↦
            rw (eval_gone capacity rate now server_now e gone, gone)
              (ground (arith, span e.bucket.last_time now rate h))
      ]
]

-- Over any calls at times that do not fall, the tokens handed out and the tokens left are at most
-- the tokens at the start, the refill over the time between the stored times, the refill for the
-- time that refused calls had waited, which the script credits again, and one full bucket for
-- each call that finds that the key has expired.
pub calls_bound :
    (capacity rate : ℕ) (e : Entry) (ts : List (ℕ × ℕ)) (t : ℕ)
    → e.bucket.last_time ≤ t
    → Rising t ts
    → let f = after capacity rate e ts in
      count (calls capacity rate (some e) ts) * 1000 + f.bucket.tokens + e.bucket.last_time * rate
      ≤ e.bucket.tokens
        + f.bucket.last_time * rate
        + refused_ms capacity rate e ts * rate
        + resets capacity rate e ts * (capacity * 1000)
unfolding calls after refused_ms resets
calls_bound capacity rate e [] t h r = omega arith
calls_bound capacity rate e ((now, server_now) ∷ ts) t h r =
    let s = eval capacity rate now server_now (some e) in
    let cost = eval_cost capacity rate now server_now e (omega arith) in
    let ih = calls_bound capacity rate s.0 ts now cost.0 r.1 in
    elim (Bool-cases s.1) [ inl taken ↦ ground arith | inr refused ↦ ground arith ]

script_starved :
    (capacity rate t a k : ℕ)
    → 0 < capacity
    → k + a * rate < 1000
    → script capacity rate (t + a) (some (record { tokens = k; last_time = t }))
      ≡ (record { tokens = k + a * rate; last_time = t }, false)
unfolding script
script_starved capacity rate t a k pos low =
    let e : t + a - t ≡ a = omega arith in
    let m : min (capacity * 1000) (k + a * rate) ≡ k + a * rate = omega arith in
    rw (e, m) (ground arith)

script_filled :
    (capacity rate t a k : ℕ)
    → 0 < capacity
    → 1000 ≤ k + a * rate
    → (script capacity rate (t + a) (some (record { tokens = k; last_time = t }))).1 ≡ true
unfolding script
script_filled capacity rate t a k pos high =
    let e : t + a - t ≡ a = omega arith in rw e (ground arith)

-- The refill is credited twice after a refusal. A bucket emptied at `t`, whose key has not expired,
-- refuses a call `a` ms later and lets one through `b` ms after that, though `a + b` ms have not
-- refilled one token, if the server's clock shows less than three seconds between the two calls.
pub refused_then_early :
    (capacity rate t a b expires first second : ℕ)
    → 0 < capacity
    → (a + b) * rate < 1000
    → 1000 ≤ (a + a + b) * rate
    → first < expires
    → second < first + 3000
    → calls capacity rate
        (some (record { bucket = record { tokens = 0; last_time = t }; expires = expires }))
        ((t + a, first) ∷ (t + a + b, second) ∷ [])
      ≡ false ∷ true ∷ []
unfolding calls
refused_then_early capacity rate t a b expires first second pos early twice live still =
    let empty : Bucket = record { tokens = 0; last_time = t } in
    let waited : Bucket = record { tokens = 0 + a * rate; last_time = t } in
    let one =
      eval_live capacity rate (t + a) first (record { bucket = empty; expires = expires })
        (ground arith) in
    let starved = script_starved capacity rate t a 0 pos (omega arith) in
    let two =
      eval_live capacity rate (t + (a + b)) second
        (record { bucket = waited; expires = first + 3000 }) (ground arith) in
    let filled = script_filled capacity rate t (a + b) (0 + a * rate) pos (omega arith) in
    let e : t + a + b ≡ t + (a + b) = omega arith in rw (one, starved, e, two, filled) refl

pub script_at_once :
    (capacity rate now m : ℕ)
    → suc m ≤ capacity
    → script capacity rate now (some (record { tokens = suc m * 1000; last_time = now }))
      ≡ (record { tokens = m * 1000; last_time = now }, true)
unfolding script
script_at_once capacity rate now m h = let e : now - now ≡ 0 = omega arith in rw e (ground arith)

pub script_empty :
    (capacity rate now : ℕ)
    → script capacity rate now (some (record { tokens = 0; last_time = now }))
      ≡ (record { tokens = 0; last_time = now }, false)
unfolding script
script_empty capacity rate now = let e : now - now ≡ 0 = omega arith in rw e (ground arith)

pub fresh_script :
    (capacity rate now : ℕ)
    → script capacity rate now none
      ≡ script capacity rate now (some (record { tokens = capacity * 1000; last_time = now }))
unfolding script
fresh_script capacity rate now =
    let e : now - now ≡ 0 = omega arith in
    let m : min (capacity * 1000) (capacity * 1000 + 0 * rate) ≡ capacity * 1000 = omega arith in
    rw (e, m)
