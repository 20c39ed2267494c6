-- ===== src/Limiter/Bucket/Expiry.antt =====
-- The three seconds after which Redis drops a bucket.
use Prim.Native.Nat.{min}
use lfgateway.Base.{ap, ℕ, ◌+◌, ◌-◌, ◌*◌, ◌≤◌, ◌<◌, ◌≡◌, refl, true, Option, none, some, arith}
use lfgateway.Limiter.Bucket.{Bucket, Entry, script, eval, read}

script_fresh :
    (capacity rate now : ℕ)
    → 0 < capacity
    → script capacity rate now none
      ≡ (record { tokens = capacity * 1000 - 1000; last_time = now }, true)
unfolding script
script_fresh capacity rate now pos = ground arith

idle_refill :
    (capacity rate elapsed k : ℕ)
    → capacity ≤ 3 * rate
    → 3000 ≤ elapsed
    → min (capacity * 1000) (k + elapsed * rate) ≡ capacity * 1000
idle_refill capacity rate elapsed k cap h =
    let e : 3000 + (elapsed - 3000) ≡ elapsed = omega arith in
    omega (arith, ap (λ (x : ℕ). x * rate) e)

script_idle :
    (capacity rate now : ℕ) (b : Bucket)
    → 0 < capacity
    → capacity ≤ 3 * rate
    → b.last_time + 3000 ≤ now
    → script capacity rate now (some b)
      ≡ (record { tokens = capacity * 1000 - 1000; last_time = now }, true)
unfolding script
script_idle capacity rate now b pos cap idle =
    rw (idle_refill capacity rate (now - b.last_time) b.tokens cap (omega arith)) (ground arith)

read-none : (server_now : ℕ) (e : Entry) → read server_now (some e) ≡ none → e.expires ≤ server_now
unfolding read
read-none server_now e h = ground arith

idle_entry :
    (capacity rate now server_now : ℕ) (e : Entry)
    → 0 < capacity
    → capacity ≤ 3 * rate
    → e.bucket.last_time + 3000 ≤ now
    → e.expires ≤ server_now
    → (eval capacity rate now server_now (some e)
        ≡ eval capacity rate now server_now (some (record e { expires = server_now + 1 })))
      × ((eval capacity rate now server_now (some e)).1 ≡ true)
unfolding eval
idle_entry capacity rate now server_now e pos cap idle gone =
    ground (
      arith,
      script_fresh capacity rate now pos,
      script_idle capacity rate now e.bucket pos cap idle,
    )

-- What a call leaves under the key, whatever it found.
eval-leaves :
    (capacity rate now server_now : ℕ) (e : Option Entry)
    → ((f : Entry) → e ≡ some f → f.bucket.last_time ≤ now)
    → let r = (eval capacity rate now server_now e).0 in
      (r.bucket.last_time ≤ now) × (r.expires ≡ server_now + 3000)
unfolding eval script
eval-leaves capacity rate now server_now none h = ground arith
eval-leaves capacity rate now server_now (some e) h = let old = h e refl in ground arith

-- A bucket that expired is full again, so nobody sees that the key went. A call left the entry, and the
-- next call comes when the server has dropped the key: with a capacity of at most three times the rate,
-- and a gateway's clock on which at least as much time has passed as on the server's, the next
-- call answers and stores the same as if the key had been kept.
pub eval_expired :
    (capacity rate now server_now later server_later : ℕ) (found : Option Entry)
    → 0 < capacity
    → capacity ≤ 3 * rate
    → ((f : Entry) → found ≡ some f → f.bucket.last_time ≤ now)
    → server_later + now ≤ later + server_now
    → read server_later (some (eval capacity rate now server_now found).0) ≡ none
    → let e = (eval capacity rate now server_now found).0 in
      (eval capacity rate later server_later (some e)
        ≡ eval capacity rate later server_later (some (record e { expires = server_later + 1 })))
      × ((eval capacity rate later server_later (some e)).1 ≡ true)
eval_expired capacity rate now server_now later server_later found pos cap old clocks gone =
    let e = (eval capacity rate now server_now found).0 in
    let (before, lasts) = eval-leaves capacity rate now server_now found old in
    let late = read-none server_later e gone in
    idle_entry capacity rate later server_later e pos cap
      (omega (arith, before, lasts, late, clocks)) late
