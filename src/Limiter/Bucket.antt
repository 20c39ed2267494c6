-- ===== src/Limiter/Bucket.antt =====
-- The Lua script of gateway/src/distributed_rate_limiter.cpp, which Redis runs as one step.
-- The script's tokens are Lua numbers; here they are counted in thousandths, so that the refill
-- `elapsed_ms * (rate / 1000.0)` is the exact number `elapsed_ms * rate`.
pub mod Bound
pub mod Expiry
use Prim.Native.Nat.{min}
use lfgateway.Base.{
  ℕ, zero, suc, ◌+◌, ◌-◌, ◌*◌, Bool, true, false, Option, none, some, List, [], ◌∷◌, if◌then◌else◌,
  leb, ltb,
}

-- The hash under one key: the fields `tokens` and `last_time`.
pub record Bucket : Type 0 where
  pub tokens : ℕ
  pub last_time : ℕ

-- A full bucket for a key that is not there, and the refill of one that is.
unfoldable pub refill : ℕ → ℕ → ℕ → Option Bucket → Bucket
refill capacity rate now none = record { tokens = capacity * 1000; last_time = now }
refill capacity rate now (some b) =
    let elapsed_ms = now - b.last_time in
    record b { tokens = min (capacity * 1000) (b.tokens + elapsed_ms * rate) }

-- The second half: one token is taken, or the refilled count is stored with the old time.
unfoldable pub take_token : ℕ → Bucket → Bucket × Bool
take_token now b =
    if leb 1000 b.tokens
    then (record { tokens = b.tokens - 1000; last_time = now }, true)
    else (b, false)

unfoldable pub script : ℕ → ℕ → ℕ → Option Bucket → Bucket × Bool
unfolding refill take_token
script capacity rate now b = take_token now (refill capacity rate now b)

-- What Redis holds under the key: the hash and the time at which it expires.
pub record Entry : Type 0 where
  pub bucket : Bucket
  pub expires : ℕ

-- The fields that `hmget` reads at a time of the server's clock.
unfoldable pub read : ℕ → Option Entry → Option Bucket
read server_now none = none
read server_now (some e) = if ltb server_now e.expires then some e.bucket else none

-- The whole script: `hmget`, the bucket, `hmset`, `expire key 3`.
unfoldable pub eval : ℕ → ℕ → ℕ → ℕ → Option Entry → Entry × Bool
unfolding read
eval capacity rate now server_now e =
    let (b, ok) = script capacity rate now (read server_now e) in
    (record { bucket = b; expires = server_now + 3000 }, ok)

-- Calls one after the other, each at a time of the gateway's clock and one of the server's, by which
-- the key expires; the answers in order.
unfoldable pub calls : ℕ → ℕ → Option Entry → List (ℕ × ℕ) → List Bool
calls capacity rate e [] = []
calls capacity rate e ((now, server_now) ∷ ts) =
    let r = eval capacity rate now server_now e in r.1 ∷ calls capacity rate (some r.0) ts

-- What the calls leave under the key.
unfoldable pub after : ℕ → ℕ → Entry → List (ℕ × ℕ) → Entry
after capacity rate e [] = e
after capacity rate e ((now, server_now) ∷ ts) =
    after capacity rate (eval capacity rate now server_now (some e)).0 ts

abbrev pub count : List Bool → ℕ
count [] = 0
count (true ∷ bs) = suc (count bs)
count (false ∷ bs) = count bs
