-- ===== src/Limiter/Distributed/Refines.antt =====
-- `isAllowed` is one step of the token bucket, or lets the request pass.
use lfgateway.Base.{
  ℕ, ◌≡◌, ◌⊎◌, ◌==◌, true, false, Option, none, some, ◌∷◌, ◌++◌, arith, if◌then◌else◌,
}
use lfgateway.Base.Text.{Bytes}
use lfgateway.Base.Int.{ℤ, pos}
use lfgateway.Redis.{integer, args, Server, c_str}
use lfgateway.Redis.Client.{is_one}
use lfgateway.Limiter.Bucket.{Entry, eval}
use lfgateway.Limiter.Distributed.{
  DistributedRateLimiter, Connection, context, no_pool, no_context, eval_words, acquire_token,
  effective, is_allowed,
}

-- The server runs the script as one step on the entry under the key, by its own clock, and
-- answers with what the script returns.
pub record RunsScript (s : Server) : Type 0 where
  pub entry : s.State → Bytes → Option Entry
  pub clock : s.State → ℕ
  pub eval_reply :
      (key : Bytes) (capacity rate now : ℕ) (st : s.State)
      → let r = s.send (args (eval_words key (pos capacity) (pos rate) now)) st in
        let e = eval capacity rate now (clock st) (entry st (c_str key)) in
        (r.0 ≡ some (integer (pos (if e.1 then 1 else 0)))) × (entry r.1 (c_str key) ≡ some e.0)

pub effective_pos :
    (capacity rate : ℕ)
    → effective (pos capacity) (pos rate) ≡ pos (if capacity == 0 then rate else capacity)
unfolding effective
effective_pos capacity rate = ground arith

-- With a server that runs the script, a context from the pool and a positive rate, a call answers
-- with the script's decision on the entry under `prefix:path`, stores the script's
-- bucket there, with the rate for the capacity if none is given, and marks Redis available.
pub is_allowed_refines :
    (s : Server) (r : RunsScript s) (l : DistributedRateLimiter) (now rate capacity : ℕ)
    (path : Bytes) (st : s.State)
    → let key = l.key_prefix ++ b':' ∷ path in
      let cap = (if capacity == 0 then rate else capacity) in
      let e = eval cap rate now (r.clock st) (r.entry st (c_str key)) in
      let out = is_allowed s l context now path (pos rate) (pos capacity) st in
      (out.0 ≡ e.1)
      × (out.1 ≡ record l { redis_available = true })
      × (r.entry out.2 (c_str key) ≡ some e.0)
unfolding is_allowed acquire_token is_one
is_allowed_refines s r l now rate capacity path st =
    let key = l.key_prefix ++ b':' ∷ path in
    let cap = (if capacity == 0 then rate else capacity) in
    let full = effective_pos capacity rate in
    rw full (ground (arith, r.eval_reply key cap rate now st))

-- A call that finds no pool, no context or no reply lets the request pass and marks Redis as not
-- available.
pub is_allowed_fails_open :
    (s : Server) (l : DistributedRateLimiter) (conn : Connection) (now : ℕ) (path : Bytes)
    (rate capacity : ℤ) (st : s.State)
    → (conn ≡ no_pool)
      ⊎ ((conn ≡ no_context)
          ⊎ ((s.send
                (args (eval_words (l.key_prefix ++ b':' ∷ path) (effective capacity rate) rate now))
                st).0
              ≡ none))
    → let out = is_allowed s l conn now path rate capacity st in
      (out.0 ≡ true) × (out.1.redis_available ≡ false)
unfolding is_allowed acquire_token
is_allowed_fails_open s l conn now path rate capacity st h = ground arith
