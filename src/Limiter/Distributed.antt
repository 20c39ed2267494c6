-- ===== src/Limiter/Distributed.antt =====
-- gateway/src/distributed_rate_limiter.cpp: the class that sends the script to Redis.
pub mod Refines
use lfgateway.Base.{
  ℕ, suc, ◌+◌, ◌-◌, ◌*◌, ◌^◌, Bool, true, false, Option, none, some, List, [], ◌∷◌, ◌++◌,
  if◌then◌else◌, ltb,
}
use lfgateway.Base.Text.{Bytes, codes}
use lfgateway.Base.Decimal.{to_string}
use lfgateway.Base.Int.{ℤ, pos, negsuc, leb_ℤ, print_int}
use lfgateway.Redis.{Reply, Command, args, Server, c_str}
use lfgateway.Redis.Client.{is_one}
use lfgateway.Limiter.Script.{token_bucket_lua_script}

pub record DistributedRateLimiter : Type 0 where
  pub key_prefix : Bytes
  pub last_error : Bytes
  pub redis_available : Bool

-- What the client's pool gives: none, no context, or a context.
pub data Connection : Type 0 where
  no_pool no_context context : Connection

-- `acquireToken` returns, or throws with a message.
pub data Acquired : Type 0 where
  allowed : Bool → Acquired
  threw : Bytes → Acquired

-- `"EVAL %s 1 %s %d %d %lld"`
abbrev pub eval_words : Bytes → ℤ → ℤ → ℕ → List Bytes
eval_words key capacity rate now =
    codes "EVAL"
    ∷ c_str token_bucket_lua_script
    ∷ codes "1"
    ∷ c_str key
    ∷ print_int capacity
    ∷ print_int rate
    ∷ to_string now
    ∷ []

of_reply : Option Reply → Acquired
of_reply none = threw (codes "Redis command returned null reply")
of_reply (some r) = allowed (is_one (some r))

-- `if (capacity <= 0) capacity = rate;`
unfoldable pub effective : ℤ → ℤ → ℤ
effective capacity rate = if leb_ℤ capacity (pos 0) then rate else capacity

module _ (s : Server) where
  open s use {State, send}

  -- `now` is the system clock's time in milliseconds.
  unfoldable pub acquire_token : Connection → ℕ → Bytes → ℤ → ℤ → State → Acquired × State
  unfolding of_reply
  acquire_token no_pool now key rate capacity st = (threw (codes "getPool() returned null"), st)
  acquire_token no_context now key rate capacity st =
      (threw (codes "Failed to acquire Redis connection from pool"), st)
  acquire_token context now key rate capacity st =
      let r = send (args (eval_words key capacity rate now)) st in (of_reply r.0, r.1)

  handle : DistributedRateLimiter → Acquired × State → Bool × DistributedRateLimiter × State
  handle l (allowed b, st) = (b, record l { redis_available = true }, st)
  handle l (threw what, st) = (
    true,
    record l {
      last_error = codes "Redis error, fallback to allow: " ++ what;
      redis_available = false;
    },
    st,
  )

  unfoldable pub is_allowed :
      DistributedRateLimiter
      → Connection
      → ℕ
      → Bytes
      → ℤ
      → ℤ
      → State
      → Bool × DistributedRateLimiter × State
  unfolding handle
  is_allowed l conn now api_path rate capacity st =
      let key = l.key_prefix ++ b':' ∷ api_path in
      handle l (acquire_token conn now key rate (effective capacity rate) st)
