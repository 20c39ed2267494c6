-- ===== src/Gateway.antt =====
-- gateway/include/gateway.h and gateway/src/gateway.cpp.
pub mod Respond
pub mod Process
pub mod Flow
pub mod Start
pub mod Admin
pub mod Whole
pub mod Lifetime
pub mod Json
pub mod Delete
mod Tests
use lfgateway.Base.{ℕ, ◌+◌, ◌%◌, ◌^◌}
use lfgateway.Limiter.Distributed.{DistributedRateLimiter}
use lfgateway.Router.{Router}

-- The counters, each a `std::atomic<uint64_t>`.
pub record Counters : Type 0 where
  pub total_requests : ℕ
  pub total_latency_us : ℕ
  pub rejected_auth : ℕ
  pub rejected_limit : ℕ

abbrev pub add_u64 : ℕ → ℕ → ℕ
add_u64 a b = (a + b) % 2 ^ 64

-- The members that requests read and write.
pub record Gateway : Type 0 where
  pub counters : Counters
  pub router : Router
  pub distributed_limiter : DistributedRateLimiter
