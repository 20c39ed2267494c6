-- ===== src/Gateway/Lifetime.antt =====
-- The members of `Gateway` in the order in which they are declared (gateway/include/gateway.h), and their
-- destruction, which goes backwards.
use lfgateway.Base.{
  ℕ, ◌+◌, ◌≤◌, ◌<◌, ◌≡◌, refl, ◌⊎◌, inl, inr, Bool, true, false, arith, ltb, Bool-cases,
}

pub data Part : Type 0 where
  stream_writer api_server mgmt_server thread_pool mysql_pool redis_pool : Part
  redis_client router auth rate_limiter log_consumer mgmt_handler distributed_limiter : Part

-- The place in the class.
unfoldable pub place : Part → ℕ
place stream_writer = 0
place api_server = 1
place mgmt_server = 2
place thread_pool = 3
place mysql_pool = 4
place redis_pool = 5
place redis_client = 6
place router = 7
place auth = 8
place rate_limiter = 9
place log_consumer = 10
place mgmt_handler = 11
place distributed_limiter = 12

abbrev pub count : ℕ
count = 13

-- When `n` members are destroyed.
abbrev pub IsGone : ℕ → Part → Type 0
IsGone n p = count ≤ place p + n

abbrev pub IsAlive : ℕ → Part → Type 0
IsAlive n p = place p + n < count

-- The members with a thread of their own, which their destructors join.
unfoldable pub has_thread : Part → Bool
has_thread stream_writer = true
has_thread thread_pool = true
has_thread _ = false

-- What a member's code calls: the pointers that it was made with, the tasks of the pool and the message
-- callbacks of the servers.
unfoldable pub uses : Part → Part → Bool
uses stream_writer redis_client = true
uses stream_writer mysql_pool = true
uses redis_client redis_pool = true
uses router mysql_pool = true
uses auth redis_client = true
uses rate_limiter redis_client = true
uses log_consumer redis_client = true
uses distributed_limiter redis_client = true
uses thread_pool router = true
uses thread_pool auth = true
uses thread_pool rate_limiter = true
uses thread_pool distributed_limiter = true
uses thread_pool log_consumer = true
uses api_server thread_pool = true
uses mgmt_server mgmt_handler = true
uses mgmt_handler router = true
uses mgmt_handler mysql_pool = true
uses mgmt_handler api_server = true
uses _ _ = false

-- A thread is still running and what it uses is gone.
pub record Dangling (n : ℕ) : Type 0 where
  pub runner : Part
  pub used : Part
  pub running : has_thread runner ≡ true
  pub calls : uses runner used ≡ true
  pub alive : IsAlive n runner
  pub gone : IsGone n used

below : (p q : Part) → has_thread p ≡ false → uses p q ≡ true → (place q < place p) ⊎ (place p < 3)
unfolding place has_thread uses
below stream_writer q h u = absurd (ground arith)
below thread_pool q h u = absurd (ground arith)
below api_server q h u = inr (omega arith)
below mgmt_server q h u = inr (omega arith)
below redis_client redis_pool h u = inl (omega arith)
below router mysql_pool h u = inl (omega arith)
below auth redis_client h u = inl (omega arith)
below rate_limiter redis_client h u = inl (omega arith)
below log_consumer redis_client h u = inl (omega arith)
below distributed_limiter redis_client h u = inl (omega arith)
below mgmt_handler router h u = inl (omega arith)
below mgmt_handler mysql_pool h u = inl (omega arith)
below mgmt_handler api_server h u = inl (omega arith)
below _ _ h u = absurd (ground arith)

threads_dangle : (n : ℕ) → 0 < n → n < count → Dangling n
unfolding place has_thread uses
threads_dangle n some_gone some_left = elim (Bool-cases (ltb n 10)) [
  | inl h ↦ record {
    runner = thread_pool;
    used = distributed_limiter;
    running = refl;
    calls = refl;
    alive = ground arith;
    gone = ground arith;
  }
  | inr h ↦ record {
    runner = stream_writer;
    used = redis_client;
    running = refl;
    calls = refl;
    alive = ground arith;
    gone = ground arith;
  }
]

-- From the destruction of the first member to that of the last but one, a thread of the gateway may
-- still run whose code calls a member that is destroyed; while each member that has no thread of its own
-- and is no server is destroyed before what it calls.
pub threads_outlive :
    (n : ℕ)
    → 0 < n
    → n < count
    → Dangling n
      × ((p q : Part)
          → has_thread p ≡ false
          → 3 ≤ place p
          → uses p q ≡ true
          → IsAlive n p
          → IsAlive n q)
threads_outlive n some_gone some_left =
    (threads_dangle n some_gone some_left, λ p q h k u a. ground (arith, below p q h u))
