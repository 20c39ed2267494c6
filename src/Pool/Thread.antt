-- ===== src/Pool/Thread.antt =====
-- `ThreadPool` (include/pool/thread_pool.hpp): its queue and its flag. Tasks are of any type; the
-- gateway's are its requests. Each function is what happens under the mutex.
pub mod Fifo
use lfgateway.Base.{Bool, true, false, List, [], ◌∷◌, ◌++◌, if◌then◌else◌}

pub record ThreadPool (A : Type 0) : Type 0 where
  pub tasks : List A
  pub stop : Bool

abbrev pub thread_pool : {A : Type 0} → ThreadPool A
thread_pool = record { tasks = []; stop = false }

-- Queued, dropped without a word, or refused with a `std::runtime_error`.
pub data Enqueued (A : Type 0) : Type 0 where
  queued : ThreadPool A → Enqueued A
  dropped : Enqueued A
  threw : Enqueued A

-- The overload without a result.
unfoldable pub enqueue : {A : Type 0} → A → ThreadPool A → Enqueued A
enqueue task p = if p.stop then dropped else queued (record p { tasks = p.tasks ++ task ∷ [] })

-- The overload with a future, which the gateway's lambdas choose.
unfoldable pub enqueue_future : {A : Type 0} → A → ThreadPool A → Enqueued A
enqueue_future task p = if p.stop then threw else queued (record p { tasks = p.tasks ++ task ∷ [] })

-- What a worker does next: wait, return, or run a task.
pub data Next (A : Type 0) : Type 0 where
  waits : Next A
  returns : Next A
  runs : A → ThreadPool A → Next A

unfoldable pub worker_loop : {A : Type 0} → ThreadPool A → Next A
worker_loop p = elim p.tasks [
  | [] ↦ if p.stop then returns else waits
  | task ∷ rest ↦ runs task (record p { tasks = rest })
]

-- The first part of `~ThreadPool`; the joining of the workers follows.
abbrev pub begin_stop : {A : Type 0} → ThreadPool A → ThreadPool A
begin_stop p = record p { stop = true }
