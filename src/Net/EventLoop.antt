-- ===== src/Net/EventLoop.antt =====
-- `EventLoop` (src/net/eventloop.cpp): the queue of functors from other threads and the eventfd
-- that wakes the loop. Functors are of any type: what a
-- functor does is said where the loop is used.
pub mod Wakeup
pub mod Life
use lfgateway.Base.{ℕ, ◌+◌, ◌-◌, ◌^◌, ltb, Bool, true, false, List, [], ◌∷◌, ◌++◌, if◌then◌else◌}

-- `counter` is the value of the eventfd behind `wakeupFd_`.
pub record EventLoop (F : Type 0) : Type 0 where
  pub quit : Bool
  pub counter : ℕ
  pub pending_functors : List F

-- The state in which `loop` begins, with the functors that were queued before.
abbrev pub loop_start : {F : Type 0} → List F → ℕ → EventLoop F
loop_start fs n = record { quit = false; counter = n; pending_functors = fs }

-- A write that would pass the largest value fails, and the counter stays.
unfoldable pub wakeup : {F : Type 0} → EventLoop F → EventLoop F
wakeup l = if ltb (l.counter + 1) (2 ^ 64 - 1) then record l { counter = l.counter + 1 } else l

abbrev pub handle_wakeup : {F : Type 0} → EventLoop F → EventLoop F
handle_wakeup l = record l { counter = 0 }

-- `runInLoop` on another thread up to the end of its locked part; `wakeup` follows.
abbrev pub queue : {F : Type 0} → F → EventLoop F → EventLoop F
queue f l = record l { pending_functors = l.pending_functors ++ f ∷ [] }

abbrev pub set_quit : {F : Type 0} → EventLoop F → EventLoop F
set_quit l = record l { quit = true }

-- The functors that run, and the loop without them.
abbrev pub do_pending_functors : {F : Type 0} → EventLoop F → List F × EventLoop F
do_pending_functors l = (l.pending_functors, record l { pending_functors = [] })
