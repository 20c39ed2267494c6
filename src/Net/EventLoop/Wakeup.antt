-- ===== src/Net/EventLoop/Wakeup.antt =====
-- The loop and the threads that post to it, step by step.
use lfgateway.Base.Reach.{Steps, Steps-keep}
use lfgateway.Base.{
  ℕ, suc, ◌<◌, ◌≡◌, ◌≢◌, ap, ◌∙◌, ◌⊎◌, inl, inr, List, [], ◌∷◌, ◌++◌, append_assoc, append-nil,
  arith, if◌then◌else◌,
}
use lfgateway.Net.EventLoop.{EventLoop, wakeup, handle_wakeup, queue, set_quit, do_pending_functors}

-- In `epoll_wait`, behind it but before `doPendingFunctors`, or out of the loop.
pub data Phase : Type 0 where
  waiting woken left : Phase

-- `waking` is the number of threads between their change and their call of `wakeup`.
pub record World (F : Type 0) : Type 0 where
  pub loop : EventLoop F
  pub phase : Phase
  pub waking : ℕ
  pub posted : List F
  pub ran : List F

abbrev turn : {F : Type 0} → World F → World F
turn w =
    let (fs, l) = do_pending_functors w.loop in
    record {
      loop = l;
      phase = if l.quit then left else waiting;
      waking = w.waking;
      posted = w.posted;
      ran = w.ran ++ fs;
    }

pub data Step {F : Type 0} : World F → World F → Type 0 where
  posts :
      {w : World F} (f : F)
      → Step w
          (record w { loop = queue f w.loop; waking = suc w.waking; posted = w.posted ++ f ∷ [] })
  asks_quit : {w : World F} → Step w (record w { loop = set_quit w.loop; waking = suc w.waking })
  wakes :
      {w : World F} {n : ℕ}
      → w.waking ≡ suc n
      → Step w (record w { loop = wakeup w.loop; waking = n })
  -- The time ran out, or other channels had events.
  returns : {w : World F} → w.phase ≡ waiting → Step w (record w { phase = woken })
  reads :
      {w : World F}
      → w.phase ≡ waiting
      → 0 < w.loop.counter
      → Step w (record w { phase = woken; loop = handle_wakeup w.loop })
  -- `quit` on the loop's thread, which makes no wakeup: from a callback, or from a signal's handler, which
  -- can run at any time, also between the test of `quit_` and `epoll_wait`.
  quits_here : {w : World F} → Step w (record w { loop = set_quit w.loop })
  turns : {w : World F} → w.phase ≡ woken → Step w (turn w)

abbrev pub Reach : {F : Type 0} → World F → World F → Type 0
Reach = Steps Step

-- What was posted has run, in order, or is pending; and where the loop waits though functors are
-- pending, the eventfd is readable or a thread is about to make it so.
pub record IsServed {F : Type 0} (w : World F) : Type 0 where
  pub in_order : w.ran ++ w.loop.pending_functors ≡ w.posted
  pub awake :
      w.phase ≡ waiting → w.loop.pending_functors ≢ [] → (0 < w.loop.counter) ⊎ (0 < w.waking)

pub wakeup_positive : {F : Type 0} (l : EventLoop F) → 0 < (wakeup l).counter
unfolding wakeup
wakeup_positive l = ground arith

wakeup_keeps :
    {F : Type 0} (l : EventLoop F)
    → ((wakeup l).pending_functors ≡ l.pending_functors) × ((wakeup l).quit ≡ l.quit)
unfolding wakeup
wakeup_keeps l = (ground arith, ground arith)

Step-IsServed : {F : Type 0} {u v : World F} → Step u v → IsServed u → IsServed v
Step-IsServed (posts {w} f) i = record {
  in_order =
      rw (← append_assoc w.ran w.loop.pending_functors (f ∷ [])) (ap (λ l. l ++ f ∷ []) i.in_order);
  awake = λ p h. inr (omega arith);
}
Step-IsServed (asks_quit) i = record { in_order = i.in_order; awake = λ p h. inr (omega arith) }
Step-IsServed (wakes {w} e) i = record {
  in_order = rw (wakeup_keeps w.loop).0 i.in_order;
  awake = λ p h. inl (wakeup_positive w.loop);
}
Step-IsServed (returns {w} e) i = record { in_order = i.in_order; awake = λ p h. cc }
Step-IsServed (reads {w} e k) i = record { in_order = i.in_order; awake = λ p h. cc }
Step-IsServed (quits_here {w}) i = record { in_order = i.in_order; awake = λ p h. i.awake p h }
Step-IsServed (turns {w} e) i = record {
  in_order = append-nil _ ∙ i.in_order;
  awake = λ p h. ground arith;
}

-- No wakeup for a functor is lost, and no functor is lost, run twice or run out of order: from a world
-- where it is so, in each world that threads, signals and loop can reach, what was posted has run or is
-- pending, in order, and where the loop waits though functors are pending, the eventfd is readable or a
-- thread is about to write to it. A call of `quit` on the loop's own thread is no part of this.
pub Reach-IsServed : {F : Type 0} {u v : World F} → Reach u v → IsServed u → IsServed v
Reach-IsServed r i = Steps-keep IsServed (λ u v s p. Step-IsServed s p) r i
