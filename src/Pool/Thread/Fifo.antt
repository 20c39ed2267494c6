-- ===== src/Pool/Thread/Fifo.antt =====
-- Which tasks run, over any interleaving of the workers and the threads that enqueue.
use lfgateway.Base.Reach.{Steps, Steps-keep}
use lfgateway.Base.{
  ℕ, suc, ◌<◌, ◌≡◌, refl, sym, ap, ◌∙◌, ◌⊎◌, inl, inr, true, false, List, [], ◌∷◌, ◌++◌,
  append_assoc, append-nil, arith,
}
use lfgateway.Pool.Thread.{
  ThreadPool, thread_pool, queued, enqueue, enqueue_future, runs, returns, worker_loop, begin_stop,
}

-- The pool, the number of workers that have not returned, the tasks that were accepted, and those
-- that workers took, each in order.
pub record World (A : Type 0) : Type 0 where
  pub pool : ThreadPool A
  pub workers : ℕ
  pub accepted : List A
  pub taken : List A

abbrev pub fresh : {A : Type 0} → ℕ → World A
fresh n = record { pool = thread_pool; workers = n; accepted = []; taken = [] }

pub data Step {A : Type 0} : World A → World A → Type 0 where
  enqueues :
      {w : World A} {p : ThreadPool A} (t : A)
      → (enqueue t w.pool ≡ queued p) ⊎ (enqueue_future t w.pool ≡ queued p)
      → Step w (record w { pool = p; accepted = w.accepted ++ t ∷ [] })
  takes :
      {w : World A} {p : ThreadPool A} (t : A) (n : ℕ)
      → w.workers ≡ suc n
      → worker_loop w.pool ≡ runs t p
      → Step w (record w { pool = p; taken = w.taken ++ t ∷ [] })
  ends :
      {w : World A} {n : ℕ}
      → w.workers ≡ suc n
      → worker_loop w.pool ≡ returns
      → Step w (record w { workers = n })
  stops : {w : World A} → Step w (record w { pool = begin_stop w.pool })

abbrev pub Reach : {A : Type 0} → World A → World A → Type 0
Reach = Steps Step

-- Tasks are taken in the order in which they were accepted; and if a worker has returned, the pool
-- is stopped and every accepted task has been taken.
pub record IsFifo {A : Type 0} (n : ℕ) (w : World A) : Type 0 where
  pub in_order : w.taken ++ w.pool.tasks ≡ w.accepted
  pub drained : (w.workers ≡ n) ⊎ ((w.pool.stop ≡ true) × (w.pool.tasks ≡ []))

queue-shape :
    {A : Type 0} (t : A) (u p : ThreadPool A)
    → (enqueue t u ≡ queued p) ⊎ (enqueue_future t u ≡ queued p)
    → (u.stop ≡ false) × (p.tasks ≡ u.tasks ++ t ∷ [])
unfolding enqueue enqueue_future
queue-shape t u p (inl h) = (ground arith, ground arith)
queue-shape t u p (inr h) = (ground arith, ground arith)

pub task-shape :
    {A : Type 0} (t : A) (u p : ThreadPool A)
    → worker_loop u ≡ runs t p
    → (u.tasks ≡ t ∷ p.tasks) × (p.stop ≡ u.stop)
unfolding worker_loop
task-shape t u p h = (ground arith, ground arith)

return-shape :
    {A : Type 0} (u : ThreadPool A) → worker_loop u ≡ returns → (u.stop ≡ true) × (u.tasks ≡ [])
unfolding worker_loop
return-shape u h = (ground arith, ground arith)

Step-IsFifo : {A : Type 0} (n : ℕ) {u v : World A} → Step u v → IsFifo n u → IsFifo n v
Step-IsFifo n (enqueues {w} {p} t h) i =
    let (running, longer) = queue-shape t w.pool p h in
    record {
      in_order =
          rw (longer, ← append_assoc w.taken w.pool.tasks (t ∷ []))
            (ap (λ l. l ++ t ∷ []) i.in_order);
      drained = let d = i.drained in ground arith;
    }
Step-IsFifo n (takes {w} {p} t m k h) i =
    let shape = task-shape t w.pool p h in
    record {
      in_order = append_assoc w.taken (t ∷ []) p.tasks ∙ (rw (← shape.0) i.in_order);
      drained = let d = i.drained in ground (arith, shape.0, shape.1);
    }
Step-IsFifo n (ends {w} {n = m} k h) i = record {
  in_order = i.in_order;
  drained = inr (return-shape w.pool h);
}
Step-IsFifo n (stops {w}) i = record {
  in_order = i.in_order;
  drained = let d = i.drained in ground arith;
}

Reach-IsFifo : {A : Type 0} (n : ℕ) {u v : World A} → Reach u v → IsFifo n u → IsFifo n v
Reach-IsFifo n r i = Steps-keep (IsFifo n) (λ u v s p. Step-IsFifo n s p) r i

-- When the destructor has joined the workers, of which there was one at least, every task that was
-- accepted has been taken by a worker, once and in the order of the calls, also those that stood in the queue when
-- the pool was stopped.
pub joined_ran_all :
    {A : Type 0} (n : ℕ) {w : World A}
    → 0 < n
    → Reach (fresh n) w
    → w.workers ≡ 0
    → w.taken ≡ w.accepted
joined_ran_all n {w} some_worker r joined =
    let i = Reach-IsFifo n r (record { in_order = refl; drained = inl refl }) in
    elim i.drained [
      | inl all ↦ absurd (omega (arith, all, joined))
      | inr (stopped, no_tasks) ↦ sym (append-nil w.taken) ∙ rw (← no_tasks) i.in_order
    ]
