-- ===== src/Gateway/Flow/Overtake.antt =====
-- Two messages that wait in the pool, and two workers.
use lfgateway.Base.{ℕ, ◌<◌, arith, ◌≡◌, refl, ap, ◌∙◌, some, List, [], ◌∷◌, ◌++◌}
use lfgateway.Base.Text.{Bytes}
use lfgateway.Base.Reach.{here, next}
use lfgateway.Redis.{Server}
use lfgateway.Pool.Thread.{ThreadPool, worker_loop, runs}
use lfgateway.Gateway.Process.{Env, counted, handle_request}
use lfgateway.Gateway.Respond.{response}
use lfgateway.Gateway.Flow.{Call, Outgoing, World, Step, Reach, send}
use lfgateway.Gateway.Flow.Queues.{send-pending}

pub worker_takes :
    {A : Type 0} (c : A) (rest : List A) (p : ThreadPool A)
    → p.tasks ≡ c ∷ rest
    → worker_loop p ≡ runs c (record p { tasks = rest })
unfolding worker_loop
worker_takes c rest p h = rw h refl

module _ (s : Server) where
  -- Both calls are with workers.
  abbrev taken : World s → Call → Call → List Call → World s
  taken w c d rest = record w {
    pool = record w.pool { tasks = rest };
    gateway = counted (counted w.gateway);
    running = (w.running ++ c ∷ []) ++ d ∷ [];
  }

  take_both :
      (w : World s) (c d : Call) (rest : List Call)
      → w.pool.tasks ≡ c ∷ d ∷ rest
      → w.running ≡ []
      → 1 < w.workers
      → Reach s w (taken w c d rest)
  take_both w c d rest h idle two =
      next
        (next here
          (Step.takes c (rw idle (omega (arith, two))) (worker_takes c (d ∷ rest) w.pool h)))
        (Step.takes d (rw idle two) (worker_takes d rest (record w.pool { tasks = d ∷ rest }) refl))

  -- Responses can overtake one another, also on one connection. Where two calls are first in the queue,
  -- there are two workers at least, none has a call, no functor is pending, and both would be answered, the second before the
  -- first, when both are counted, there is a run in which the loop sends the response of the second call before that of the
  -- first, and nothing else in between.
  pub answers_overtake :
      (w : World s) (e f : Env) (c d : Call) (rest : List Call) (code1 code2 : ℕ)
      (body1 body2 : Bytes)
      → w.pool.tasks ≡ c ∷ d ∷ rest
      → w.running ≡ []
      → 1 < w.workers
      → w.loop.pending_functors ≡ []
      → (handle_request s f (counted (counted w.gateway)) d.1 w.redis).sent ≡ some (code2, body2)
      → (let second = handle_request s f (counted (counted w.gateway)) d.1 w.redis in
          (handle_request s e second.gateway c.1 second.redis).sent ≡ some (code1, body1))
      → (v : World s) × Reach s w v
        × (v.delivered
            ≡ w.delivered ++ (d.0, response code2 body2) ∷ (c.0, response code1 body1) ∷ [])
  answers_overtake w e f c d rest code1 code2 body1 body2 queue idle two quiet sent2 sent1 =
      let o : Outgoing = (d.0, response code2 body2) in
      let p : Outgoing = (c.0, response code1 body1) in
      let both = take_both w c d rest queue idle two in
      let one_left : (w.running ++ c ∷ []) ++ d ∷ [] ≡ (c ∷ []) ++ d ∷ [] = rw idle refl in
      let second = next both (Step.answers f (c ∷ []) [] d code2 body2 one_left sent2) in
      let first = next second (Step.answers e [] [] c code1 body1 refl sent1) in
      (
        _,
        next first Step.turns,
        ap (λ l. w.delivered ++ l)
            (send-pending p (send o w.loop) ∙ rw (send-pending o w.loop) (rw quiet refl)),
      )
