-- ===== src/Gateway/Flow/Drain.antt =====
-- The workers and the loop come to an end of what they have to do, the loop only where it is woken.
use lfgateway.Base.{
  ℕ, ◌<◌, length, ◌+◌, ◌≡◌, ◌≢◌, refl, sym, ap, ◌∙◌, inl, inr, List, [], ◌∷◌, ◌++◌, Option-cases,
}
use lfgateway.Base.Reach.{Steps, Steps-keep, here, next, Steps-trans}
use lfgateway.Redis.{Server}
use lfgateway.Net.EventLoop.{queue}
use lfgateway.Net.EventLoop.Wakeup.{wakeup_positive}
use lfgateway.Gateway.Respond.{response}
use lfgateway.Gateway.{Gateway}
use lfgateway.Gateway.Process.{Env, counted, handle_request}
use lfgateway.Gateway.Flow.{Call, Outgoing, World, Step, Reach, fresh, send}
use lfgateway.Gateway.Flow.Counted.{times, calls, outgoing}
use lfgateway.Gateway.Flow.Answered.{AllThrew, quiet_answered}
use lfgateway.Gateway.Flow.Overtake.{worker_takes}

module _ (s : Server) where
  -- The steps that the workers and a loop that is woken make of themselves: a worker without a call comes
  -- to the queue, one with a call ends it, and the loop makes a turn where the eventfd is readable.
  abbrev pub IsDriven : {u v : World s} → Step s u v → Type 0
  IsDriven (Step.accepts a free new) = ⊥
  IsDriven (Step.receives conn v i o h) = ⊥
  IsDriven (Step.takes c room h) = Unit
  IsDriven (Step.answers e before after c code body k h) = Unit
  IsDriven (Step.fails e before after c k h) = Unit
  IsDriven {u} Step.turns = 0 < u.loop.counter
  IsDriven (Step.elsewhere g st) = ⊥

  abbrev pub Driven : World s → World s → Type 0
  Driven u v = (t : Step s u v) × IsDriven t

  driven-Reach : {u v : World s} → Steps Driven u v → Reach s u v
  driven-Reach here = here
  driven-Reach (next r d) = next (driven-Reach r) d.0

  -- Where functors are pending, the eventfd is readable.
  abbrev IsWoken : World s → Type 0
  IsWoken w = w.loop.pending_functors ≢ [] → 0 < w.loop.counter

  Step-IsWoken : {u v : World s} → Step s u v → IsWoken u → IsWoken v
  Step-IsWoken (Step.accepts a free new) h = h
  Step-IsWoken (Step.receives conn v i o k) h = h
  Step-IsWoken (Step.takes c room k) h = h
  Step-IsWoken {u} (Step.answers e before after c code body k sent) h =
      λ some_pending. unfold send in wakeup_positive (queue (c.0, response code body) u.loop)
  Step-IsWoken (Step.fails e before after c k sent) h = h
  Step-IsWoken Step.turns h = λ some_pending. absurd (some_pending refl)
  Step-IsWoken (Step.elsewhere g st) h = h

  Reach-IsWoken : {u v : World s} → Reach s u v → IsWoken u → IsWoken v
  Reach-IsWoken r h = Steps-keep IsWoken (λ u v t k. Step-IsWoken t k) r h

  -- A world that workers and loop come to.
  record Comes (w : World s) (P : World s → Type 0) : Type 0 where
    last : World s
    run : Steps Driven w last
    received : last.received ≡ w.received
    workers : last.workers ≡ w.workers
    holds : P last

  comes_then :
      (u w : World s) (P : World s → Type 0)
      → Steps Driven u w
      → w.received ≡ u.received
      → w.workers ≡ u.workers
      → Comes w P
      → Comes u P
  comes_then u w P r e k c = record {
    last = c.last;
    run = Steps-trans r c.run;
    received = c.received ∙ e;
    workers = c.workers ∙ k;
    holds = c.holds;
  }

  -- All calls that workers have are finished.
  finish_all :
      (e : Env) (tasks running : List Call) (w : World s)
      → w.running ≡ running
      → w.pool.tasks ≡ tasks
      → Comes w (λ v. (v.pool.tasks ≡ tasks) × (v.running ≡ []))
  finish_all e tasks [] w h k = record {
    last = w;
    run = here;
    received = refl;
    workers = refl;
    holds = (k, h);
  }
  finish_all e tasks (c ∷ rest) w h k =
      let r = handle_request s e w.gateway c.1 w.redis in
      elim (Option-cases r.sent) [
        | inl quiet ↦
            comes_then w _ _ (next here (Step.fails e [] rest c h quiet, tt)) refl refl
              (finish_all e tasks rest _ refl k)
        | inr ((code, body), sent) ↦
            comes_then w _ _ (next here (Step.answers e [] rest c code body h sent, tt)) refl refl
              (finish_all e tasks rest _ refl k)
      ]

  -- One worker takes a task after the other, and finishes each before the next.
  work_off :
      (e : Env) (tasks : List Call) (w : World s)
      → w.pool.tasks ≡ tasks
      → w.running ≡ []
      → 0 < w.workers
      → Comes w (λ v. (v.pool.tasks ≡ []) × (v.running ≡ []))
  work_off e [] w h idle some_worker = record {
    last = w;
    run = here;
    received = refl;
    workers = refl;
    holds = (h, idle);
  }
  work_off e (c ∷ rest) w h idle some_worker =
      let v : World s = record w {
        pool = record w.pool { tasks = rest };
        gateway = counted w.gateway;
        running = w.running ++ c ∷ [];
      } in
      let one : v.running ≡ c ∷ [] = rw idle refl in
      let finished = finish_all e rest (c ∷ []) v one refl in
      let (left, done) = finished.holds in
      let room : length w.running < w.workers = rw idle some_worker in
      comes_then w v _ (next here (Step.takes c room (worker_takes c rest w.pool h), tt)) refl refl
        (comes_then v finished.last _ finished.run finished.received finished.workers
          (work_off e rest finished.last left done (rw finished.workers some_worker)))

  -- And what they left to send is sent.
  flush :
      (w : World s) (fs : List Outgoing)
      → w.loop.pending_functors ≡ fs
      → w.pool.tasks ≡ []
      → w.running ≡ []
      → IsWoken w
      → Comes w (λ v. (v.pool.tasks ≡ []) × (v.running ≡ []) × (v.loop.pending_functors ≡ []))
  flush w [] e h k woken = record {
    last = w;
    run = here;
    received = refl;
    workers = refl;
    holds = (h, k, e);
  }
  flush w (f ∷ fs) e h k woken = record {
    last = _;
    run = next here (Step.turns, woken (λ n. cc));
    received = refl;
    workers = refl;
    holds = (h, k, refl);
  }

  drain :
      (e : Env) (w : World s)
      → 0 < w.workers
      → IsWoken w
      → Comes w (λ v. (v.pool.tasks ≡ []) × (v.running ≡ []) × (v.loop.pending_functors ≡ []))
  drain e w some_worker woken =
      let finished = finish_all e w.pool.tasks w.running w refl refl in
      let (left, done) = finished.holds in
      let worked =
        work_off e w.pool.tasks finished.last left done (rw finished.workers some_worker) in
      let (h, k) = worked.holds in
      comes_then w finished.last _ finished.run finished.received finished.workers (
        comes_then finished.last worked.last _ worked.run worked.received worked.workers (
          flush worked.last worked.last.loop.pending_functors refl h k
            (Reach-IsWoken (driven-Reach (Steps-trans finished.run worked.run)) woken)))

  -- No step changes the number of the workers.
  Step-workers : {u v : World s} → Step s u v → v.workers ≡ u.workers
  Step-workers (Step.accepts a free new) = refl
  Step-workers (Step.receives conn v i o h) = refl
  Step-workers (Step.takes c room h) = refl
  Step-workers (Step.answers e before after c code body k h) = refl
  Step-workers (Step.fails e before after c k h) = refl
  Step-workers Step.turns = refl
  Step-workers (Step.elsewhere g st) = refl

  Reach-workers : {u v : World s} → Reach s u v → v.workers ≡ u.workers
  Reach-workers here = refl
  Reach-workers (next r t) = Step-workers t ∙ Reach-workers r

  -- Nothing gets stuck between the workers and the loop, and the loop has no need of the time limit of
  -- `epoll_wait`. With one worker at least: from every world that the gateway can reach, and without
  -- another message, steps of the workers and turns of the loop that find the eventfd readable lead to a
  -- world in which no task waits, none runs and nothing is pending; there each call that was made, as
  -- often as it was made, was answered or has failed, the parser throws at the bytes of each that
  -- failed, and the loop has sent the responses in the order of the calls of `send`. A worker without a
  -- call is taken to come to the queue, new connections to get descriptors that no connection in the map
  -- has, and names that none had.
  pub all_answered :
      (n : ℕ) (g : Gateway) (st : s.State) (e : Env) {w : World s}
      → 0 < n
      → Reach s (fresh s n g st) w
      → (v : World s) × Steps Driven w v
        × (v.pool.tasks ≡ [])
        × (v.running ≡ [])
        × (v.loop.pending_functors ≡ [])
        × ((c : Call) → times c w.received ≡ times c v.failed + times c (calls v.answered))
        × (v.delivered ≡ outgoing v.answered)
        × AllThrew s v.failed
  all_answered n g st e {w} some_worker r =
      let d =
        drain e w (rw (Reach-workers r) some_worker) (Reach-IsWoken r (λ h. absurd (h refl))) in
      let (idle, finished, flushed) = d.holds in
      let (counted, sent, answers, failures) =
        quiet_answered s n g st (Steps-trans r (driven-Reach d.run)) idle finished flushed in
      (
        d.last,
        d.run,
        idle,
        finished,
        flushed,
        λ c. ap (times c) (sym d.received) ∙ counted c,
        sent,
        failures,
      )
