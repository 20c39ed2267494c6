-- ===== src/Gateway/Flow/Answered.antt =====
-- What becomes of the messages, over any interleaving of the loop's thread and the workers.
use lfgateway.Base.{
  ℕ, ◌+◌, ◌≡◌, refl, sym, ap, ◌∙◌, some, List, [], ◌∷◌, ◌++◌, append_assoc, append-nil, arith,
}
use lfgateway.Base.Text.{Bytes}
use lfgateway.Base.Reach.{Steps-keep}
use lfgateway.Redis.{Server}
use lfgateway.Pool.Thread.Fifo.{task-shape}
use lfgateway.Net.Serving.{serve_input}
use lfgateway.Net.Connection.{event}
use lfgateway.Gateway.{Gateway}
use lfgateway.Gateway.Process.{Env, handle_request}
use lfgateway.Gateway.Process.Fails.{Throws, none-Throws, Throws-none}
use lfgateway.Gateway.Respond.{response}
use lfgateway.Gateway.Flow.Counted.{
  times, times-append, times-middle, calls, outgoing, calls-append_one, outgoing-append_one,
}
use lfgateway.Net.Connection.Silent.{no_reply}
use lfgateway.Gateway.Flow.{Call, Outgoing, World, Step, Reach, fresh, messages}
use lfgateway.Gateway.Flow.Queues.{hand_over-tasks, send-pending}

module _ (s : Server) where
  -- The text of an answer is the response that `processApiRequest` made of the call, at whose bytes the
  -- parser does not throw.
  pub record IsAnswer (a : Call × Bytes) : Type 0 where
    pub env : Env
    pub gateway : Gateway
    pub redis : s.State
    pub code : ℕ
    pub body : Bytes
    pub made : (handle_request s env gateway a.0.1 redis).sent ≡ some (code, body)
    pub text : a.1 ≡ response code body
    pub parsed : ¬ Throws a.0.1

  abbrev pub AllAnswers : List (Call × Bytes) → Type 0
  AllAnswers [] = Unit
  AllAnswers (a ∷ l) = IsAnswer a × AllAnswers l

  AllAnswers-snoc :
      (l : List (Call × Bytes)) (a : Call × Bytes)
      → AllAnswers l
      → IsAnswer a
      → AllAnswers (l ++ a ∷ [])
  AllAnswers-snoc [] a h k = (k, tt)
  AllAnswers-snoc (b ∷ l) a h k = (h.0, AllAnswers-snoc l a h.1 k)

  -- A call at whose bytes the parser throws.
  abbrev pub AllThrew : List Call → Type 0
  AllThrew [] = Unit
  AllThrew (c ∷ l) = Throws c.1 × AllThrew l

  AllThrew-snoc : (l : List Call) (c : Call) → AllThrew l → Throws c.1 → AllThrew (l ++ c ∷ [])
  AllThrew-snoc [] c h k = (k, tt)
  AllThrew-snoc (b ∷ l) c h k = (h.0, AllThrew-snoc l c h.1 k)

  -- Each call waits, runs, has failed or was answered, as often as it was made; what was answered is
  -- delivered or pending, in order.
  pub record IsConserved (w : World s) : Type 0 where
    pub counted :
        (c : Call)
        → times c w.received
          ≡ times c w.pool.tasks + times c w.running + times c w.failed + times c (calls w.answered)
    pub in_order : w.delivered ++ w.loop.pending_functors ≡ outgoing w.answered
    pub answers : AllAnswers w.answered
    pub failures : AllThrew w.failed

  pub Step-IsConserved : {u v : World s} → Step s u v → IsConserved u → IsConserved v
  Step-IsConserved (Step.accepts a free new) i = record {
    counted = i.counted;
    in_order = i.in_order;
    answers = i.answers;
    failures = i.failures;
  }
  Step-IsConserved {u} (Step.receives {p} conn v r o h) i =
      let es = (serve_input no_reply conn (event v r o) u.serving).1 in
      record {
        counted = λ c. rw (hand_over-tasks conn es u.pool p h) (
            omega (
              arith,
              i.counted c,
              times-append c u.received (messages conn es),
              times-append c u.pool.tasks (messages conn es),
            ));
        in_order = i.in_order;
        answers = i.answers;
        failures = i.failures;
      }
  Step-IsConserved {u} (Step.takes {p} c room h) i = record {
    counted = λ d.
        unfold times in
        (omega (
          arith,
          i.counted d,
          ap (times d) (task-shape c u.pool p h).0,
          times-append d u.running (c ∷ []),
        ));
    in_order = i.in_order;
    answers = i.answers;
    failures = i.failures;
  }
  Step-IsConserved {u} (Step.answers e before after c code body k h) i =
      let new : Call × Bytes = (c, response code body) in
      let o : Outgoing = (c.0, response code body) in
      let pending = u.loop.pending_functors in
      record {
        counted = λ d. rw (calls-append_one u.answered new) (
            omega (
              arith,
              i.counted d,
              ap (times d) k,
              times-middle d c before after,
              times-append d (calls u.answered) (c ∷ []),
            ));
        in_order =
            rw
              (
                send-pending o u.loop,
                outgoing-append_one u.answered new,
                ← append_assoc u.delivered pending (o ∷ []),
                i.in_order,
              )
              refl;
        answers = AllAnswers-snoc u.answered new i.answers (record {
          env = e;
          gateway = u.gateway;
          redis = u.redis;
          code = code;
          body = body;
          made = h;
          text = refl;
          parsed = λ t. let none_sent = Throws-none s e u.gateway c.1 u.redis t in cc;
        });
        failures = i.failures;
      }
  Step-IsConserved {u} (Step.fails e before after c k h) i = record {
    counted = λ d. omega (
      arith,
      i.counted d,
      ap (times d) k,
      times-middle d c before after,
      times-append d u.failed (c ∷ []),
    );
    in_order = i.in_order;
    answers = i.answers;
    failures = AllThrew-snoc u.failed c i.failures (none-Throws s e u.gateway c.1 u.redis h);
  }
  Step-IsConserved {u} Step.turns i = record {
    counted = i.counted;
    in_order = append-nil _ ∙ i.in_order;
    answers = i.answers;
    failures = i.failures;
  }
  Step-IsConserved (Step.elsewhere g st) i = record {
    counted = i.counted;
    in_order = i.in_order;
    answers = i.answers;
    failures = i.failures;
  }

  pub Reach-IsConserved :
      (n : ℕ) (g : Gateway) (st : s.State) {w : World s}
      → Reach s (fresh s n g st) w
      → IsConserved w
  unfolding times
  Reach-IsConserved n g st r =
      Steps-keep IsConserved (λ u v t i. Step-IsConserved t i) r
        (record { counted = λ c. omega arith; in_order = refl; answers = tt; failures = tt })

  -- No message is lost and none is answered twice. Where no task waits, none runs and no functor is
  -- pending, each call was answered or has failed, as often as it was made, whatever the workers, the
  -- loop and other users of the gateway and of Redis did in between. The loop has sent each answer, in
  -- the order of the calls of `send`, to the connection of its call, as the response of `processApiRequest`
  -- to the call's bytes; and the parser throws at the bytes of each call that failed and of no call that was
  -- answered.
  -- New connections are taken to get descriptors that no connection in the map has, and names
  -- that none had.
  pub quiet_answered :
      (n : ℕ) (g : Gateway) (st : s.State) {w : World s}
      → Reach s (fresh s n g st) w
      → w.pool.tasks ≡ []
      → w.running ≡ []
      → w.loop.pending_functors ≡ []
      → ((c : Call) → times c w.received ≡ times c w.failed + times c (calls w.answered))
        × (w.delivered ≡ outgoing w.answered)
        × AllAnswers w.answered
        × AllThrew w.failed
  unfolding times
  quiet_answered n g st {w} r idle finished flushed =
      let i = Reach-IsConserved n g st r in
      (
        λ c. omega (arith, i.counted c, ap (times c) idle, ap (times c) finished),
        sym (append-nil w.delivered) ∙ rw (← flushed) i.in_order,
        i.answers,
        i.failures,
      )
