-- ===== src/Gateway/Flow/Known.antt =====
-- Messages and responses belong to connections that were made.
use lfgateway.Base.{inl, inr, List, [], ◌∷◌, ◌++◌, Option-cases}
use lfgateway.Base.Text.{Bytes}
use lfgateway.Base.Maps.{lookup}
use lfgateway.Redis.{Server}
use lfgateway.Pool.Thread.Fifo.{task-shape}
use lfgateway.Net.Connection.{
  Effect, ctl, queued, written, message, closed_callback, closed, event, sends, Input,
}
use lfgateway.Net.Connection.Silent.{no_reply}
use lfgateway.Net.Serving.{Serving, serve_input}
use lfgateway.Net.Serving.Keeps.{Has, accept-Has, input-Has}
use lfgateway.Gateway.Respond.{response}
use lfgateway.Gateway.Flow.{Outgoing, World, Step, messages, run_sends}
use lfgateway.Gateway.Flow.Queues.{hand_over-tasks, send-pending}

-- The first parts of the pairs are names of connections.
abbrev pub AllHave : Serving → List (Bytes × Bytes) → Type 0
AllHave v [] = Unit {0}
AllHave v (c ∷ l) = Has v c.0 × AllHave v l

pub AllHave-append :
    (v : Serving) (l m : List (Bytes × Bytes)) → AllHave v l → AllHave v m → AllHave v (l ++ m)
AllHave-append v [] m h k = k
AllHave-append v (c ∷ l) m h k = (h.0, AllHave-append v l m h.1 k)

AllHave-parts :
    (v : Serving) (l m : List (Bytes × Bytes)) → AllHave v (l ++ m) → AllHave v l × AllHave v m
AllHave-parts v [] m h = (tt, h)
AllHave-parts v (c ∷ l) m h = let (k, rest) = AllHave-parts v l m h.1 in ((h.0, k), rest)

pub AllHave-later :
    (u v : Serving) (l : List (Bytes × Bytes))
    → ((name : Bytes) → Has u name → Has v name)
    → AllHave u l
    → AllHave v l
AllHave-later u v [] keep h = tt
AllHave-later u v (c ∷ l) keep h = (keep c.0 h.0, AllHave-later u v l keep h.1)

messages-AllHave :
    (v : Serving) (conn : Bytes) (es : List Effect) → Has v conn → AllHave v (messages conn es)
unfolding messages
messages-AllHave v conn [] h = tt
messages-AllHave v conn (message buf ∷ es) h = (h, messages-AllHave v conn es h)
messages-AllHave v conn (ctl k ∷ es) h = messages-AllHave v conn es h
messages-AllHave v conn (queued m ∷ es) h = messages-AllHave v conn es h
messages-AllHave v conn (written m ∷ es) h = messages-AllHave v conn es h
messages-AllHave v conn (closed_callback ∷ es) h = messages-AllHave v conn es h
messages-AllHave v conn (closed fd ∷ es) h = messages-AllHave v conn es h

input-AllHave :
    (conn : Bytes) (i : Input) (v : Serving)
    → AllHave v (messages conn (serve_input no_reply conn i v).1)
unfolding serve_input messages
input-AllHave conn i v = elim (Option-cases (lookup conn v.objects)) [
  | inl e ↦ rw (e, serve_input) tt
  | inr (l, e) ↦ messages-AllHave v conn (serve_input no_reply conn i v).1 (l, e)
]

run_sends-Has :
    (fs : List Outgoing) (v : Serving) (name : Bytes) → Has v name → Has (run_sends fs v) name
unfolding run_sends
run_sends-Has [] v name h = h
run_sends-Has ((conn, text) ∷ fs) v name h =
    run_sends-Has fs (serve_input no_reply conn (sends text) v).0 name
      (input-Has no_reply conn (sends text) v name h)

module _ (s : Server) where
  pub record IsKnown (w : World s) : Type 0 where
    pub tasks : AllHave w.serving w.pool.tasks
    pub running : AllHave w.serving w.running
    pub pending : AllHave w.serving w.loop.pending_functors
    pub delivered : AllHave w.serving w.delivered

  later :
      (w : World s) (v : Serving)
      → ((name : Bytes) → Has w.serving name → Has v name)
      → IsKnown w
      → IsKnown (record w { serving = v })
  later w v keep i = record {
    tasks = AllHave-later w.serving v w.pool.tasks keep i.tasks;
    running = AllHave-later w.serving v w.running keep i.running;
    pending = AllHave-later w.serving v w.loop.pending_functors keep i.pending;
    delivered = AllHave-later w.serving v w.delivered keep i.delivered;
  }

  pub Step-IsKnown : {u v : World s} → Step s u v → IsKnown u → IsKnown v
  Step-IsKnown {u} (Step.accepts a free new) i = later u _ (accept-Has a u.serving) i
  Step-IsKnown {u} (Step.receives {p} conn v r o h) i =
      let (after, es) = serve_input no_reply conn (event v r o) u.serving in
      let keep = input-Has no_reply conn (event v r o) u.serving in
      let k = later u after keep i in
      record {
        tasks = rw (hand_over-tasks conn es u.pool p h) (
            AllHave-append after u.pool.tasks (messages conn es) k.tasks (
              AllHave-later u.serving after (messages conn es) keep
                (input-AllHave conn (event v r o) u.serving)));
        running = k.running;
        pending = k.pending;
        delivered = k.delivered;
      }
  Step-IsKnown {u} (Step.takes {p} c room h) i =
      let (first, rest) : Has u.serving c.0 × AllHave u.serving p.tasks =
        rw (task-shape c u.pool p h).0 at i.tasks in
      record {
        tasks = rest;
        running = AllHave-append u.serving u.running (c ∷ []) i.running (first, tt);
        pending = i.pending;
        delivered = i.delivered;
      }
  Step-IsKnown {u} (Step.answers e before after c code body k h) i =
      let (l, m) = AllHave-parts u.serving before (c ∷ after) (rw k at i.running) in
      record {
        tasks = i.tasks;
        running = AllHave-append u.serving before after l m.1;
        pending = rw (send-pending (c.0, response code body) u.loop) (
            AllHave-append u.serving u.loop.pending_functors ((c.0, response code body) ∷ [])
              i.pending (m.0, tt));
        delivered = i.delivered;
      }
  Step-IsKnown {u} (Step.fails e before after c k h) i =
      let (l, m) = AllHave-parts u.serving before (c ∷ after) (rw k at i.running) in
      record {
        tasks = i.tasks;
        running = AllHave-append u.serving before after l m.1;
        pending = i.pending;
        delivered = i.delivered;
      }
  Step-IsKnown {u} Step.turns i =
      let fs = u.loop.pending_functors in
      let k = later u (run_sends fs u.serving) (run_sends-Has fs u.serving) i in
      record {
        tasks = k.tasks;
        running = k.running;
        pending = tt;
        delivered = AllHave-append (run_sends fs u.serving) u.delivered fs k.delivered k.pending;
      }
  Step-IsKnown (Step.elsewhere g st) i = record {
    tasks = i.tasks;
    running = i.running;
    pending = i.pending;
    delivered = i.delivered;
  }
