-- ===== src/Gateway/Flow.antt =====
-- The API server, the thread pool and the loop together (gateway/src/gateway.cpp): a message of a
-- connection is a task of the pool, and its response is sent by a functor of the loop.
pub mod Counted
pub mod Queues
pub mod Answered
pub mod Serves
pub mod Known
pub mod Took
pub mod Wire
pub mod Overtake
pub mod Drain
pub mod Sample
mod Tests
use lfgateway.Base.{
  ℕ, suc, ◌≡◌, Bool, true, false, ◌&&◌, Option, none, some, List, [], ◌∷◌, ◌++◌, map, length, ◌<◌,
  if◌then◌else◌,
}
use lfgateway.Base.Text.{Bytes, codes, equal}
use lfgateway.Base.Reach.{Steps}
use lfgateway.Redis.{Server}
use lfgateway.Pool.Thread.{
  ThreadPool, thread_pool, Enqueued, queued, dropped, threw, enqueue_future, worker_loop, runs,
}
use lfgateway.Net.EventLoop.{
  EventLoop, loop_start, wakeup, handle_wakeup, queue, do_pending_functors,
}
use lfgateway.Net.Channel.{Revents}
use lfgateway.Net.Connection.{Effect, message, Read, Write, event, sends}
use lfgateway.Net.Connection.Silent.{no_reply}
use lfgateway.Net.Acceptor.{Accept, accepted}
use lfgateway.Net.Serving.{Serving, serving, serve_accept, serve_input}
use lfgateway.Net.Server.{conn_name}
use lfgateway.Base.Maps.{lookup}
use lfgateway.Net.Serving.Open.{IsFree, IsNew}
use lfgateway.Gateway.{Gateway}
use lfgateway.Gateway.Process.{Env, counted, handle_request}
use lfgateway.Gateway.Respond.{response}

-- A connection, which its name stands for, and the bytes of its message.
abbrev pub Call : Type 0
Call = Bytes × Bytes

-- A connection and the text that goes to it.
abbrev pub Outgoing : Type 0
Outgoing = Bytes × Bytes

-- `onApiRequest`: nothing is sent on the loop's thread.
unfoldable pub on_api_request : Bytes → Bytes → ThreadPool Call → Enqueued Call
on_api_request conn buf p = enqueue_future (conn, buf) p

-- The message callbacks among the effects; `none` if the pool refused one.
unfoldable pub hand_over : Bytes → List Effect → ThreadPool Call → Option (ThreadPool Call)
unfolding on_api_request
hand_over conn [] p = some p
hand_over conn (message buf ∷ es) p = elim (on_api_request conn buf p) [
  | queued q ↦ hand_over conn es q
  | dropped ↦ hand_over conn es p
  | threw ↦ none
]
hand_over conn (e ∷ es) p = hand_over conn es p

-- The calls that the effects ask for.
unfoldable pub messages : Bytes → List Effect → List Call
messages conn [] = []
messages conn (message buf ∷ es) = (conn, buf) ∷ messages conn es
messages conn (e ∷ es) = messages conn es

-- `TcpConnection::send` on a worker's thread.
unfoldable pub send : Outgoing → EventLoop Outgoing → EventLoop Outgoing
send reply l = wakeup (queue reply l)

-- The functors of a turn, each of which is a `sendInLoop`.
unfoldable pub run_sends : List Outgoing → Serving → Serving
run_sends [] v = v
run_sends ((conn, text) ∷ fs) v = run_sends fs (serve_input no_reply conn (sends text) v).0

module _ (s : Server) where
  -- `received` are the calls that were made, `running` those that workers have, `failed` those that
  -- ended with an exception, `answered` those that ended, with their texts, and `delivered` what the
  -- loop sent.
  pub record World : Type 0 where
    pub serving : Serving
    pub pool : ThreadPool Call
    pub loop : EventLoop Outgoing
    pub gateway : Gateway
    pub redis : s.State
    pub workers : ℕ
    pub received : List Call
    pub running : List Call
    pub failed : List Call
    pub answered : List (Call × Bytes)
    pub delivered : List Outgoing

  -- The gateway behind its start, with `n` workers.
  abbrev pub fresh : ℕ → Gateway → s.State → World
  fresh n g st = record {
    serving = serving (codes "ApiServer");
    pool = thread_pool;
    loop = loop_start [] 0;
    gateway = g;
    redis = st;
    workers = n;
    received = [];
    running = [];
    failed = [];
    answered = [];
    delivered = [];
  }

  -- The loop's thread accepts, handles an event of a connection or runs the pending functors; a worker
  -- takes a task, which counts the request, or finishes one; and what else has the gateway and Redis changes them.
  pub data Step (w : World) : World → Type 0 where
    accepts :
        (a : Accept)
        → IsFree a w.serving
        → IsNew a w.serving
        → Step w (record w { serving = (serve_accept a w.serving).0 })
    receives :
        {p : ThreadPool Call} (conn : Bytes) (v : Revents) (r : Read) (wr : Write)
        → hand_over conn (serve_input no_reply conn (event v r wr) w.serving).1 w.pool ≡ some p
        → Step w (record w {
          serving = (serve_input no_reply conn (event v r wr) w.serving).0;
          pool = p;
          received =
              w.received ++ messages conn (serve_input no_reply conn (event v r wr) w.serving).1;
        })
    takes :
        {p : ThreadPool Call} (c : Call)
        → length w.running < w.workers
        → worker_loop w.pool ≡ runs c p
        → Step w (record w { pool = p; gateway = counted w.gateway; running = w.running ++ c ∷ [] })
    answers :
        (e : Env) (before after : List Call) (c : Call) (code : ℕ) (body : Bytes)
        → w.running ≡ before ++ c ∷ after
        → (handle_request s e w.gateway c.1 w.redis).sent ≡ some (code, body)
        → Step w (record w {
          loop = send (c.0, response code body) w.loop;
          gateway = (handle_request s e w.gateway c.1 w.redis).gateway;
          redis = (handle_request s e w.gateway c.1 w.redis).redis;
          running = before ++ after;
          answered = w.answered ++ (c, response code body) ∷ [];
        })
    fails :
        (e : Env) (before after : List Call) (c : Call)
        → w.running ≡ before ++ c ∷ after
        → (handle_request s e w.gateway c.1 w.redis).sent ≡ none
        → Step w (record w {
          gateway = (handle_request s e w.gateway c.1 w.redis).gateway;
          redis = (handle_request s e w.gateway c.1 w.redis).redis;
          running = before ++ after;
          failed = w.failed ++ c ∷ [];
        })
    -- A turn reads the eventfd, if it is readable.
    turns : Step w (record w {
      loop = (do_pending_functors (handle_wakeup w.loop)).1;
      serving = run_sends (do_pending_functors w.loop).0 w.serving;
      delivered = w.delivered ++ (do_pending_functors w.loop).0;
    })
    elsewhere : (g : Gateway) (st : s.State) → Step w (record w { gateway = g; redis = st })

  abbrev pub Reach : World → World → Type 0
  Reach = Steps Step
