-- ===== src/Gateway/Flow/Sample.antt =====
-- A run for tests: one request that comes, is refused with a 400 by a worker, and is answered by the loop.
use lfgateway.Base.{arith, refl, true, false, some, [], ◌∷◌, ◌++◌}
use lfgateway.Base.Text.{Bytes, codes, equal, find}
use lfgateway.Base.Int.{pos, print_int}
use lfgateway.Base.Maps.{lookup, insert}
use lfgateway.Base.Reach.{here, next}
use lfgateway.Http.{parse, run, round, fuel}
use lfgateway.Redis.{Server, integer}
use lfgateway.Limiter.Distributed.{context}
use lfgateway.Pool.Thread.{enqueue_future, worker_loop}
use lfgateway.Net.Channel.{Revents, handle_event, enable_reading}
use lfgateway.Net.Connection.{event, got, write_again, establish, run_input, run_callback, send_all}
use lfgateway.Net.Acceptor.{accepted}
use lfgateway.Net.Server.{conn_name, new_connection}
use lfgateway.Net.Serving.{serve_accept, serve_input}
use lfgateway.Gateway.{Gateway}
use lfgateway.Gateway.Process.{Env, counted, handle_request}
use lfgateway.Gateway.Respond.{response}
use lfgateway.Net.Connection.Silent.{no_reply}
use lfgateway.Gateway.Flow.{Call, World, Step, Reach, fresh, hand_over, messages, send, run_sends}

-- A server that answers every command with the number 0.
abbrev pub zeros : Server
zeros = record { State = Unit {0}; send = λ c st. (some (integer (pos 0)), st) }

abbrev pub no_routes : Gateway
no_routes = record {
  counters = record {
    total_requests = 0;
    total_latency_us = 0;
    rejected_auth = 0;
    rejected_limit = 0;
  };
  router = record { rules = [] };
  distributed_limiter = record {
    key_prefix = codes "gateway:rate_limit";
    last_error = [];
    redis_available = true;
  };
}

abbrev pub env : Env
env = record {
  now_ms = 70;
  now_s = 7;
  connection = context;
  latency_us = 12;
  latency_text = codes "0.012000";
}

abbrev pub readable : Revents
readable = record {
  hup = false;
  readable = true;
  pri = false;
  err = false;
  rdhup = false;
  writable = false;
}

abbrev pub conn : Bytes
conn = conn_name (codes "ApiServer") (pos 1)

abbrev pub call : Call
call = (conn, codes "G")

abbrev pub started : World zeros
started = fresh zeros 2 no_routes tt

abbrev pub connected : World zeros
connected = record started { serving = (serve_accept (accepted 9) started.serving).0 }

abbrev pub heard : World zeros
heard =
    let r =
      serve_input no_reply conn (event readable (got b'G' []) write_again) connected.serving in
    record connected {
      serving = r.0;
      pool = record { tasks = call ∷ []; stop = false };
      received = [] ++ messages conn r.1;
    }

abbrev pub working : World zeros
working = record heard {
  pool = record { tasks = []; stop = false };
  gateway = counted no_routes;
  running = call ∷ [];
}

abbrev pub bad : Bytes
bad = codes "{\"error\": \"bad request\"}"

abbrev pub answered : World zeros
answered =
    let r = handle_request zeros env (counted no_routes) (codes "G") tt in
    record working {
      loop = send (conn, response 400 bad) working.loop;
      gateway = r.gateway;
      redis = r.redis;
      running = [];
      answered = (call, response 400 bad) ∷ [];
    }

abbrev pub delivered : World zeros
delivered = record answered {
  loop = record answered.loop { counter = 0; pending_functors = [] };
  serving = run_sends answered.loop.pending_functors answered.serving;
  delivered = answered.loop.pending_functors;
}

unfoldable pub accepts_one : Step zeros started connected
unfolding lookup
accepts_one = Step.accepts (accepted 9) (λ name h. cc) refl

unfoldable pub hears_one : Step zeros connected heard
unfolding hand_over enqueue_future serve_accept serve_input establish insert lookup equal run_input
    handle_event run_callback send_all new_connection conn_name print_int enable_reading
hears_one = Step.receives conn readable (got b'G' []) write_again refl

unfoldable pub takes_one : Step zeros heard working
unfolding worker_loop
takes_one = Step.takes call (omega arith) refl

unfoldable pub answers_one : Step zeros working answered
unfolding handle_request parse run round fuel find
answers_one = Step.answers env [] [] call 400 bad refl refl

pub whole_run : Reach zeros started delivered
whole_run =
    next (next (next (next (next here accepts_one) hears_one) takes_one) answers_one) Step.turns
