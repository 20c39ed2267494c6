-- ===== src/Gateway/Flow/Tests.antt =====
-- One request that comes, is refused with a 400 by a worker, and is answered by the loop.
use lfgateway.Base.{arith, ◌+◌, ◌≡◌, ◌⊎◌, refl, true, false, some, List, [], ◌∷◌, ◌++◌}
use lfgateway.Base.Text.{Bytes, codes, equal, find}
use lfgateway.Base.Int.{print_int}
use lfgateway.Base.Maps.{lookup, insert}
use lfgateway.Router.{match, first_match}
use lfgateway.Http.{crlf, parse, run, round, fuel}
use lfgateway.Net.EventLoop.{wakeup}
use lfgateway.Net.Channel.{handle_event, enable_reading}
use lfgateway.Net.Connection.{event, got, write_again, establish, run_input, run_callback, send_all}
use lfgateway.Net.Server.{conn_name, new_connection}
use lfgateway.Net.Serving.{serve_accept, serve_input}
use lfgateway.Gateway.Process.{handle_request}
use lfgateway.Gateway.Respond.{response}
use lfgateway.Net.Connection.Asked.{joined}
use lfgateway.Net.Connection.Silent.{no_reply}
use lfgateway.Gateway.Flow.{Call, World, Reach, send, run_sends}
use lfgateway.Gateway.Flow.Counted.{times, calls, outgoing}
use lfgateway.Gateway.Flow.Answered.{AllAnswers, AllThrew, quiet_answered}
use lfgateway.Base.Reach.{here, next, Steps}
use lfgateway.Gateway.Flow.Drain.{Driven, all_answered}
use lfgateway.Gateway.Flow.Overtake.{answers_overtake}
use lfgateway.Net.Serving.{Life}
use lfgateway.Net.Serving.Replay.{life_of}
use lfgateway.Net.Connection.{sends, run_inputs, send_in_loop, is_closed}
use lfgateway.Net.Connection.Written.{bytes_written}
use lfgateway.Gateway.Flow.Took.{texts}
use lfgateway.Gateway.Flow.Wire.{connection_wire}
use lfgateway.Gateway.Flow.Sample.{
  heard, accepts_one, hears_one, zeros, no_routes, env, readable, conn, call, connected, bad,
  delivered, whole_run,
}

quiet_answered_example :
    ((c : Call)
      → times c delivered.received ≡ times c delivered.failed + times c (calls delivered.answered))
    × (delivered.delivered ≡ outgoing delivered.answered)
    × AllAnswers zeros delivered.answered
    × AllThrew zeros delivered.failed
unfolding send wakeup
quiet_answered_example = quiet_answered zeros 2 no_routes tt whole_run refl refl refl

-- A piece of a request and a whole one came on one connection.
abbrev lost : Call
lost = (conn, codes "GET / V" ++ (crlf ++ crlf))

abbrev two_waiting : World zeros
two_waiting = record connected {
  pool = record { tasks = call ∷ lost ∷ []; stop = false };
  received = call ∷ lost ∷ [];
}

abbrev no_route : Bytes
no_route = codes "{\"error\": \"no route\"}"

answers_overtake_example :
    (v : World zeros) × Reach zeros two_waiting v
    × (v.delivered ≡ [] ++ (conn, response 404 no_route) ∷ (conn, response 400 bad) ∷ [])
unfolding handle_request parse run round fuel find equal match first_match
answers_overtake_example =
    answers_overtake zeros two_waiting env env call lost [] 400 404 bad no_route refl refl
      (omega arith) refl refl refl

-- The connection, which has its response in the output buffer.
abbrev answered_life : Life
answered_life =
    life_of no_reply 9 (event readable (got b'G' []) write_again ∷ sends (response 400 bad) ∷ [])

made : lookup conn delivered.serving.objects ≡ some answered_life
unfolding lookup insert equal serve_accept serve_input establish run_input handle_event run_callback
    send_all new_connection conn_name print_int enable_reading run_sends send wakeup run_inputs
    send_in_loop
made = refl

connection_wire_example :
    (ts : List Bytes) × (after : List Bytes) × (ts ++ after ≡ texts conn delivered.delivered)
    × (bytes_written answered_life.effects ++ answered_life.connection.output_buffer ≡ joined ts)
    × ((after ≡ []) ⊎ (is_closed answered_life.connection ≡ true))
connection_wire_example = connection_wire zeros 2 no_routes tt conn answered_life whole_run made

all_answered_example :
    (v : World zeros) × Steps (Driven zeros) heard v
    × (v.pool.tasks ≡ [])
    × (v.running ≡ [])
    × (v.loop.pending_functors ≡ [])
    × ((c : Call) → times c heard.received ≡ times c v.failed + times c (calls v.answered))
    × (v.delivered ≡ outgoing v.answered)
    × AllThrew zeros v.failed
all_answered_example =
    all_answered zeros 2 no_routes tt env (omega arith) (next (next here accepts_one) hears_one)
