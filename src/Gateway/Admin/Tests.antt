-- ===== src/Gateway/Admin/Tests.antt =====
-- The health of a gateway without any connection of its pool, asked on the management port.
use lfgateway.Base.{◌≡◌, refl, true, false, some, [], ◌∷◌, ◌++◌}
use lfgateway.Base.Text.{Bytes, codes, equal, starts_with}
use lfgateway.Base.Int.{pos, print_int}
use lfgateway.Base.Maps.{lookup, insert}
use lfgateway.Base.Reach.{here, next}
use lfgateway.Mysql.Pool.{empty_pool}
use lfgateway.Net.Channel.{Revents, handle_event, enable_reading}
use lfgateway.Net.Acceptor.{accepted}
use lfgateway.Net.Connection.{event, got, write_again, establish, run_input, run_callback, send_all}
use lfgateway.Net.Connection.Asked.{asked, joined}
use lfgateway.Net.Connection.Written.{bytes_written}
use lfgateway.Net.Server.{conn_name, new_connection}
use lfgateway.Net.Serving.{Life, serve_accept, serve_input}
use lfgateway.Net.Serving.Keeps.{first_life, next_life}
use lfgateway.Gateway.Json.{get_health_json}
use lfgateway.Mgmt.{on_message, handle, dispatch}
use lfgateway.Gateway.Flow.Took.{texts}
use lfgateway.Gateway.Admin.{Port, Step, fresh, on_mgmt_request, replies}
use lfgateway.Gateway.Admin.Sample.{idle, env}
use lfgateway.Gateway.Admin.Wire.{mgmt_wire}

abbrev readable : Revents
readable = record {
  hup = false;
  readable = true;
  pri = false;
  err = false;
  rdhup = false;
  writable = false;
}

abbrev conn : Bytes
conn = conn_name (codes "MgmtServer") (pos 1)

abbrev connected : Port
connected = record (fresh idle) { serving = (serve_accept (accepted 9) (fresh idle).serving).0 }

abbrev health_text : Bytes
health_text = get_health_json idle.counters empty_pool ++ codes "\n"

abbrev told : Port
told = record connected {
  serving =
      (serve_input (replies idle env) conn (event readable (got b'H' (codes "EALTH")) write_again)
        connected.serving).0;
  mgmt = (on_mgmt_request idle env (codes "HEALTH")).world;
  sent = (conn, health_text) ∷ [];
}

accepts_one : Step (fresh idle) connected
unfolding lookup
accepts_one = Step.accepts (accepted 9) (λ name h. cc) refl

tells_one : Step connected told
unfolding asked serve_accept serve_input establish insert lookup equal run_input handle_event
    run_callback send_all new_connection conn_name print_int enable_reading on_mgmt_request
    on_message handle dispatch starts_with
tells_one =
    Step.answers env conn (codes "HEALTH") health_text readable (got b'H' (codes "EALTH"))
      write_again refl refl

abbrev told_life : Life
told_life =
    next_life (replies idle env) (event readable (got b'H' (codes "EALTH")) write_again)
      (first_life 9)

made : lookup conn told.serving.objects ≡ some told_life
unfolding lookup insert equal serve_accept serve_input establish new_connection conn_name print_int
made = refl

mgmt_wire_example :
    bytes_written told_life.effects ++ told_life.connection.output_buffer
    ≡ joined (texts conn told.sent)
mgmt_wire_example = mgmt_wire idle conn told_life (next (next here accepts_one) tells_one) made
