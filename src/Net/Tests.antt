-- ===== src/Net/Tests.antt =====
-- The loop, a channel, a connection and a server at concrete inputs.
use lfgateway.Net.Serving.Teardown.{destroy_server, destroy_server-silences}
use lfgateway.Base.Reach.{here, next}
use lfgateway.Base.{ℕ, ◌≡◌, refl, inl, inr, true, false, some, List, [], ◌∷◌, ◌++◌, arith}
use lfgateway.Base.Text.{Bytes, codes}
use lfgateway.Base.Int.{pos}
use lfgateway.Net.Channel.{channel, Revents, handle_event}
use lfgateway.Net.Channel.Contract.{
  Op, enables_reading, enables_writing, removes, disables_all, apply_all, interest,
  interest-apply_all,
}
use lfgateway.Net.EventLoop.{loop_start, wakeup}
use lfgateway.Net.EventLoop.Wakeup.{
  World, waiting, posts, wakes, reads, turns, Reach, IsServed, Reach-IsServed,
}
use lfgateway.Net.Connection.{
  TcpConnection, establish, run_inputs, Input, event, sends, got, end_of_input, read_again, took,
  write_again,
}
use lfgateway.Net.Connection.Closed.{closes, owned, life-closes}
use lfgateway.Net.Connection.Written.{Flows, inputs-Flows}
use lfgateway.Net.Connection.Armed.{IsArmed, inputs-IsArmed}
use lfgateway.Net.Server.{TcpServer, tcp_server, new_connection, remove_connection, conn_name}
use lfgateway.Base.Maps.{lookup}
use lfgateway.Net.Acceptor.{accepted}
use lfgateway.Net.Serving.{Serving, Life, serving, serve_accept, serve_input}
use lfgateway.Net.Serving.Open
use lfgateway.Net.Serving.Open.{accepts, handles, IsOpenMap, Reach-IsOpenMap}
use lfgateway.Net.Server.Fresh.{IsNumbered, new_connection-adds}

abbrev life : List Op
life = enables_reading ∷ enables_writing ∷ removes ∷ disables_all ∷ []

epoll_agrees : let r = apply_all life (channel 7) in interest false r.1 ≡ some r.0.indexed
epoll_agrees = interest-apply_all life (channel 7)

abbrev idle : World ℕ
idle = record { loop = loop_start [] 0; phase = waiting; waking = 0; posted = []; ran = [] }

abbrev served : World ℕ
served = record {
  loop = loop_start [] 0;
  phase = waiting;
  waking = 0;
  posted = 5 ∷ [];
  ran = 5 ∷ [];
}

-- A functor is posted, the loop is woken, reads the eventfd and runs it.
one_functor : Reach idle served
unfolding wakeup
one_functor =
    next (next (next (next here (posts 5)) (wakes refl)) (reads refl (omega arith))) (turns refl)

idle-IsServed : IsServed idle
idle-IsServed = record { in_order = refl; awake = λ p h. absurd (ground arith) }

Reach-IsServed_example : IsServed served
Reach-IsServed_example = Reach-IsServed one_functor idle-IsServed

abbrev reply : Bytes → List Bytes
reply b = codes "pong" ∷ []

abbrev readable : Revents
readable = record {
  hup = false;
  readable = true;
  pri = false;
  err = false;
  rdhup = false;
  writable = false;
}

abbrev writable : Revents
writable = record {
  hup = false;
  readable = false;
  pri = false;
  err = false;
  rdhup = false;
  writable = true;
}

-- A message comes, a part of the answer is written, another thread sends, the peer closes.
abbrev talk : List Input
talk =
    event readable (got 1 []) write_again
    ∷ event writable read_again (took 3)
    ∷ sends (codes "x")
    ∷ event readable end_of_input write_again
    ∷ []

life-closes_example :
    let (c, es) = establish 9 in
    let (d, fs) = run_inputs reply talk c in closes (es ++ fs) ++ owned d ≡ 9 ∷ []
life-closes_example = life-closes reply talk 9

abbrev opened : TcpConnection
opened = record {
  sockfd = some 9;
  channel = record {
    fd = 9;
    events = record { reading = true; writing = false };
    indexed = true;
    removed = false;
  };
  input_buffer = [];
  output_buffer = [];
}

inputs-Flows_example : Flows opened (run_inputs reply talk opened)
inputs-Flows_example = inputs-Flows reply talk opened

inputs-IsArmed_example : IsArmed (run_inputs reply talk opened).0
inputs-IsArmed_example = inputs-IsArmed reply talk opened (inr (inl refl))

abbrev api : TcpServer
api = tcp_server (codes "ApiServer")

first_connection :
    ((new_connection 9 api).connections ≡ (conn_name api.name (pos 1), 9) ∷ [])
    × IsNumbered 2 (new_connection 9 api)
    × IsNumbered 1 (remove_connection (codes "ApiServer-0") api)
first_connection =
    new_connection-adds 1 9 (codes "ApiServer-0") api (omega arith)
      (record { short = omega arith; numbered = refl; older = tt })

-- A descriptor is accepted, and its peer closes.
abbrev after_accept : Serving
after_accept = (serve_accept (accepted 9) (serving (codes "ApiServer"))).0

abbrev after_close : Serving
after_close =
    (serve_input reply (codes "ApiServer-1") (event readable end_of_input write_again)
      after_accept).0

one_connection : Open.Reach reply (serving (codes "ApiServer")) after_close
unfolding lookup
one_connection =
    next (next here (accepts (accepted 9) (λ name h. cc) refl))
      (handles (codes "ApiServer-1") (event readable end_of_input write_again))

Reach-IsOpenMap_example : IsOpenMap after_close
Reach-IsOpenMap_example = Reach-IsOpenMap reply (codes "ApiServer") after_close one_connection

one_open : Open.Reach reply (serving (codes "ApiServer")) after_accept
unfolding lookup
one_open = next here (accepts (accepted 9) (λ name h. cc) refl)

destroy_server-silences_example :
    ((conn : Bytes) (l : Life) (v : Revents)
      → lookup conn (destroy_server reply after_accept).0.objects ≡ some l
      → handle_event l.connection.channel v ≡ [])
    × (closes (destroy_server reply after_accept).1 ≡ [])
destroy_server-silences_example =
    destroy_server-silences reply (codes "ApiServer") after_accept one_open
