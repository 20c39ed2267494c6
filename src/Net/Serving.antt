-- ===== src/Net/Serving.antt =====
-- A server at work: the acceptor's callback, the map of the connections, and the connections
-- themselves, which outlive their entry in the map (src/net/tcp_server.cpp, tcp_connection.cpp and
-- the dispatch in eventloop.cpp).
pub mod Open
pub mod Keeps
pub mod Replay
pub mod Teardown
use lfgateway.Base.{ℕ, Bool, true, false, Option, none, some, List, [], ◌∷◌, ◌++◌, if◌then◌else◌}
use lfgateway.Base.Text.{Bytes}
use lfgateway.Base.Maps.{lookup, insert}
use lfgateway.Net.Acceptor.{Accept, accept_read}
use lfgateway.Net.Connection.{TcpConnection, Effect, establish, Input, run_input}
use lfgateway.Net.Connection.Told.{calls_back}
use lfgateway.Net.Server.{TcpServer, tcp_server, conn_name, new_connection, remove_connection}

-- A connection and what it has done so far.
pub record Life : Type 0 where
  pub connection : TcpConnection
  pub effects : List Effect

-- `objects` are the connections that were made, also those that are closed, by their names.
pub record Serving : Type 0 where
  pub server : TcpServer
  pub objects : List (Bytes × Life)

abbrev pub serving : Bytes → Serving
serving name = record { server = tcp_server name; objects = [] }

-- The acceptor's channel has an event. A connection is known by its name, so this is the server as long
-- as a new connection's name is new, which the step relations ask for.
take_connection : Option ℕ → Serving → Serving × List Effect
take_connection none s = (s, [])
take_connection (some fd) s =
    let name = conn_name s.server.name s.server.next_conn_id in
    let (c, es) = establish fd in
    (
      record {
        server = new_connection fd s.server;
        objects = insert name (record { connection = c; effects = es }) s.objects;
      },
      es,
    )

unfoldable pub serve_accept : Accept → Serving → Serving × List Effect
unfolding take_connection accept_read
serve_accept a s = take_connection (accept_read a) s

after_input : Bytes → List Effect → TcpConnection × List Effect → Serving → Serving × List Effect
after_input name before (c, es) s = (
  record {
    server = if calls_back es then remove_connection name s.server else s.server;
    objects = insert name (record { connection = c; effects = before ++ es }) s.objects;
  },
  es,
)

-- A connection has an event, or something to send; a name that no connection has is no event.
unfoldable pub serve_input : (Bytes → List Bytes) → Bytes → Input → Serving → Serving × List Effect
unfolding after_input
serve_input reply name i s = elim (lookup name s.objects) [
  | none ↦ (s, [])
  | some l ↦ after_input name l.effects (run_input reply i l.connection) s
]
