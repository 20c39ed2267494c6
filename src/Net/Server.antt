-- ===== src/Net/Server.antt =====
-- `TcpServer` (src/net/tcp_server.cpp): the map of its connections. A connection is the number of
-- its socket here; what it does is in the module of connections.
pub mod Fresh
use lfgateway.Base.{ℕ, zero, suc, ◌+◌, ◌-◌, ◌^◌, ltb, List, [], ◌∷◌, ◌++◌, if◌then◌else◌, take}
use lfgateway.Base.Text.{Bytes, codes}
use lfgateway.Base.Int.{ℤ, pos, negsuc, print_int}
use lfgateway.Base.Maps.{insert, erase}

pub record TcpServer : Type 0 where
  pub name : Bytes
  pub next_conn_id : ℤ
  pub connections : List (Bytes × ℕ)

abbrev pub tcp_server : Bytes → TcpServer
tcp_server name = record { name = name; next_conn_id = pos 1; connections = [] }

-- `nextConnId_++` in `int`, taken to wrap.
unfoldable pub next_id : ℤ → ℤ
next_id (pos n) = if ltb (n + 1) (2 ^ 31) then pos (n + 1) else negsuc (2 ^ 31 - 1)
next_id (negsuc zero) = pos 0
next_id (negsuc (suc n)) = negsuc n

-- `snprintf` with `"%s-%d"` into 64 bytes, the last of which is 0.
unfoldable pub conn_name : Bytes → ℤ → Bytes
conn_name name id = take 63 (name ++ b'-' ∷ print_int id)

unfoldable pub new_connection : ℕ → TcpServer → TcpServer
new_connection sockfd s = record s {
  next_conn_id = next_id s.next_conn_id;
  connections = insert (conn_name s.name s.next_conn_id) sockfd s.connections;
}

-- The connection's own `connectDestroyed` follows.
unfoldable pub remove_connection : Bytes → TcpServer → TcpServer
remove_connection conn_name s = record s { connections = erase conn_name s.connections }
