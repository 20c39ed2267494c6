-- ===== src/Mysql/Pool.antt =====
-- `MySQLPool`: the queue of connections and its counters.
pub mod Counts
pub mod Drain
pub mod Handles
use lfgateway.Base.{
  ℕ, zero, suc, ◌+◌, ◌-◌, ◌%◌, ◌^◌, Bool, true, false, Option, none, some, List, [], ◌∷◌, ◌++◌,
  if◌then◌else◌, ◌==◌, length,
}

pub record MysqlPool : Type 0 where
  pub pool : List ℕ
  pub active_count : ℕ
  pub total_acquires : ℕ
  pub total_timeouts : ℕ

abbrev pub empty_pool : MysqlPool
empty_pool = record { pool = []; active_count = 0; total_acquires = 0; total_timeouts = 0 }

-- What `mysql_init` and `mysql_real_connect` gave: no handle, a handle that could not connect, or
-- a connection.
pub data Connect : Type 0 where
  no_handle : Connect
  refused : ℕ → Connect
  connected : ℕ → Connect

-- `std::runtime_error`, by its message.
pub data Error : Type 0 where
  init_failed connection_failed pool_timeout reconnect_failed : Error

pub data Init : Type 0 where
  ready : MysqlPool → Init
  threw : Error → MysqlPool → Init

unfoldable pub init_connections : MysqlPool → List Connect → Init
init_connections p [] = ready p
init_connections p (no_handle ∷ cs) = threw init_failed p
init_connections p (refused c ∷ cs) = threw connection_failed p
init_connections p (connected c ∷ cs) = init_connections (record p { pool = p.pool ++ c ∷ [] }) cs

unfoldable pub construct : List Connect → Init
unfolding init_connections
construct = init_connections empty_pool

-- The `size_t` counters wrap.
abbrev pub incr : ℕ → ℕ
incr n = (n + 1) % 2 ^ 64

abbrev pub decr : ℕ → ℕ
decr n = (n + 2 ^ 64 - 1) % 2 ^ 64

-- `mysql_query(conn, "SELECT 1")` did not fail. The result set is freed.
health_check : ℕ → Bool
health_check code = if code == 0 then true else false

pub data Acquired : Type 0 where
  lent : ℕ → MysqlPool → Acquired
  threw : Error → MysqlPool → Acquired

-- Where the health check failed the old connection is closed, and a new one is made.
reconnect : MysqlPool → Connect → Acquired
reconnect p no_handle =
    Acquired.threw reconnect_failed (record p { active_count = decr p.active_count })
reconnect p (refused c) =
    Acquired.threw reconnect_failed (record p { active_count = decr p.active_count })
reconnect p (connected c) = lent c p

take_front : List ℕ → MysqlPool → ℕ → Connect → Acquired
unfolding health_check reconnect
take_front [] p code fresh =
    Acquired.threw pool_timeout (record p { total_timeouts = incr p.total_timeouts })
take_front (c ∷ cs) p code fresh =
    let q = record p { pool = cs; active_count = incr p.active_count } in
    if health_check code then lent c q else reconnect q fresh

-- `acquire`, as far as it ends: the pool is not empty, or three seconds have passed. `code` is what
-- the query of the health check returns, and `fresh` what a reconnection gives.
unfoldable pub acquire : MysqlPool → ℕ → Connect → Acquired
unfolding take_front
acquire p code fresh =
    take_front p.pool (record p { total_acquires = incr p.total_acquires }) code fresh

-- `release`; `none` is the null pointer.
unfoldable pub release : MysqlPool → Option ℕ → MysqlPool
release p none = p
release p (some c) = record p { pool = p.pool ++ c ∷ []; active_count = decr p.active_count }

abbrev pub idle_count : MysqlPool → ℕ
idle_count p = length p.pool
