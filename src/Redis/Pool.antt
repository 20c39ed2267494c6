-- ===== src/Redis/Pool.antt =====
-- `RedisPool`: a queue of connections. A connection is a handle, a number.
pub mod Ownership
use lfgateway.Base.{ℕ, zero, suc, Option, none, some, List, [], ◌∷◌, ◌++◌}

pub record RedisPool : Type 0 where
  pub pool : List ℕ

-- `redisConnect`: a null pointer, a context with its error set, or a connection.
pub data Connect : Type 0 where
  null : Connect
  failed : ℕ → Connect
  connected : ℕ → Connect

pub data Init : Type 0 where
  ready : RedisPool → Init
  -- `std::runtime_error`, with the connections that were pushed before it
  threw : RedisPool → Init

-- `initConnections`, on what each call of `redisConnect` gave.
unfoldable pub init_connections : RedisPool → List Connect → Init
init_connections p [] = ready p
init_connections p (null ∷ cs) = threw p
init_connections p (failed c ∷ cs) = threw p
init_connections p (connected c ∷ cs) = init_connections (record p { pool = p.pool ++ c ∷ [] }) cs

abbrev pub empty_pool : RedisPool
empty_pool = record { pool = [] }

-- The constructor and the destructor, which frees the connections that are idle.
unfoldable pub construct : List Connect → Init
unfolding init_connections
construct = init_connections empty_pool

abbrev pub freed : RedisPool → List ℕ
freed p = p.pool

pop_front : List ℕ → Option (ℕ × RedisPool)
pop_front [] = none
pop_front (c ∷ cs) = some (c, record { pool = cs })

-- `acquire`; `none` while the caller waits on the condition variable.
unfoldable pub acquire : RedisPool → Option (ℕ × RedisPool)
unfolding pop_front
acquire p = pop_front p.pool

unfoldable pub release : RedisPool → ℕ → RedisPool
release p ctx = record p { pool = p.pool ++ ctx ∷ [] }
