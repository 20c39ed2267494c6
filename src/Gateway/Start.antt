-- ===== src/Gateway/Start.antt =====
-- The constructor of `Gateway`, `start` and `stop` (gateway/src/gateway.cpp). What MySQL, Redis and the
-- socket interface give is an argument.
pub mod Ready
pub mod Routeless
pub mod Listening
pub mod Sample
mod Tests
use lfgateway.Base.{ℕ, Bool, true, false, Option, none, some, List, [], ◌∷◌, ◌++◌, take}
use lfgateway.Base.Text.{Bytes, codes}
use lfgateway.Mysql.Pool as Mysql
use lfgateway.Mysql.Pool.{MysqlPool}
use lfgateway.Redis.Pool as Redis
use lfgateway.Redis.Pool.{RedisPool}
use lfgateway.Router.{Router, Answer, Loaded, returned, threw, load_from_mysql}
use lfgateway.Log
use lfgateway.Log.{LogConsumer}
use lfgateway.Stream
use lfgateway.Stream.{StreamWriter}
use lfgateway.Pool.Thread.{ThreadPool, thread_pool}
use lfgateway.Net.Channel.{EpollCtl}
use lfgateway.Net.Acceptor.{Acceptor, acceptor, listen}
use lfgateway.Net.Serving.{Serving, serving}
use lfgateway.Gateway.{Gateway}
use lfgateway.Gateway.Flow.{Call}

-- What `socket` gives, and whether `bind` succeeds.
pub record Socket : Type 0 where
  pub fd : Option ℕ
  pub bound : Bool

-- What the world gives to the constructor. `code`, `fresh` and `answer` belong to the load of the routes.
pub record Outside : Type 0 where
  pub mysql_connects : List Mysql.Connect
  pub redis_connects : List Redis.Connect
  pub code : ℕ
  pub fresh : Mysql.Connect
  pub answer : Answer
  pub api_socket : Socket
  pub mgmt_socket : Socket

-- A server with its acceptor.
pub record Listener : Type 0 where
  pub acceptor : Acceptor
  pub serving : Serving

-- The members, those that requests change in `gateway`.
pub record Application : Type 0 where
  pub gateway : Gateway
  pub mysql_pool : MysqlPool
  pub redis_pool : RedisPool
  pub thread_pool : ThreadPool Call
  pub log_consumer : LogConsumer
  pub stream_writer : StreamWriter
  pub api_server : Listener
  pub mgmt_server : Listener

-- The constructor returns, an exception leaves it, or `exit` is called.
pub data Built : Type 0 where
  built : Application → Built
  failed exited : Built

-- Behind the load of the routes nothing throws. `streamWriter_->start()` makes a thread that uses both
-- pools at once; this is the state in which that thread has not run yet, and what it does is in
-- the module of the stream writer.
with_listeners : Router → MysqlPool → RedisPool → Option Acceptor → Option Acceptor → Built
with_listeners t m r none mgmt = exited
with_listeners t m r (some api) none = exited
with_listeners t m r (some api) (some mgmt) = built (record {
  gateway = record {
    counters = record {
      total_requests = 0;
      total_latency_us = 0;
      rejected_auth = 0;
      rejected_limit = 0;
    };
    router = t;
    distributed_limiter = record {
      key_prefix = codes "gateway:rate_limit";
      last_error = [];
      redis_available = true;
    };
  };
  mysql_pool = m;
  redis_pool = r;
  thread_pool = thread_pool;
  log_consumer = Log.start (record { running = false });
  stream_writer = Stream.start (record { running = false; joinable = false });
  api_server = record { acceptor = api; serving = serving (codes "ApiServer") };
  mgmt_server = record { acceptor = mgmt; serving = serving (codes "MgmtServer") };
})

-- What `loadFromMySQL` returns is not looked at.
with_routes : Outside → RedisPool → Loaded → Built
unfolding with_listeners
with_routes o r (threw t m) = failed
with_routes o r (returned ok t m) =
    with_listeners t m r (acceptor o.api_socket.fd o.api_socket.bound)
      (acceptor o.mgmt_socket.fd o.mgmt_socket.bound)

with_redis : Outside → MysqlPool → Redis.Init → Built
unfolding with_routes
with_redis o m (Redis.threw r) = failed
with_redis o m (Redis.ready r) =
    with_routes o r (load_from_mysql (record { rules = [] }) m o.code o.fresh o.answer)

with_mysql : Outside → Mysql.Init → Built
unfolding with_redis
with_mysql o (Mysql.Init.threw e m) = failed
with_mysql o (Mysql.ready m) = with_redis o m (Redis.construct (take 50 o.redis_connects))

unfoldable pub construct : Outside → Built
unfolding with_mysql
construct o = with_mysql o (Mysql.construct (take 4 o.mysql_connects))

-- `start`, with whether `listen` succeeds for either server; `none` is the exit.
unfoldable pub start : Bool → Bool → Application → Option (Application × List EpollCtl)
start api_listens mgmt_listens a = elim (listen api_listens a.api_server.acceptor) [
  | none ↦ none
  | some (api, cs) ↦ elim (listen mgmt_listens a.mgmt_server.acceptor) [
    | none ↦ none
    | some (mgmt, ds) ↦ some (
      record a {
        api_server = record a.api_server { acceptor = api };
        mgmt_server = record a.mgmt_server { acceptor = mgmt };
      },
      cs ++ ds,
    )
  ]
]

-- `stop`, also the body of the destructor.
abbrev pub stop : Application → Application
stop a = record a { log_consumer = Log.stop a.log_consumer }
