-- ===== src/Gateway/Start/Sample.antt =====
-- A start with a table that cannot be read, and the end of the gateway.
use lfgateway.Base.{◌≡◌, refl, true, some, [], ◌∷◌, replicate}
use lfgateway.Base.Text.{codes}
use lfgateway.Mysql.Pool as Mysql
use lfgateway.Redis.Pool as Redis
use lfgateway.Router.{query_failed, load_from_mysql}
use lfgateway.Pool.Thread.{thread_pool}
use lfgateway.Net.Acceptor.{acceptor}
use lfgateway.Net.Channel.{channel}
use lfgateway.Net.Serving.{serving}
use lfgateway.Gateway.Start.{Outside, Application, built, construct}

abbrev pub outside : Outside
outside = record {
  mysql_connects =
      Mysql.connected 1 ∷ Mysql.connected 2 ∷ Mysql.connected 3 ∷ Mysql.connected 4 ∷ [];
  redis_connects = replicate 50 (Redis.connected 7);
  code = 1;
  fresh = Mysql.connected 5;
  answer = query_failed;
  api_socket = record { fd = some 20; bound = true };
  mgmt_socket = record { fd = some 21; bound = true };
}

abbrev pub application : Application
application = record {
  gateway = record {
    counters = record {
      total_requests = 0;
      total_latency_us = 0;
      rejected_auth = 0;
      rejected_limit = 0;
    };
    router = record { rules = [] };
    distributed_limiter = record {
      key_prefix = codes "gateway:rate_limit";
      last_error = [];
      redis_available = true;
    };
  };
  mysql_pool = record {
    pool = 2 ∷ 3 ∷ 4 ∷ 5 ∷ [];
    active_count = 0;
    total_acquires = 1;
    total_timeouts = 0;
  };
  redis_pool = record { pool = replicate 50 7 };
  thread_pool = thread_pool;
  log_consumer = record { running = true };
  stream_writer = record { running = true; joinable = true };
  api_server = record {
    acceptor = record { listenfd = 20; accept_channel = channel 20 };
    serving = serving (codes "ApiServer");
  };
  mgmt_server = record {
    acceptor = record { listenfd = 21; accept_channel = channel 21 };
    serving = serving (codes "MgmtServer");
  };
}

-- The first connection to MySQL is found broken and replaced.
pub builds : construct outside ≡ built application
unfolding construct Mysql.construct Redis.construct load_from_mysql Mysql.acquire Mysql.release
    acceptor
builds = refl
