-- ===== src/Gateway/Admin/Sample.antt =====
-- What tests of the management server take as given.
use lfgateway.Base.{[]}
use lfgateway.Base.Text.{codes}
use lfgateway.Mysql.Pool.{empty_pool, no_handle}
use lfgateway.Router.{no_result}
use lfgateway.Gateway.Json.{failed}
use lfgateway.Mgmt.{World, MgmtEnv}

abbrev pub idle : World
idle = record {
  counters = record {
    total_requests = 0;
    total_latency_us = 0;
    rejected_auth = 0;
    rejected_limit = 0;
  };
  router = record { rules = [] };
  pool = empty_pool;
}

abbrev pub env : MgmtEnv
env = record {
  print_avg = λ total count. codes "0";
  code = 1;
  fresh = no_handle;
  logs = failed;
  routes = failed;
  answer = no_result;
  delete_env = record {
    code = 1;
    fresh = no_handle;
    delete_code = 0;
    reload_code = 1;
    reload_fresh = no_handle;
    reload_answer = no_result;
  };
}
