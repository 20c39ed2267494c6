-- ===== src/Gateway/Tests.antt =====
-- Requests, responses and management calls at concrete inputs.
use lfgateway.Base.{◌≡◌, ◌≢◌, refl, true, false, some, [], ◌∷◌, ◌++◌, arith}
use lfgateway.Base.Text.{Bytes, codes, starts_with, find, equal}
use lfgateway.Base.Decimal.{to_string, is_digit}
use lfgateway.Base.Int.{pos}
use lfgateway.Http.{HttpParser, parse, initial, returned, done, run, round, fuel, crlf}
use lfgateway.Redis.{Server, integer}
use lfgateway.Redis.Client.{incr, is_one}
use lfgateway.Mysql.Pool.{MysqlPool, no_handle}
use lfgateway.Router.{RouteRule, Row, match, first_match, matches, rows}
use lfgateway.Limiter.Distributed.{context, is_allowed as distributed_allowed, acquire_token}
use lfgateway.Limiter.Window.{is_allowed as window_allowed}
use lfgateway.Gateway.{Gateway}
use lfgateway.Gateway.Respond.{response, response_headers, parse-response}
use lfgateway.Gateway.Process.{Env, handle_request, process_api_request, ok_body}
use lfgateway.Gateway.Process.Laws.{Accounts, handle-Accounts, Passed, passed_lem, code_of}
use lfgateway.Gateway.Process.Cases.{bucket_overruled, first_piece_refused}
use lfgateway.Gateway.Delete.{DeleteEnv, delete_route}
use lfgateway.Gateway.Delete.Parses.{sent_sql, result_of, delete_route_sends}

parse-response_example :
    parse initial (response 404 (codes "{}"))
    ≡ returned true (record {
      state = done;
      buffer = codes "{}";
      req = record {
        method = codes "HTTP/1.1";
        path = to_string 404;
        version = codes "OK";
        headers = response_headers 2;
        body = [];
      };
    })
parse-response_example = parse-response 404 (codes "{}")

-- A server that answers every command with the number 0.
abbrev zeros : Server
zeros = record { State = Unit {0}; send = λ c st. (some (integer (pos 0)), st) }

abbrev open_rule : RouteRule
open_rule = record {
  id = pos 1;
  path_pattern = codes "/api";
  target_host = codes "h";
  target_port = pos 80;
  need_auth = false;
  rate_limit = pos 10;
}

abbrev gateway : Gateway
gateway = record {
  counters = record {
    total_requests = 6;
    total_latency_us = 0;
    rejected_auth = 1;
    rejected_limit = 2;
  };
  router = record { rules = open_rule ∷ [] };
  distributed_limiter = record {
    key_prefix = codes "gateway:rate_limit";
    last_error = [];
    redis_available = true;
  };
}

abbrev env : Env
env = record {
  now_ms = 70;
  now_s = 7;
  connection = context;
  latency_us = 12;
  latency_text = codes "0.012000";
}

abbrev raw : Bytes
raw = codes "GET /api V" ++ crlf ++ crlf

abbrev parsed : HttpParser
parsed = record {
  state = done;
  buffer = [];
  req = record {
    method = codes "GET";
    path = codes "/api";
    version = codes "V";
    headers = [];
    body = [];
  };
}

whole_request : parse initial raw ≡ returned true parsed
unfolding parse run round fuel find equal
whole_request = refl

refused_once : Accounts zeros gateway (handle_request zeros env gateway raw tt)
refused_once = handle-Accounts zeros env gateway raw tt

overruled_request :
    (process_api_request zeros env gateway raw tt).sent ≡ some (200, ok_body zeros (codes "/api"))
unfolding match first_match matches starts_with distributed_allowed acquire_token is_one
    window_allowed incr
overruled_request =
    bucket_overruled zeros env gateway raw tt parsed open_rule whole_request refl refl refl refl
      refl

first_piece_refused_example :
    (code_of (process_api_request zeros env gateway (codes "GET /ap") tt).sent ≡ 400)
    × (code_of (process_api_request zeros env gateway raw tt).sent ≢ 400)
    × ((p : HttpParser) × (parse initial (codes "GET /ap") ≡ returned false p)
        × (parse p (codes "i V" ++ crlf ++ crlf) ≡ returned true parsed))
first_piece_refused_example =
    first_piece_refused zeros env gateway tt (codes "GET") (codes "/ap")
      (codes "i V" ++ crlf ++ crlf) parsed (omega arith) (omega arith) whole_request

passed_lem_example : Passed zeros env gateway raw tt (ok_body zeros (codes "/api"))
passed_lem_example =
    passed_lem zeros env gateway raw tt (ok_body zeros (codes "/api")) overruled_request

abbrev row : Row
row = record {
  id = some (codes "1");
  path_pattern = some (codes "/api");
  target_host = some (codes "h");
  target_port = some (codes "80");
  need_auth = some (codes "2");
  rate_limit = some (codes "10");
}

abbrev pool_of_one : MysqlPool
pool_of_one = record { pool = 4 ∷ []; active_count = 0; total_acquires = 0; total_timeouts = 0 }

abbrev delete_env : DeleteEnv
delete_env = record {
  code = 0;
  fresh = no_handle;
  delete_code = 1;
  reload_code = 0;
  reload_fresh = no_handle;
  reload_answer = rows [];
}

delete_route_sends_example :
    let d = delete_route gateway.router pool_of_one delete_env (
      codes "{" ++ (codes "\"id\"" ++ ([] ++ b':' ∷ (codes " " ++ (to_string 17 ++ codes "}"))))) in
    (sent_sql d ≡ some (codes "DELETE FROM api_routes WHERE id = " ++ to_string 17))
    × (result_of d ≡ some false)
unfolding is_digit
delete_route_sends_example =
    delete_route_sends gateway.router pool_of_one delete_env 4 [] (codes "{") [] (codes " ")
      (codes "}") 17 (omega arith) (omega arith) tt (refl, tt) refl refl refl
