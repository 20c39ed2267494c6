-- ===== src/Gateway/Process.antt =====
-- `processApiRequest`: one request from its bytes to its response.
pub mod Laws
pub mod Cases
pub mod Fails
pub mod Burst
use lfgateway.Base.{
  ℕ, ◌+◌, ◌-◌, ◌*◌, ◌^◌, ltb, Bool, true, false, Option, none, some, List, [], ◌∷◌, ◌++◌,
  if◌then◌else◌,
}
use lfgateway.Base.Text.{Bytes, codes}
use lfgateway.Base.Int.{ℤ, pos, negsuc, leb_ℤ}
use lfgateway.Http.{HttpRequest, HttpParser, initial, parse, Outcome, returned, threw, out_of_fuel}
use lfgateway.Redis.{Server}
use lfgateway.Router.{RouteRule, match}
use lfgateway.Auth.{bearer_token, validate}
use lfgateway.Limiter.Distributed.{
  DistributedRateLimiter, Connection, is_allowed as distributed_allowed,
}
use lfgateway.Limiter.Window.{is_allowed as window_allowed}
use lfgateway.Log.{LogEntry, push}
use lfgateway.Gateway.{Gateway, Counters, add_u64}
use lfgateway.Gateway.Respond.{response}

-- What the world gives to one request: the clocks, the pool's answer, and the measured latency as
-- the number that is added up and as the text that is logged.
pub record Env : Type 0 where
  pub now_ms : ℕ
  pub now_s : ℕ
  pub connection : Connection
  pub latency_us : ℕ
  pub latency_text : Bytes

-- `rule->rateLimit * 2` in `int`, taken to wrap.
unfoldable pub twice : ℤ → ℤ
twice (pos n) = if ltb (2 * n) (2 ^ 31) then pos (2 * n) else negsuc (2 ^ 32 - 2 * n - 1)
twice (negsuc n) = negsuc (2 * n + 1)

-- `totalRequests_++`
abbrev pub counted : Gateway → Gateway
counted g = record g {
  counters = record g.counters { total_requests = add_u64 g.counters.total_requests 1 };
}

module _ (s : Server) where
  open s use {State}

  -- The gateway and Redis afterwards, and the response; `none` if an exception left the function,
  -- which ends in a future that nobody reads.
  pub record Result : Type 0 where
    pub gateway : Gateway
    pub redis : State
    pub sent : Option (ℕ × Bytes)

  respond : Gateway → State → ℕ → Bytes → Result
  respond g st code body = record { gateway = g; redis = st; sent = some (code, body) }

  abbrev pub ok_body : Bytes → Bytes
  ok_body path = codes "{\"message\": \"OK\", \"path\": \"" ++ (path ++ codes "\"}")

  -- The last part: the response, the latency and the log.
  finish : Env → Gateway → HttpRequest → State → Result
  finish e g req st = record {
    gateway = record g {
      counters = record g.counters {
        total_latency_us = add_u64 g.counters.total_latency_us e.latency_us;
      };
    };
    redis =
        push s
          (record {
            path = req.path;
            user_id = pos 0;
            status_code = pos 200;
            latency_ms = e.latency_text;
          })
          st;
    sent = some (200, ok_body req.path);
  }

  -- Both limiters: the second is asked where the first did not allow the request.
  unfoldable pub limited :
      Env → DistributedRateLimiter → RouteRule → State → Bool × DistributedRateLimiter × State
  limited e l rule st =
      let (ok, l1, st1) =
        distributed_allowed s l e.connection e.now_ms rule.path_pattern rule.rate_limit
          (twice rule.rate_limit) st in
      if ok
      then (true, l1, st1)
      else (let r =
            window_allowed s e.now_s (codes "rate:" ++ rule.path_pattern) rule.rate_limit st1 in
          (r.0, l1, r.1))

  after_limit : Env → Gateway → HttpRequest → Bool × DistributedRateLimiter × State → Result
  after_limit e g req (true, l, st) = finish e (record g { distributed_limiter = l }) req st
  after_limit e g req (false, l, st) =
      respond
        (record g {
          distributed_limiter = l;
          counters = record g.counters { rejected_limit = add_u64 g.counters.rejected_limit 1 };
        })
        st 429 (codes "{\"error\": \"rate limit exceeded\"}")

  rate_stage : Env → Gateway → RouteRule → HttpRequest → State → Result
  rate_stage e g rule req st =
      if leb_ℤ rule.rate_limit (pos 0)
      then finish e g req st
      else after_limit e g req (limited e g.distributed_limiter rule st)

  after_auth : Env → Gateway → RouteRule → HttpRequest → Option Bytes × State → Result
  after_auth e g rule req (some user, st) = rate_stage e g rule req st
  after_auth e g rule req (none, st) =
      respond
        (record g {
          counters = record g.counters { rejected_auth = add_u64 g.counters.rejected_auth 1 };
        })
        st 401 (codes "{\"error\": \"unauthorized\"}")

  auth_stage : Env → Gateway → RouteRule → HttpRequest → State → Result
  auth_stage e g rule req st =
      if rule.need_auth
      then after_auth e g rule req (validate s (bearer_token req.headers) st)
      else rate_stage e g rule req st

  route_stage : Env → Gateway → HttpRequest → State → Result
  route_stage e g req st = elim (match g.router req.path) [
    | none ↦ respond g st 404 (codes "{\"error\": \"no route\"}")
    | some rule ↦ auth_stage e g rule req st
  ]

  parse_stage : Env → Gateway → State → Outcome → Result
  parse_stage e g st (returned true p) = route_stage e g p.req st
  parse_stage e g st (returned false p) = respond g st 400 (codes "{\"error\": \"bad request\"}")
  parse_stage e g st (threw p) = record { gateway = g; redis = st; sent = none }
  parse_stage e g st out_of_fuel = record { gateway = g; redis = st; sent = none }

  -- Everything behind the count of the request.
  unfoldable pub handle_request : Env → Gateway → Bytes → State → Result
  unfolding parse_stage route_stage auth_stage after_auth rate_stage after_limit finish respond
  handle_request e g raw st = parse_stage e g st (parse initial raw)

  unfoldable pub process_api_request : Env → Gateway → Bytes → State → Result
  unfolding handle_request
  process_api_request e g raw st = handle_request e (counted g) raw st
