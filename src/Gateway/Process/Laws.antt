-- ===== src/Gateway/Process/Laws.antt =====
-- What a request does to the counters, and what a response means.
use lfgateway.Base.{
  ℕ, ◌≡◌, refl, ◌⊎◌, inl, inr, Bool, true, false, ◌||◌, Option, none, some, [], ◌++◌, arith,
  if◌then◌else◌, ◌==◌, Option-cases,
}
use lfgateway.Base.Text.{Bytes, codes}
use lfgateway.Base.Int.{pos, leb_ℤ}
use lfgateway.Http.{HttpParser, HttpRequest, initial, parse, Outcome, returned, threw, out_of_fuel}
use lfgateway.Redis.{Server}
use lfgateway.Router.{RouteRule, match}
use lfgateway.Auth.{bearer_token, validate}
use lfgateway.Limiter.Distributed.{DistributedRateLimiter, is_allowed as distributed_allowed}
use lfgateway.Limiter.Window.{is_allowed as window_allowed}
use lfgateway.Gateway.{Gateway, add_u64}
use lfgateway.Gateway.Process.{
  Env, Result, handle_request, process_api_request, limited, ok_body, twice, parse_stage,
  route_stage, auth_stage, after_auth, rate_stage, after_limit, finish, respond, counted,
}

abbrev pub code_of : Option (ℕ × Bytes) → ℕ
code_of none = 0
code_of (some r) = r.0

abbrev pub bump_if : Bool → ℕ → ℕ
bump_if b n = if b then add_u64 n 1 else n

module _ (s : Server) where
  -- The counters of `after` against those of `before`, by the code that was sent.
  pub record Accounts (before : Gateway) (r : Result s) : Type 0 where
    pub requests : r.gateway.counters.total_requests ≡ before.counters.total_requests
    pub auth :
        r.gateway.counters.rejected_auth
        ≡ bump_if (code_of r.sent == 401) before.counters.rejected_auth
    pub limit :
        r.gateway.counters.rejected_limit
        ≡ bump_if (code_of r.sent == 429) before.counters.rejected_limit
    pub routes : r.gateway.router ≡ before.router

  -- Behind the count of the request, `rejectedAuth` goes up by one exactly with a 401 and
  -- `rejectedLimit` exactly with a 429; the count of the requests and the routes stay.
  pub handle-Accounts :
      (e : Env) (g : Gateway) (raw : Bytes) (st : s.State)
      → Accounts g (handle_request s e g raw st)
  unfolding handle_request
  handle-Accounts e g raw st = ground arith

  -- Redis after the check of the token, where the rule asks for one.
  abbrev pub checked : RouteRule → HttpRequest → s.State → Option Bytes × s.State
  checked rule req st =
      if rule.need_auth then validate s (bearer_token req.headers) st else (some [], st)

  -- Why a request may pass.
  pub record Passed (e : Env) (g : Gateway) (raw : Bytes) (st : s.State) (body : Bytes)
      : Type 0 where
    pub parser : HttpParser
    pub rule : RouteRule
    pub user : Bytes
    pub complete : parse initial raw ≡ returned true parser
    pub routed : match g.router parser.req.path ≡ some rule
    pub authorized : (checked rule parser.req st).0 ≡ some user
    pub within_limit :
        (leb_ℤ rule.rate_limit (pos 0) ≡ true)
        ⊎ ((limited s e g.distributed_limiter rule (checked rule parser.req st).1).0 ≡ true)
    pub answer : body ≡ ok_body s parser.req.path

  parse_passed :
      (e : Env) (g : Gateway) (st : s.State) (o : Outcome) (body : Bytes)
      → (parse_stage s e g st o).sent ≡ some (200, body)
      → (p : HttpParser) × (o ≡ returned true p)
        × ((route_stage s e g p.req st).sent ≡ some (200, body))
  unfolding parse_stage respond
  parse_passed e g st (returned true p) body h = (p, refl, h)
  parse_passed e g st (returned false p) body h = ground arith
  parse_passed e g st (threw p) body h = ground arith
  parse_passed e g st out_of_fuel body h = ground arith

  route_passed :
      (e : Env) (g : Gateway) (req : HttpRequest) (st : s.State) (body : Bytes)
      → (route_stage s e g req st).sent ≡ some (200, body)
      → (rule : RouteRule) × (match g.router req.path ≡ some rule)
        × ((auth_stage s e g rule req st).sent ≡ some (200, body))
  unfolding route_stage respond
  route_passed e g req st body h = elim (Option-cases (match g.router req.path)) [
    | inl k ↦ ground arith
    | inr (rule, k) ↦ (rule, k, ground arith)
  ]

  auth_passed :
      (e : Env) (g : Gateway) (rule : RouteRule) (req : HttpRequest) (st : s.State) (body : Bytes)
      → (auth_stage s e g rule req st).sent ≡ some (200, body)
      → (user : Bytes) × ((checked rule req st).0 ≡ some user)
        × ((rate_stage s e g rule req (checked rule req st).1).sent ≡ some (200, body))
  unfolding auth_stage after_auth respond
  auth_passed e g rule req st body h = elim (Option-cases (checked rule req st).0) [
    | inl k ↦ ground arith
    | inr (user, k) ↦ (user, k, ground arith)
  ]

  rate_passed :
      (e : Env) (g : Gateway) (rule : RouteRule) (req : HttpRequest) (st : s.State) (body : Bytes)
      → (rate_stage s e g rule req st).sent ≡ some (200, body)
      → ((leb_ℤ rule.rate_limit (pos 0) ≡ true)
          ⊎ ((limited s e g.distributed_limiter rule st).0 ≡ true))
        × (body ≡ ok_body s req.path)
  unfolding rate_stage after_limit finish respond
  rate_passed e g rule req st body h = ground arith

  -- A 200 goes out only for a complete request whose path has a rule, with a valid token if the rule
  -- asks for one, and let through by one of the limiters if the rule has a limit.
  pub passed_lem :
      (e : Env) (g : Gateway) (raw : Bytes) (st : s.State) (body : Bytes)
      → (process_api_request s e g raw st).sent ≡ some (200, body)
      → Passed e g raw st body
  unfolding process_api_request
  passed_lem e g raw st body h =
      let c = counted g in
      let (p, complete, h1) = parse_passed e c st (parse initial raw) body h in
      let (rule, routed, h2) = route_passed e c p.req st body h1 in
      let (user, authorized, h3) = auth_passed e c rule p.req st body h2 in
      let (within, answer) = rate_passed e c rule p.req (checked rule p.req st).1 body h3 in
      record {
        parser = p;
        rule = rule;
        user = user;
        complete = complete;
        routed = routed;
        authorized = authorized;
        within_limit = within;
        answer = answer;
      }

  -- The plugin overrules the bucket. Where the token bucket refuses a request and the window of the
  -- plugin has room, the request passes: a rule's limit holds only where both refuse.
  pub limited_iff :
      (e : Env) (l : DistributedRateLimiter) (rule : RouteRule) (st : s.State)
      → let first =
          distributed_allowed s l e.connection e.now_ms rule.path_pattern rule.rate_limit
            (twice rule.rate_limit)
            st in
        let second =
          window_allowed s e.now_s (codes "rate:" ++ rule.path_pattern) rule.rate_limit first.2 in
        (limited s e l rule st).0 ≡ (first.0 || second.0)
  unfolding limited
  limited_iff e l rule st = ground arith
