-- ===== src/Gateway/Process/Fails.antt =====
-- The requests that end with an exception.
use lfgateway.Base.{◌≡◌, refl, true, false, none, arith}
use lfgateway.Base.Text.{Bytes}
use lfgateway.Http.{HttpParser, HttpRequest, initial, parse, Outcome, returned, threw, out_of_fuel}
use lfgateway.Http.Chunks.{parse-ne-out_of_fuel}
use lfgateway.Redis.{Server}
use lfgateway.Gateway.{Gateway}
use lfgateway.Gateway.Process.{
  Env, handle_request, parse_stage, route_stage, auth_stage, after_auth, rate_stage, after_limit,
  finish, respond,
}

-- The parser throws at the bytes.
abbrev pub Throws : Bytes → Type 0
Throws raw = (p : HttpParser) × (parse initial raw ≡ threw p)

module _ (s : Server) where
  route_stage-ne-none :
      (e : Env) (g : Gateway) (req : HttpRequest) (st : s.State)
      → ¬ ((route_stage s e g req st).sent ≡ none)
  unfolding route_stage auth_stage after_auth rate_stage after_limit finish respond
  route_stage-ne-none e g req st h = ground arith

  parse_fails :
      (e : Env) (g : Gateway) (raw : Bytes) (st : s.State) (o : Outcome)
      → parse initial raw ≡ o
      → (parse_stage s e g st o).sent ≡ none
      → Throws raw
  unfolding parse_stage respond
  parse_fails e g raw st (returned true p) k h = absurd (route_stage-ne-none e g p.req st h)
  parse_fails e g raw st (returned false p) k h = absurd (ground arith)
  parse_fails e g raw st (threw p) k h = (p, k)
  parse_fails e g raw st out_of_fuel k h = absurd (parse-ne-out_of_fuel initial raw k)

  -- A request that gets no response is one at whose bytes the parser throws.
  pub none-Throws :
      (e : Env) (g : Gateway) (raw : Bytes) (st : s.State)
      → (handle_request s e g raw st).sent ≡ none
      → Throws raw
  unfolding handle_request
  none-Throws e g raw st h = parse_fails e g raw st (parse initial raw) refl h

  -- And each request at whose bytes the parser throws gets none.
  pub Throws-none :
      (e : Env) (g : Gateway) (raw : Bytes) (st : s.State)
      → Throws raw
      → (handle_request s e g raw st).sent ≡ none
  unfolding handle_request parse_stage
  Throws-none e g raw st (p, h) = rw h
