-- ===== src/Gateway/Process/Cases.antt =====
-- Particular requests: one that the token bucket refuses, and one that arrives in two pieces.
use lfgateway.Base.{ℕ, ◌≡◌, ◌≢◌, refl, sym, ap, ◌∙◌, true, false, none, some, [], ◌∷◌, ◌++◌, arith}
use lfgateway.Base.Text.{Bytes, codes, Lacks, find, starts_with}
use lfgateway.Base.Int.{pos, leb_ℤ}
use lfgateway.Http.{
  HttpParser, HttpRequest, path, round, run, fuel, returned, initial, parse, empty_request,
}
use lfgateway.Http.Chunks.{resume, parse-append}
use lfgateway.Http.Print.{at, at-next, method_round}
use lfgateway.Redis.{Server}
use lfgateway.Router.{RouteRule, match}
use lfgateway.Limiter.Distributed.{is_allowed as distributed_allowed}
use lfgateway.Limiter.Window.{is_allowed as window_allowed}
use lfgateway.Gateway.{Gateway}
use lfgateway.Gateway.Process.{Env, process_api_request, ok_body, twice}
use lfgateway.Gateway.Process.Laws.{limited_iff, code_of}

-- The plugin overrules the token bucket: a complete request for a route with a limit and no
-- authorization gets a 200 although the bucket refused it, if the plugin's window has room.
pub bucket_overruled :
    (s : Server) (e : Env) (g : Gateway) (raw : Bytes) (st : s.State) (p : HttpParser)
    (rule : RouteRule)
    → parse initial raw ≡ returned true p
    → match g.router p.req.path ≡ some rule
    → rule.need_auth ≡ false
    → leb_ℤ rule.rate_limit (pos 0) ≡ false
    → let first =
        distributed_allowed s g.distributed_limiter e.connection e.now_ms rule.path_pattern
          rule.rate_limit
          (twice rule.rate_limit)
          st in
      first.0 ≡ false
      → (window_allowed s e.now_s (codes "rate:" ++ rule.path_pattern) rule.rate_limit first.2).0
        ≡ true
      → (process_api_request s e g raw st).sent ≡ some (200, ok_body s p.req.path)
unfolding process_api_request
bucket_overruled s e g raw st p rule complete routed free has_limit refused room =
    ground (arith, limited_iff s e g.distributed_limiter rule st)

find-none : (b : ℕ) (s : Bytes) → Lacks b s → find (b ∷ []) s ≡ none
unfolding find starts_with
find-none b [] h = refl
find-none b (c ∷ s) h = ground (arith, find-none b s h.1)

path_cut :
    (u : Bytes) (r : HttpRequest)
    → Lacks b' ' u
    → at (record { state = path; buffer = u; req = r })
      ≡ returned false (record { state = path; buffer = u; req = r })
unfolding run fuel round
path_cut u r h = ground (arith, find-none b' ' u h)

stops_in_path :
    (m u : Bytes)
    → Lacks b' ' m
    → Lacks b' ' u
    → (p : HttpParser) × (parse initial (m ++ b' ' ∷ u) ≡ returned false p)
unfolding parse
stops_in_path m u hm hu = (_, at-next _ _ (method_round m u empty_request hm) ∙ path_cut u _ hu)

stopped_is_refused :
    (s : Server) (e : Env) (g : Gateway) (st : s.State) (raw : Bytes) (p : HttpParser)
    → parse initial raw ≡ returned false p
    → code_of (process_api_request s e g raw st).sent ≡ 400
unfolding process_api_request
stopped_is_refused s e g st raw p h = ground arith

complete_is_served :
    (s : Server) (e : Env) (g : Gateway) (st : s.State) (raw : Bytes) (q : HttpParser)
    → parse initial raw ≡ returned true q
    → code_of (process_api_request s e g raw st).sent ≢ 400
unfolding process_api_request
complete_is_served s e g st raw q h k = ground arith

-- A request is answered from its first piece. Take a message that the parser reads as a complete request,
-- cut within the path: the first piece alone gets a 400, though the whole in one piece gets another
-- answer, and though the parser asks for more at the cut and, given the rest, ends with the same
-- request.
pub first_piece_refused :
    (s : Server) (e : Env) (g : Gateway) (st : s.State) (m u rest : Bytes) (q : HttpParser)
    → Lacks b' ' m
    → Lacks b' ' u
    → parse initial ((m ++ b' ' ∷ u) ++ rest) ≡ returned true q
    → (code_of (process_api_request s e g (m ++ b' ' ∷ u) st).sent ≡ 400)
      × (code_of (process_api_request s e g ((m ++ b' ' ∷ u) ++ rest) st).sent ≢ 400)
      × ((p : HttpParser) × (parse initial (m ++ b' ' ∷ u) ≡ returned false p)
          × (parse p rest ≡ returned true q))
first_piece_refused s e g st m u rest q hm hu whole =
    let (p, stops) = stops_in_path m u hm hu in
    (
      stopped_is_refused s e g st (m ++ b' ' ∷ u) p stops,
      complete_is_served s e g st ((m ++ b' ' ∷ u) ++ rest) q whole,
      (
        p,
        stops,
        ap (λ o. resume o rest) (sym stops)
            ∙ sym (parse-append initial (m ++ b' ' ∷ u) rest)
            ∙ whole,
      ),
    )
