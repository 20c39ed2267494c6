-- ===== src/Gateway/Start/Routeless.antt =====
-- A gateway that starts although its table could not be read.
use lfgateway.Base.{◌≤◌, ◌≡◌, ◌⊎◌, inl, inr, true, [], arith, length}
use lfgateway.Base.Text.{Bytes}
use lfgateway.Http.{HttpParser, initial, parse, returned}
use lfgateway.Redis.{Server}
use lfgateway.Router.{Answer, query_failed, no_result, match, first_match}
use lfgateway.Gateway.Process.{Env, process_api_request}
use lfgateway.Gateway.Process.Laws.{code_of}
use lfgateway.Gateway.Start.{Outside, Application, built, construct}
use lfgateway.Gateway.Start.Ready.{Routes, construct-IsReady}

no_rules :
    (o : Outside) (a : Application) (answer : Answer)
    → (answer ≡ query_failed) ⊎ (answer ≡ no_result)
    → Routes answer a.gateway.router
    → a.gateway.router.rules ≡ []
no_rules o a query_failed h r = r
no_rules o a no_result h r = r
no_rules o a (Answer.rows rs) h r = absurd (elim h [ inl e ↦ ground arith | inr e ↦ ground arith ])

-- The constructor does not look at the result of the load. If MySQL connects but the query for the
-- routes fails, the gateway is built and answers every complete request with a 404 until a reload.
pub routeless-not_found :
    (s : Server) (o : Outside) {a : Application} (e : Env) (raw : Bytes) (p : HttpParser)
    (st : s.State)
    → 4 ≤ length o.mysql_connects
    → 50 ≤ length o.redis_connects
    → (o.answer ≡ query_failed) ⊎ (o.answer ≡ no_result)
    → construct o ≡ built a
    → parse initial raw ≡ returned true p
    → code_of (process_api_request s e a.gateway raw st).sent ≡ 404
unfolding process_api_request match first_match
routeless-not_found s o {a} e raw p st few many bad h complete =
    let empty = no_rules o a o.answer bad (construct-IsReady o few many h).routes in ground arith
