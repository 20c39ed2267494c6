-- ===== src/Gateway/Whole/Views.antt =====
-- Either server's view of the whole: what holds of one of them by itself holds beside the other.
use lfgateway.Base.Reach.{here, next}
use lfgateway.Redis.{Server}
use lfgateway.Gateway.Flow
use lfgateway.Gateway.Admin
use lfgateway.Gateway.Whole.{Whole, Step, Reach, port_of}

module _ (s : Server) where
  Step-api : {u v : Whole s} → Step s u v → Flow.Step s u.api v.api
  Step-api (Step.api_acts t own) = t
  Step-api {u} (Step.mgmt_acts {q} t own) =
      Flow.Step.elsewhere
        (record u.api.gateway { counters = q.mgmt.counters; router = q.mgmt.router }) u.api.redis
  Step-api {u} (Step.elsewhere st p) = Flow.Step.elsewhere u.api.gateway st

  Step-port : {u v : Whole s} → Step s u v → Admin.Step (port_of s u) (port_of s v)
  Step-port {u} {v} (Step.api_acts t own) = Admin.Step.elsewhere (port_of s v).mgmt
  Step-port (Step.mgmt_acts t own) = t
  Step-port {u} {v} (Step.elsewhere st p) = Admin.Step.elsewhere (port_of s v).mgmt

  pub Reach-api : {u v : Whole s} → Reach s u v → Flow.Reach s u.api v.api
  Reach-api here = here
  Reach-api (next r t) = next (Reach-api r) (Step-api t)

  pub Reach-port : {u v : Whole s} → Reach s u v → Admin.Reach (port_of s u) (port_of s v)
  Reach-port here = here
  Reach-port (next r t) = next (Reach-port r) (Step-port t)
