-- ===== src/Gateway/Whole.antt =====
-- The two servers of the gateway in one process (gateway/src/gateway.cpp): requests on the API server and
-- commands on the management server read and change the same counters and the same router.
pub mod Views
pub mod Status
pub mod Stats
mod Tests
use lfgateway.Redis.{Server}
use lfgateway.Mysql.Pool.{MysqlPool}
use lfgateway.Base.{ℕ, List, []}
use lfgateway.Base.Reach.{Steps}
use lfgateway.Base.Text.{codes}
use lfgateway.Net.Serving.{Serving, serving}
use lfgateway.Mgmt
use lfgateway.Gateway.{Gateway}
use lfgateway.Gateway.Flow
use lfgateway.Gateway.Flow.{Outgoing}
use lfgateway.Gateway.Admin
use lfgateway.Gateway.Admin.{Port}

-- The steps that a port makes itself.
abbrev pub PortActs : {p q : Port} → Admin.Step p q → Type 0
PortActs (Admin.Step.accepts a free new) = Unit
PortActs (Admin.Step.quiet e conn v r w nothing) = Unit
PortActs (Admin.Step.answers e conn buf text v r w one got_text) = Unit
PortActs (Admin.Step.elsewhere w) = ⊥

module _ (s : Server) where
  -- `api` has the gateway; the rest is what only the management uses, `told` what it has sent.
  pub record Whole : Type 0 where
    pub api : Flow.World s
    pub admin : Serving
    pub mysql : MysqlPool
    pub told : List Outgoing

  -- With `n` workers.
  abbrev pub fresh : ℕ → Gateway → s.State → MysqlPool → Whole
  fresh n g st p = record {
    api = Flow.fresh s n g st;
    admin = serving (codes "MgmtServer");
    mysql = p;
    told = [];
  }

  -- The whole as the management server sees it.
  abbrev pub port_of : Whole → Port
  port_of w = record {
    serving = w.admin;
    mgmt = record {
      counters = w.api.gateway.counters;
      router = w.api.gateway.router;
      pool = w.mysql;
    };
    sent = w.told;
  }

  -- What the management server has done to it.
  abbrev pub after_mgmt : Whole → Port → Whole
  after_mgmt w q = record {
    api = record w.api {
      gateway = record w.api.gateway { counters = q.mgmt.counters; router = q.mgmt.router };
    };
    admin = q.serving;
    mysql = q.mgmt.pool;
    told = q.sent;
  }

  -- The steps that the API server, its workers and the loop make themselves.
  abbrev pub ApiActs : {u v : Flow.World s} → Flow.Step s u v → Type 0
  ApiActs (Flow.Step.accepts a free new) = Unit
  ApiActs (Flow.Step.receives conn v r wr h) = Unit
  ApiActs (Flow.Step.takes c room h) = Unit
  ApiActs (Flow.Step.answers e before after c code body k h) = Unit
  ApiActs (Flow.Step.fails e before after c k h) = Unit
  ApiActs Flow.Step.turns = Unit
  ApiActs (Flow.Step.elsewhere g st) = ⊥

  -- A step of either server, or of those who share Redis and the pool of MySQL with them.
  pub data Step (w : Whole) : Whole → Type 0 where
    api_acts :
        {v : Flow.World s} (t : Flow.Step s w.api v) → ApiActs t → Step w (record w { api = v })
    mgmt_acts : {q : Port} (t : Admin.Step (port_of w) q) → PortActs t → Step w (after_mgmt w q)
    elsewhere :
        (st : s.State) (p : MysqlPool)
        → Step w (record w { api = record w.api { redis = st }; mysql = p })

  abbrev pub Reach : Whole → Whole → Type 0
  Reach = Steps Step
