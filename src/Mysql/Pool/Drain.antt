-- ===== src/Mysql/Pool/Drain.antt =====
-- A connection whose reconnection failed is never replaced.
use lfgateway.Base.{ℕ, ◌≡◌, ◌≢◌, List, [], ◌∷◌}
use lfgateway.Mysql.Pool.{
  MysqlPool, Connect, no_handle, refused, connected, Acquired, lent, acquire,
}
use lfgateway.Mysql.Pool.Counts.{World, Reach}

-- Neither an idle connection nor a holder that could give one back.
pub record IsDrained (w : World) : Type 0 where
  pub no_idle : w.pool.pool ≡ []
  pub no_held : w.held ≡ []

-- Calls of `acquire`, each with what the health check's query returns and what a reconnection gives.
unfoldable pub outage : List (ℕ × Connect) → MysqlPool → MysqlPool
outage [] p = p
outage ((code, fresh) ∷ cs) p = elim (acquire p code fresh) [
  | lent c q ↦ outage cs q
  | Acquired.threw e q ↦ outage cs q
]

-- The database is down: the queries fail, and `mysql_init` or `mysql_real_connect` fails.
abbrev pub AreDown : List (ℕ × Connect) → Type 0
AreDown [] = Unit {0}
AreDown ((code, no_handle) ∷ cs) = (code ≢ 0) × AreDown cs
AreDown ((code, refused h) ∷ cs) = (code ≢ 0) × AreDown cs
AreDown ((code, connected h) ∷ cs) = ⊥
