-- ===== src/Gateway/Start/Ready.antt =====
-- What the constructor gives: pools that nobody holds a connection of, and the routes of the table.
use lfgateway.Base.{
  ℕ, zero, suc, ◌+◌, ◌≤◌, ◌≡◌, refl, subst, ap, inl, inr, Bool, Option, none, some, List, [], ◌∷◌,
  ◌++◌, arith, take, length, length-append, Option-cases,
}
use lfgateway.Base.Text.{codes}
use lfgateway.Base.Reach.{here}
use lfgateway.Mysql.Pool as Mysql
use lfgateway.Mysql.Pool.{MysqlPool, acquire, release, idle_count}
use lfgateway.Mysql.Pool.Counts.{World, IsCounted, lends, releases, Step-IsCounted}
use lfgateway.Redis.Pool as Redis
use lfgateway.Redis.Pool.{RedisPool}
use lfgateway.Router.{
  Router, rules_of, Answer, query_failed, no_result, rows, Loaded, returned, threw, load_from_mysql,
  load_with,
}
use lfgateway.Net.Acceptor.{Acceptor, acceptor}
use lfgateway.Net.Serving.Open.{IsOpenMap, Reach-IsOpenMap}
use lfgateway.Gateway.Start.{
  Outside, Application, Built, built, failed, exited, construct, with_listeners, with_routes,
  with_redis, with_mysql,
}

length-take {ℓ} : {A : Type ℓ} (n : ℕ) (xs : List A) → n ≤ length xs → length (take n xs) ≡ n
length-take zero xs h = refl
length-take (suc n) [] h = absurd (omega arith)
length-take (suc n) (x ∷ xs) h = ap suc (length-take n xs (omega arith))

mysql_ready :
    (p q : MysqlPool) (cs : List Mysql.Connect)
    → Mysql.init_connections p cs ≡ Mysql.ready q
    → (idle_count q ≡ idle_count p + length cs) × (q.active_count ≡ p.active_count)
unfolding Mysql.init_connections
mysql_ready p q [] h = (ground arith, ground arith)
mysql_ready p q (Mysql.no_handle ∷ cs) h = ground arith
mysql_ready p q (Mysql.refused c ∷ cs) h = ground arith
mysql_ready p q (Mysql.connected c ∷ cs) h =
    let (idle, active) = mysql_ready (record p { pool = p.pool ++ c ∷ [] }) q cs h in
    (omega (arith, idle, length-append p.pool (c ∷ [])), active)

redis_ready :
    (p q : RedisPool) (cs : List Redis.Connect)
    → Redis.init_connections p cs ≡ Redis.ready q
    → length q.pool ≡ length p.pool + length cs
unfolding Redis.init_connections
redis_ready p q [] h = ground arith
redis_ready p q (Redis.null ∷ cs) h = ground arith
redis_ready p q (Redis.failed c ∷ cs) h = ground arith
redis_ready p q (Redis.connected c ∷ cs) h = omega (
  arith,
  redis_ready (record p { pool = p.pool ++ c ∷ [] }) q cs h,
  length-append p.pool (c ∷ []),
)

-- The rules are those of the table, or none where the query failed.
abbrev pub Routes : Answer → Router → Type 0
Routes (rows rs) t = rules_of rs ≡ some t.rules
Routes a t = t.rules ≡ []

abbrev alone : MysqlPool → World
alone p = record { pool = p; held = []; lost = 0 }

load_with-gives :
    (p q : MysqlPool) (c : ℕ) (answer : Answer) (ok : Bool) (t : Router)
    → load_with (record { rules = [] }) p c answer ≡ returned ok t q
    → Routes answer t × (q ≡ release p (some c))
unfolding load_with
load_with-gives p q c query_failed ok t h = (ground arith, ground arith)
load_with-gives p q c no_result ok t h = (ground arith, ground arith)
load_with-gives p q c (rows rs) ok t h = elim (Option-cases (rules_of rs)) [
  | inl bad ↦ ground arith
  | inr (new, good) ↦ (ground arith, ground arith)
]

load_after :
    (p q : MysqlPool) (code : ℕ) (fresh : Mysql.Connect) (answer : Answer) (ok : Bool) (t : Router)
    (a : Mysql.Acquired)
    → acquire p code fresh ≡ a
    → IsCounted 4 (alone p)
    → load_from_mysql (record { rules = [] }) p code fresh answer ≡ returned ok t q
    → Routes answer t × IsCounted 4 (alone q)
unfolding load_from_mysql
load_after p q code fresh answer ok t (Mysql.lent c m) e i h =
    let (routes, back) = load_with-gives m q c answer ok t (rw (e, load_from_mysql) at h) in
    let held = Step-IsCounted 4 (omega arith) (lends code fresh e) i in
    (routes, rw back (Step-IsCounted 4 (omega arith) (releases [] [] c refl) held))
load_after p q code fresh answer ok t (Mysql.Acquired.threw err m) e i h =
    let bad = rw (e, load_from_mysql) at h in absurd (ground arith)

-- The pools are full and nobody holds a connection, the routes are those of the table, and each server
-- has no connection.
pub record IsReady (o : Outside) (a : Application) : Type 0 where
  pub mysql_idle : idle_count a.mysql_pool ≡ 4
  pub mysql_active : a.mysql_pool.active_count ≡ 0
  pub redis_idle : length a.redis_pool.pool ≡ 50
  pub routes : Routes o.answer a.gateway.router
  pub api : IsOpenMap a.api_server.serving
  pub mgmt : IsOpenMap a.mgmt_server.serving

-- A constructor that returns is ready.
abbrev Gives : Outside → Built → Type 0
Gives o (built a) = IsReady o a
Gives o failed = Unit
Gives o exited = Unit

listeners-Gives :
    (o : Outside) (t : Router) (m : MysqlPool) (r : RedisPool) (api mgmt : Option Acceptor)
    → IsCounted 4 (alone m)
    → Routes o.answer t
    → length r.pool ≡ 50
    → Gives o (with_listeners t m r api mgmt)
unfolding with_listeners
listeners-Gives o t m r none mgmt c routes full = tt
listeners-Gives o t m r (some api) none c routes full = tt
listeners-Gives o t m r (some api) (some mgmt) c routes full = record {
  mysql_idle = omega (arith, c.total);
  mysql_active = c.active;
  redis_idle = full;
  routes = routes;
  api = Reach-IsOpenMap (λ b. []) (codes "ApiServer") _ here;
  mgmt = Reach-IsOpenMap (λ b. []) (codes "MgmtServer") _ here;
}

routes-Gives :
    (o : Outside) (m : MysqlPool) (r : RedisPool) (l : Loaded)
    → load_from_mysql (record { rules = [] }) m o.code o.fresh o.answer ≡ l
    → IsCounted 4 (alone m)
    → length r.pool ≡ 50
    → Gives o (with_routes o r l)
unfolding with_routes
routes-Gives o m r (threw t q) e c full = tt
routes-Gives o m r (returned ok t q) e c full =
    let (routes, counted) = load_after m q o.code o.fresh o.answer ok t _ refl c e in
    listeners-Gives o t q r (acceptor o.api_socket.fd o.api_socket.bound)
      (acceptor o.mgmt_socket.fd o.mgmt_socket.bound) counted routes full

redis-Gives :
    (o : Outside) (m : MysqlPool) (r : Redis.Init)
    → Redis.construct (take 50 o.redis_connects) ≡ r
    → 50 ≤ length o.redis_connects
    → IsCounted 4 (alone m)
    → Gives o (with_redis o m r)
unfolding with_redis Redis.construct
redis-Gives o m (Redis.threw r) e many c = tt
redis-Gives o m (Redis.ready r) e many c = routes-Gives o m r _ refl c (
    omega (
      arith,
      redis_ready Redis.empty_pool r (take 50 o.redis_connects) e,
      length-take 50 o.redis_connects many,
    ))

mysql-Gives :
    (o : Outside) (i : Mysql.Init)
    → Mysql.construct (take 4 o.mysql_connects) ≡ i
    → 4 ≤ length o.mysql_connects
    → 50 ≤ length o.redis_connects
    → Gives o (with_mysql o i)
unfolding with_mysql Mysql.construct
mysql-Gives o (Mysql.Init.threw err m) e few many = tt
mysql-Gives o (Mysql.ready m) e few many =
    let (idle, active) = mysql_ready Mysql.empty_pool m (take 4 o.mysql_connects) e in
    redis-Gives o m _ refl many
      (record { active = active; total = omega (arith, idle, length-take 4 o.mysql_connects few) })

-- Where the constructor returns, and the thread of the stream writer that it started has not run yet, four
-- connections to MySQL and fifty to Redis are idle and none is in use, also after the load of the routes, with its health check and a reconnection if it needed
-- one; the routes are the rows of the table, or none if the query failed, which is not looked at; and
-- both servers begin with a map that has exactly the open connections. The world is taken to answer
-- each of the calls that open the connections.
pub construct-IsReady :
    (o : Outside) {a : Application}
    → 4 ≤ length o.mysql_connects
    → 50 ≤ length o.redis_connects
    → construct o ≡ built a
    → IsReady o a
unfolding construct
construct-IsReady o few many h = subst (Gives o) h (mysql-Gives o _ refl few many)
