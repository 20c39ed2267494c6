-- ===== src/Gateway/Start/Listening.antt =====
-- The listening sockets of a gateway that was built and started.
use mathlib.Core.Path.{ap₂}
use lfgateway.Base.{
  ℕ, ◌≡◌, refl, ◌∙◌, inl, inr, Bool, true, false, Option, none, some, List, [], ◌∷◌, ◌++◌, arith,
  take, Option-cases,
}
use lfgateway.Mysql.Pool as Mysql
use lfgateway.Mysql.Pool.{MysqlPool}
use lfgateway.Redis.Pool as Redis
use lfgateway.Redis.Pool.{RedisPool}
use lfgateway.Router.{Router, Loaded, returned, threw, load_from_mysql}
use lfgateway.Net.Channel.{EpollCtl, ctl_add, Events, enable_reading, update, update_channel}
use lfgateway.Net.Acceptor.{Acceptor, acceptor, listen}
use lfgateway.Gateway.Start.{
  Outside, Application, built, construct, with_listeners, with_routes, with_redis, with_mysql,
  start,
}

-- The acceptors are those that the constructors of the servers made.
abbrev pub Acceptors : Outside → Application → Type 0
Acceptors o a =
    (acceptor o.api_socket.fd o.api_socket.bound ≡ some a.api_server.acceptor)
    × (acceptor o.mgmt_socket.fd o.mgmt_socket.bound ≡ some a.mgmt_server.acceptor)

listeners_built :
    (t : Router) (m : MysqlPool) (r : RedisPool) (api mgmt : Option Acceptor) (a : Application)
    → with_listeners t m r api mgmt ≡ built a
    → (api ≡ some a.api_server.acceptor) × (mgmt ≡ some a.mgmt_server.acceptor)
unfolding with_listeners
listeners_built t m r none mgmt a h = ground arith
listeners_built t m r (some api) none a h = ground arith
listeners_built t m r (some api) (some mgmt) a h = (ground arith, ground arith)

routes_built :
    (o : Outside) (r : RedisPool) (l : Loaded) (a : Application)
    → with_routes o r l ≡ built a
    → Acceptors o a
unfolding with_routes
routes_built o r (threw t m) a h = absurd (ground arith)
routes_built o r (returned ok t m) a h =
    listeners_built t m r (acceptor o.api_socket.fd o.api_socket.bound)
      (acceptor o.mgmt_socket.fd o.mgmt_socket.bound) a h

redis_built :
    (o : Outside) (m : MysqlPool) (i : Redis.Init) (a : Application)
    → with_redis o m i ≡ built a
    → Acceptors o a
unfolding with_redis
redis_built o m (Redis.threw r) a h = absurd (ground arith)
redis_built o m (Redis.ready r) a h =
    routes_built o r (load_from_mysql (record { rules = [] }) m o.code o.fresh o.answer) a h

mysql_built :
    (o : Outside) (i : Mysql.Init) (a : Application) → with_mysql o i ≡ built a → Acceptors o a
unfolding with_mysql
mysql_built o (Mysql.Init.threw e m) a h = absurd (ground arith)
mysql_built o (Mysql.ready m) a h = redis_built o m (Redis.construct (take 50 o.redis_connects)) a h

pub construct-Acceptors : (o : Outside) (a : Application) → construct o ≡ built a → Acceptors o a
unfolding construct
construct-Acceptors o a h = mysql_built o (Mysql.construct (take 4 o.mysql_connects)) a h

abbrev pub to_read : Events
to_read = record { reading = true; writing = false }

-- An acceptor that was just made and listens has its socket watched for reading.
listen_watches :
    (fd : Option ℕ) (bound listening : Bool) (a b : Acceptor) (cs : List EpollCtl)
    → acceptor fd bound ≡ some a
    → listen listening a ≡ some (b, cs)
    → (n : ℕ) × (fd ≡ some n) × (cs ≡ ctl_add n to_read ∷ []) × (listening ≡ true) × (bound ≡ true)
unfolding acceptor listen enable_reading update update_channel
listen_watches none bound listening a b cs h k = absurd (ground arith)
listen_watches (some n) bound listening a b cs h k =
    (n, refl, ground arith, ground arith, ground arith)

-- `start` succeeds only where both sockets were made and bound, and listen; then epoll watches both for
-- reading, that of the API first.
pub start_watches :
    (o : Outside) (api_listens mgmt_listens : Bool) (a b : Application) (cs : List EpollCtl)
    → construct o ≡ built a
    → start api_listens mgmt_listens a ≡ some (b, cs)
    → (m : ℕ) × (n : ℕ) × (o.api_socket.fd ≡ some m)
      × (o.mgmt_socket.fd ≡ some n)
      × (cs ≡ ctl_add m to_read ∷ ctl_add n to_read ∷ [])
      × (api_listens ≡ true)
      × (mgmt_listens ≡ true)
unfolding start
start_watches o al ml a b cs h k =
    let (api, mgmt) = construct-Acceptors o a h in
    elim (Option-cases (listen al a.api_server.acceptor)) [
      | inl e ↦ absurd (ground arith)
      | inr ((x, xs), e) ↦ elim (Option-cases (listen ml a.mgmt_server.acceptor)) [
        | inl d ↦ absurd (ground arith)
        | inr ((y, ys), d) ↦
            let (m, at_m, first, l, bound) =
              listen_watches o.api_socket.fd o.api_socket.bound al a.api_server.acceptor x xs api
                e in
            let (n, at_n, second, l', bound') =
              listen_watches o.mgmt_socket.fd o.mgmt_socket.bound ml a.mgmt_server.acceptor y ys
                mgmt d in
            let both : cs ≡ xs ++ ys = ground arith in
            (m, n, at_m, at_n, both ∙ ap₂ ◌++◌ first second, l, l')
      ]
    ]
