-- ===== src/Mysql/Pool/Handles.antt =====
-- The handles of the pool over its life: what `acquire` opens, closes and forgets, and the
-- destructor.
use lfgateway.Base.Reach.{Steps, Steps-keep}
use lfgateway.Base.{ℕ, ◌+◌, ◌≡◌, refl, ap, some, List, [], ◌∷◌, ◌++◌, arith, if◌then◌else◌, ◌==◌}
use lfgateway.Mysql.Pool.{
  MysqlPool, Connect, no_handle, refused, connected, Error, Acquired, lent, health_check, acquire,
  release, ready, init_connections, construct, empty_pool,
}

-- The handle that `mysql_init` gave.
unfoldable pub new_handle : Connect → List ℕ
new_handle no_handle = []
new_handle (refused c) = c ∷ []
new_handle (connected c) = c ∷ []

-- Where `acquire` closes the connection at the front, and opens another.
unfoldable pub broken : MysqlPool → ℕ → List ℕ → List ℕ
unfolding health_check
broken p code l = elim p.pool [ [] ↦ [] | c ∷ cs ↦ if health_check code then [] else l ]

front : List ℕ → List ℕ
front [] = []
front (c ∷ cs) = c ∷ []

-- The handles that one call of `acquire` closes,
unfoldable pub closes : MysqlPool → ℕ → List ℕ
unfolding broken front
closes p code = broken p code (front p.pool)

-- those that it opens,
unfoldable pub opens : MysqlPool → ℕ → Connect → List ℕ
unfolding broken new_handle
opens p code fresh = broken p code (new_handle fresh)

forgotten : Connect → List ℕ
forgotten no_handle = []
forgotten (refused c) = c ∷ []
forgotten (connected c) = []

-- and those that it opens and leaves: the exception loses a handle that could not connect.
unfoldable pub loses : MysqlPool → ℕ → Connect → List ℕ
unfolding broken forgotten
loses p code fresh = broken p code (forgotten fresh)

-- The loop of the destructor, with the handles that it closes.
unfoldable pub close_all : List ℕ → List ℕ
close_all [] = []
close_all (c ∷ cs) = c ∷ close_all cs

unfoldable pub destroy : MysqlPool → MysqlPool × List ℕ
unfolding close_all
destroy p = (record p { pool = [] }, close_all p.pool)

-- The pool, the handles that threads hold, and the handles closed, lost and opened so far.
pub record World : Type 0 where
  pub pool : MysqlPool
  pub held : List ℕ
  pub closed : List ℕ
  pub lost : List ℕ
  pub opened : List ℕ

-- What a call of `acquire` does to the handles, besides lending one.
abbrev pub after_acquire : ℕ → Connect → MysqlPool → List ℕ → World → World
after_acquire code fresh p held w = record {
  pool = p;
  held = held;
  closed = closes w.pool code ++ w.closed;
  lost = loses w.pool code fresh ++ w.lost;
  opened = opens w.pool code fresh ++ w.opened;
}

pub data Step : World → World → Type 0 where
  lends :
      {w : World} {c : ℕ} {p : MysqlPool} (code : ℕ) (fresh : Connect)
      → acquire w.pool code fresh ≡ lent c p
      → Step w (after_acquire code fresh p (c ∷ w.held) w)
  fails :
      {w : World} {e : Error} {p : MysqlPool} (code : ℕ) (fresh : Connect)
      → acquire w.pool code fresh ≡ Acquired.threw e p
      → Step w (after_acquire code fresh p w.held w)
  releases :
      {w : World} (before after : List ℕ) (c : ℕ)
      → w.held ≡ before ++ c ∷ after
      → Step w (record w { pool = release w.pool (some c); held = before ++ after })

abbrev pub Reach : World → World → Type 0
Reach = Steps Step

-- How often a handle stands in a list.
unfoldable pub occurs : ℕ → List ℕ → ℕ
occurs x [] = 0
occurs x (y ∷ l) = (if x == y then 1 else 0) + occurs x l

occurs-append : (x : ℕ) (k l : List ℕ) → occurs x (k ++ l) ≡ occurs x k + occurs x l
unfolding occurs
occurs-append x [] l = omega arith
occurs-append x (y ∷ k) l = ground (arith, occurs-append x k l)

-- Every handle that was opened is idle, held, closed or lost, as often as it was opened.
abbrev pub IsAccounted : World → Type 0
IsAccounted w =
    (x : ℕ)
    → occurs x w.pool.pool + occurs x w.held + occurs x w.closed + occurs x w.lost
      ≡ occurs x w.opened

lends-IsAccounted :
    (l : List ℕ) (code c : ℕ) (fresh : Connect) (w : World) (p : MysqlPool)
    → w.pool.pool ≡ l
    → acquire w.pool code fresh ≡ lent c p
    → IsAccounted w
    → IsAccounted (after_acquire code fresh p (c ∷ w.held) w)
unfolding acquire closes opens loses occurs
lends-IsAccounted [] code c fresh w p h e i x = ground (arith, i x, ap (occurs x) h)
lends-IsAccounted (y ∷ l) code c no_handle w p h e i x = ground (arith, i x, ap (occurs x) h)
lends-IsAccounted (y ∷ l) code c (refused d) w p h e i x = ground (arith, i x, ap (occurs x) h)
lends-IsAccounted (y ∷ l) code c (connected d) w p h e i x = ground (arith, i x, ap (occurs x) h)

fails-IsAccounted :
    (l : List ℕ) (code : ℕ) (fresh : Connect) (w : World) (p : MysqlPool) (e : Error)
    → w.pool.pool ≡ l
    → acquire w.pool code fresh ≡ Acquired.threw e p
    → IsAccounted w
    → IsAccounted (after_acquire code fresh p w.held w)
unfolding acquire closes opens loses occurs
fails-IsAccounted [] code fresh w p e h k i x = ground (arith, i x, ap (occurs x) h)
fails-IsAccounted (y ∷ l) code no_handle w p e h k i x = ground (arith, i x, ap (occurs x) h)
fails-IsAccounted (y ∷ l) code (refused d) w p e h k i x = ground (arith, i x, ap (occurs x) h)
fails-IsAccounted (y ∷ l) code (connected d) w p e h k i x = ground (arith, i x, ap (occurs x) h)

releases-IsAccounted :
    (w : World) (before after : List ℕ) (c : ℕ)
    → w.held ≡ before ++ c ∷ after
    → IsAccounted w
    → IsAccounted (record w { pool = release w.pool (some c); held = before ++ after })
unfolding release occurs
releases-IsAccounted w before after c e i x = ground (
  arith,
  i x,
  ap (occurs x) e,
  occurs-append x before (c ∷ after),
  occurs-append x before after,
  occurs-append x w.pool.pool (c ∷ []),
)

Step-IsAccounted : {u v : World} → Step u v → IsAccounted u → IsAccounted v
Step-IsAccounted (lends {w} {c} {p} code fresh e) i =
    lends-IsAccounted w.pool.pool code c fresh w p refl e i
Step-IsAccounted (fails {w} {e = err} {p} code fresh e) i =
    fails-IsAccounted w.pool.pool code fresh w p err refl e i
Step-IsAccounted (releases {w} before after c e) i = releases-IsAccounted w before after c e i

-- The handles of the constructor.
unfoldable pub handles : List Connect → List ℕ
unfolding new_handle
handles [] = []
handles (c ∷ cs) = new_handle c ++ handles cs

init_connections-handles :
    (q : MysqlPool) (cs : List Connect) {p : MysqlPool}
    → init_connections q cs ≡ ready p
    → (x : ℕ) → occurs x p.pool ≡ occurs x q.pool + occurs x (handles cs)
unfolding init_connections handles occurs
init_connections-handles q [] e x = ground (arith, e)
init_connections-handles q (no_handle ∷ cs) e x = absurd (ground arith)
init_connections-handles q (refused c ∷ cs) e x = absurd (ground arith)
init_connections-handles q (connected c ∷ cs) {p} e x = ground (
  arith,
  init_connections-handles (record q { pool = q.pool ++ c ∷ [] }) cs e x,
  occurs-append x q.pool (c ∷ []),
)

-- The pool as the constructor leaves it.
abbrev pub start : MysqlPool → List Connect → World
start p cs = record { pool = p; held = []; closed = []; lost = []; opened = handles cs }

close_all-occurs : (x : ℕ) (l : List ℕ) → occurs x (close_all l) ≡ occurs x l
unfolding close_all occurs
close_all-occurs x [] = refl
close_all-occurs x (c ∷ l) = ground (arith, close_all-occurs x l)

-- The pool's use of the handles, from a constructor that succeeded to the destructor, whatever the
-- threads do in between: behind the destructor the pool is empty, and every handle was closed as
-- often as it was opened, less the times that it is still held and less the times that `acquire`
-- lost it, having failed to connect it. So a handle that was opened once is closed once at most,
-- and not at all where it is held or lost.
pub destroy-accounts :
    (cs : List Connect) {p : MysqlPool} {w : World}
    → construct cs ≡ ready p
    → Reach (start p cs) w
    → (x : ℕ)
    → let (q, now) = destroy w.pool in
      (q.pool ≡ [])
      × (occurs x (now ++ w.closed) + occurs x w.held + occurs x w.lost ≡ occurs x w.opened)
unfolding destroy construct occurs
destroy-accounts cs {p} {w} e r x =
    let initial : IsAccounted (start p cs) =
      λ y. omega (arith, init_connections-handles empty_pool cs e y) in
    let now = Steps-keep IsAccounted (λ u v s i. Step-IsAccounted s i) r initial x in
    (
      refl,
      omega (
        arith,
        now,
        occurs-append x (close_all w.pool.pool) w.closed,
        close_all-occurs x w.pool.pool,
      ),
    )
