-- ===== src/Router/Load.antt =====
-- The table and the pool after a reload, on each way it can end.
use lfgateway.Base.{
  ℕ, ◌+◌, ◌^◌, ◌<◌, ◌≡◌, refl, ap, ◌⊎◌, inl, inr, Bool, true, false, none, some, List, [], ◌∷◌,
  arith, length, length-append, Option-cases,
}
use lfgateway.Mysql.Pool.{MysqlPool, Connect, lent, acquire, release, idle_count, incr}
use lfgateway.Router.{
  Router, Row, rules_of, Answer, query_failed, no_result, rows, returned, threw, load_with,
  load_from_mysql,
}

-- The pool that a call with a healthy first connection `c` works on.
abbrev pub taken : MysqlPool → List ℕ → MysqlPool
taken p cs = record {
  pool = cs;
  active_count = incr p.active_count;
  total_acquires = incr p.total_acquires;
  total_timeouts = p.total_timeouts;
}

pub acquire_healthy :
    (p : MysqlPool) (c : ℕ) (cs : List ℕ) (fresh : Connect)
    → p.pool ≡ c ∷ cs
    → acquire p 0 fresh ≡ lent c (taken p cs)
unfolding acquire
acquire_healthy p c cs fresh e = rw e

load_healthy :
    (t : Router) (p : MysqlPool) (c : ℕ) (cs : List ℕ) (fresh : Connect) (answer : Answer)
    → p.pool ≡ c ∷ cs
    → load_from_mysql t p 0 fresh answer ≡ load_with t (taken p cs) c answer
unfolding load_from_mysql
load_healthy t p c cs fresh answer e = rw (acquire_healthy p c cs fresh e, load_from_mysql)

-- What a return leaves: the pool with its connection back, and the table by the result.
abbrev pub Returns : Router → MysqlPool → Answer → Bool → Router → MysqlPool → Type 0
Returns t p answer ok u q =
    (idle_count q ≡ idle_count p)
    × (q.active_count ≡ p.active_count)
    × (((ok ≡ false) × (u ≡ t))
        ⊎ ((rs : List Row) × (answer ≡ rows rs) × (ok ≡ true) × (rules_of rs ≡ some u.rules)))

-- The connection that goes back makes up for the one that was taken.
put_back :
    (p q : MysqlPool) (c : ℕ) (cs : List ℕ)
    → p.pool ≡ c ∷ cs
    → p.active_count + 1 < 2 ^ 64
    → q ≡ release (taken p cs) (some c)
    → (idle_count q ≡ idle_count p) × (q.active_count ≡ p.active_count)
unfolding release
put_back p q c cs e small h = ground (arith, ap length e, length-append cs (c ∷ []))

load_with-Returns :
    (t u : Router) (p q : MysqlPool) (c : ℕ) (cs : List ℕ) (answer : Answer) (ok : Bool)
    → p.pool ≡ c ∷ cs
    → p.active_count + 1 < 2 ^ 64
    → load_with t (taken p cs) c answer ≡ returned ok u q
    → Returns t p answer ok u q
unfolding load_with
load_with-Returns t u p q c cs query_failed ok e small h =
    let back = put_back p q c cs e small (ground arith) in (back.0, back.1, inl (ground arith))
load_with-Returns t u p q c cs no_result ok e small h =
    let back = put_back p q c cs e small (ground arith) in (back.0, back.1, inl (ground arith))
load_with-Returns t u p q c cs (rows rs) ok e small h = elim (Option-cases (rules_of rs)) [
  | inl bad ↦ ground arith
  | inr (new, good) ↦
      let back = put_back p q c cs e small (ground arith) in
      (back.0, back.1, inr (rs, refl, ground arith, ground arith))
]

-- With a healthy connection in front and an `active_count` that one more does not wrap, a reload that
-- returns has put the connection back: as many
-- are idle as before, `active_count` is what it was, and the table is the new one if the
-- reload returned true and the old one if not.
pub load-Returns :
    (t u : Router) (p q : MysqlPool) (c : ℕ) (cs : List ℕ) (fresh : Connect) (answer : Answer)
    (ok : Bool)
    → p.pool ≡ c ∷ cs
    → p.active_count + 1 < 2 ^ 64
    → load_from_mysql t p 0 fresh answer ≡ returned ok u q
    → Returns t p answer ok u q
load-Returns t u p q c cs fresh answer ok e small h =
    load_with-Returns t u p q c cs answer ok e small
      (rw (load_healthy t p c cs fresh answer e) at h)

-- A number that `stoi` does not take lets an exception out of the reload after the connection was
-- taken: the table stays, but the connection is neither idle nor held by anybody.
pub load_leaks :
    (t : Router) (p : MysqlPool) (c : ℕ) (cs : List ℕ) (fresh : Connect) (rs : List Row)
    → p.pool ≡ c ∷ cs
    → rules_of rs ≡ none
    → (q : MysqlPool) × (load_from_mysql t p 0 fresh (rows rs) ≡ threw t q)
      × (idle_count q + 1 ≡ idle_count p)
      × (q.active_count ≡ incr p.active_count)
unfolding load_with
load_leaks t p c cs fresh rs e bad = (
  taken p cs,
  rw (load_healthy t p c cs fresh (rows rs) e) (rw (bad, load_with)),
  omega (arith, ap length e),
  refl,
)
