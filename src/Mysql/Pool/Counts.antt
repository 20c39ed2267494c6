-- ===== src/Mysql/Pool/Counts.antt =====
-- The counters tell the truth, over any interleaving of the threads' calls.
use lfgateway.Base.Reach.{Steps, Steps-keep}
use lfgateway.Base.{
  ℕ, ◌+◌, ◌^◌, ◌<◌, ◌≡◌, refl, ap, some, List, [], ◌∷◌, ◌++◌, arith, length, length-append,
}
use lfgateway.Mysql.Pool.{MysqlPool, Connect, Error, Acquired, lent, acquire, release, idle_count}

-- The pool, the connections that threads hold, and how many were lost to failed reconnections.
pub record World : Type 0 where
  pub pool : MysqlPool
  pub held : List ℕ
  pub lost : ℕ

abbrev is_lost : Error → ℕ
is_lost Error.reconnect_failed = 1
is_lost _ = 0

pub data Step : World → World → Type 0 where
  lends :
      {w : World} {c : ℕ} {p : MysqlPool} (code : ℕ) (fresh : Connect)
      → acquire w.pool code fresh ≡ lent c p
      → Step w (record w { pool = p; held = c ∷ w.held })
  fails :
      {w : World} {e : Error} {p : MysqlPool} (code : ℕ) (fresh : Connect)
      → acquire w.pool code fresh ≡ Acquired.threw e p
      → Step w (record w { pool = p; lost = w.lost + is_lost e })
  releases :
      {w : World} (before after : List ℕ) (c : ℕ)
      → w.held ≡ before ++ c ∷ after
      → Step w (record w { pool = release w.pool (some c); held = before ++ after })

abbrev pub Reach : World → World → Type 0
Reach = Steps Step

-- With `size` connections at the start: `active_count` counts the holders, and every connection is
-- idle, held or lost.
pub record IsCounted (size : ℕ) (w : World) : Type 0 where
  pub active : w.pool.active_count ≡ length w.held
  pub total : idle_count w.pool + length w.held + w.lost ≡ size

lends-IsCounted :
    (size code c : ℕ) (l : List ℕ) (fresh : Connect) (w : World) (p : MysqlPool)
    → size < 2 ^ 64
    → w.pool.pool ≡ l
    → acquire w.pool code fresh ≡ lent c p
    → IsCounted size w
    → IsCounted size (record w { pool = p; held = c ∷ w.held })
unfolding acquire
lends-IsCounted size code c [] fresh w p b h e v = ground arith
lends-IsCounted size code c (x ∷ l) fresh w p b h e v = ground (arith, ap length h)

fails-IsCounted :
    (size code : ℕ) (l : List ℕ) (fresh : Connect) (w : World) (p : MysqlPool) (err : Error)
    → size < 2 ^ 64
    → w.pool.pool ≡ l
    → acquire w.pool code fresh ≡ Acquired.threw err p
    → IsCounted size w
    → IsCounted size (record w { pool = p; lost = w.lost + is_lost err })
unfolding acquire
fails-IsCounted size code [] fresh w p err b h e v = ground arith
fails-IsCounted size code (x ∷ l) fresh w p err b h e v = ground (arith, ap length h)

releases-IsCounted :
    (size : ℕ) (w : World) (before after : List ℕ) (c : ℕ)
    → size < 2 ^ 64
    → w.held ≡ before ++ c ∷ after
    → IsCounted size w
    → IsCounted size (record w { pool = release w.pool (some c); held = before ++ after })
unfolding release
releases-IsCounted size w before after c b e v = ground (
  arith,
  ap length e,
  length-append before (c ∷ after),
  length-append before after,
  length-append w.pool.pool (c ∷ []),
)

pub Step-IsCounted :
    {u v : World} (size : ℕ) → size < 2 ^ 64 → Step u v → IsCounted size u → IsCounted size v
Step-IsCounted size b (lends {w} {c} {p} code fresh e) v =
    lends-IsCounted size code c w.pool.pool fresh w p b refl e v
Step-IsCounted size b (fails {w} {e} {p} code fresh h) v =
    fails-IsCounted size code w.pool.pool fresh w p e b refl h v
Step-IsCounted size b (releases {w} before after c e) v =
    releases-IsCounted size w before after c b e v

-- Whatever the threads do with a pool of `size` connections that was counted right at the start, and
-- a size below 2 ^ 64, `active_count` is the number of connections that they hold, and `active_count` and `idle_count` add up to `size` less the
-- connections lost to reconnections that failed.
pub Reach-IsCounted :
    {u v : World} (size : ℕ) → size < 2 ^ 64 → Reach u v → IsCounted size u → IsCounted size v
Reach-IsCounted size b r c = Steps-keep (IsCounted size) (λ u v s p. Step-IsCounted size b s p) r c
