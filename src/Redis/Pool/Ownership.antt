-- ===== src/Redis/Pool/Ownership.antt =====
-- Who holds the connections, over any interleaving of the threads' calls.
use mathlib.Core.List.{Perm, Nodup, perm_middle}
use mathlib.Core.List.Perm
use lfgateway.Base.Reach.{Steps, here, next}
use lfgateway.Base.{ℕ, ◌≡◌, ◌∙◌, append-nil, some, List, [], ◌∷◌, ◌++◌, arith, append_assoc, map}
use lfgateway.Redis.Pool.{
  RedisPool, Connect, connected, ready, init_connections, construct, empty_pool, acquire, release,
}

-- The pool, and the connections that threads hold.
pub record World : Type 0 where
  pub pool : RedisPool
  pub held : List ℕ

-- A thread takes a connection, or gives back one that it holds.
pub data Step : World → World → Type 0 where
  acquires :
      {w : World} {c : ℕ} {p : RedisPool}
      → acquire w.pool ≡ some (c, p)
      → Step w (record { pool = p; held = c ∷ w.held })
  releases :
      {w : World} (before after : List ℕ) (c : ℕ)
      → w.held ≡ before ++ c ∷ after
      → Step w (record { pool = release w.pool c; held = before ++ after })

abbrev pub Reach : World → World → Type 0
Reach = Steps Step

abbrev pub owned : World → List ℕ
owned w = w.pool.pool ++ w.held

acquire-Perm :
    (l : List ℕ) (h : List ℕ) (c : ℕ) (p : RedisPool)
    → acquire (record { pool = l }) ≡ some (c, p)
    → Perm (p.pool ++ c ∷ h) (l ++ h)
unfolding acquire
acquire-Perm [] h c p e = cc
acquire-Perm (x ∷ l) h c p e =
    let same : c ≡ x = ground arith in
    let rest : p.pool ≡ l = ground arith in rw (same, rest) (perm_middle l h)

Step-Perm : {u v : World} → Step u v → Perm (owned v) (owned u)
Step-Perm (acquires {w} {c} {p} e) = acquire-Perm w.pool.pool w.held c p e
Step-Perm (releases {w} before after c e) =
    unfold release in
    rw (e, append_assoc)
      (Perm.append (Perm.refl w.pool.pool) (Perm.symm (perm_middle before after)))

-- No connection is lost or made up: pool and holders together have the connections that they had
-- at the start.
pub Reach-Perm : {u v : World} → Reach u v → Perm (owned v) (owned u)
Reach-Perm here = Perm.refl _
Reach-Perm (next r s) = Perm.trans (Step-Perm s) (Reach-Perm r)

-- The connections of a list of outcomes of `redisConnect`, where each succeeded.
abbrev pub all_connected : List ℕ → List Connect
all_connected = map connected

init_connections-all :
    (p : RedisPool) (cs : List ℕ)
    → init_connections p (all_connected cs) ≡ ready (record { pool = p.pool ++ cs })
unfolding init_connections
init_connections-all p [] = rw append-nil
init_connections-all p (c ∷ cs) =
    init_connections-all (record p { pool = p.pool ++ c ∷ [] }) cs ∙ rw append_assoc

-- Where every connection could be opened, and all are different, two threads never hold the same
-- one, and none is held while it is idle, whatever the threads do.
pub construct-Nodup :
    (cs : List ℕ) {p : RedisPool} {w : World}
    → construct (all_connected cs) ≡ ready p
    → Nodup cs
    → Reach (record { pool = p; held = [] }) w
    → Nodup (owned w)
unfolding construct
construct-Nodup cs {p} e n r =
    let same : p.pool ≡ cs = ground (arith, init_connections-all empty_pool cs) in
    Perm.nodup (Perm.symm (Reach-Perm r)) (rw (append-nil, same) n)
