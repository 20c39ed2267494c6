-- ===== src/Redis/Tests.antt =====
-- The pool and the stream replies at concrete inputs.
use mathlib.Core.List.{Nodup, Nodup-cons, Nodup-nil, not-mem-nil, mem-singleton, Perm}
use native.Mathlib.Nat.{ℕ_set}
use lfgateway.Base.Reach.{here, next}
use lfgateway.Base.{ℕ, ◌≡◌, refl, List, [], ◌∷◌, arith}
use lfgateway.Base.Text.{codes}
use lfgateway.Redis.Pool.{RedisPool, construct, acquire, release}
use lfgateway.Redis.Pool.Ownership.{acquires, releases, Reach, Reach-Perm, construct-Nodup}
use lfgateway.Redis.Streams.Documented.{Entry}

abbrev opened : RedisPool
opened = record { pool = 5 ∷ 6 ∷ [] }

-- One connection is lent and given back.
lent_and_back :
    Reach
      (record { pool = opened; held = [] })
      (record { pool = record { pool = 6 ∷ 5 ∷ [] }; held = [] })
unfolding acquire release
lent_and_back =
    next (next here (acquires {c = 5} {p = record { pool = 6 ∷ [] }} refl)) (releases [] [] 5 refl)

Reach-Perm_example : Perm {A = ℕ} (6 ∷ 5 ∷ []) (5 ∷ 6 ∷ [])
Reach-Perm_example = Reach-Perm lent_and_back

two_different : Nodup {A = ℕ} (5 ∷ 6 ∷ [])
two_different = Nodup-cons.1 (
  (λ m. let e : ◌≡◌ {A = ℕ} 5 6 = (mem-singleton ℕ_set).0 m in omega arith),
  Nodup-cons.1 (not-mem-nil, Nodup-nil),
)

construct-Nodup_example : Nodup {A = ℕ} (6 ∷ 5 ∷ [])
unfolding construct
construct-Nodup_example = construct-Nodup (5 ∷ 6 ∷ []) {p = opened} refl two_different lent_and_back

abbrev two_entries : List Entry
two_entries =
    (codes "1-0", (codes "path", codes "/a") ∷ [])
    ∷ (codes "2-0", (codes "path", codes "/b") ∷ [])
    ∷ []
