-- ===== src/Pool/Memory/Shared/Start.antt =====
-- The pools as the constructor leaves them.
use mathlib.Core.List.{not-mem-nil, eq-or-mem_of_mem-cons}
use mathlib.Core.HLevel.{⊥_prop}
use mathlib.Core.Logic.Or
use mathlib.Core.Option
use lfgateway.Base.{
  ℕ, zero, suc, ◌*◌, ◌≤◌, ◌<◌, ◌≡◌, ◌≢◌, refl, ap, subst, ◌∙◌, true, some, List, [], ◌∷◌, arith,
  get_elem?, length,
}
use lfgateway.Pool.Memory.{Memory, FixedMemPool, pool_sizes, fixed_mem_pool}
use lfgateway.Pool.Memory.Ranges.{in_chunks}
use lfgateway.Pool.Memory.Blocks.{IsOwned}
use lfgateway.Pool.Memory.Owned.{fixed_mem_pool-IsSound}
use lfgateway.Pool.Memory.Frame.{
  bytes, Meets, IsForeign, AreForeign, AreForeign-symm, IsOwned-agrees,
}
use lfgateway.Pool.Memory.Frame.Growth.{fixed_mem_pool-agrees, fixed_mem_pool-has}
use lfgateway.Pool.Memory.Levels.{pools_of, block_sizes-pools_of}
use lfgateway.Pool.Memory.Shared.{World, IsSound, served}

-- The `n` bytes at `a` share none with what the pools of these sizes were given.
abbrev pub IsFree : ℕ → ℕ → List ℕ → List ℕ → Type 0
IsFree a n [] bases = Unit {0}
IsFree a n (sz ∷ szs) [] = Unit {0}
IsFree a n (sz ∷ szs) (base ∷ bases) = (¬ Meets a n base (sz * 1024)) × IsFree a n szs bases

-- The documented behaviour of `operator new` in the constructor: memory for each pool, and no two
-- have a common byte.
abbrev pub AreSpaced : List ℕ → List ℕ → Type 0
AreSpaced [] bases = Unit {0}
AreSpaced (sz ∷ szs) [] = Unit {0}
AreSpaced (sz ∷ szs) (base ∷ bases) =
    (0 < sz) × (0 < base) × IsFree base (sz * 1024) szs bases × AreSpaced szs bases

first-IsForeign :
    (a n base sz : ℕ) (m : Memory)
    → ¬ Meets a n base (sz * 1024)
    → IsForeign a n (fixed_mem_pool base sz 1024 m).0
first-IsForeign a n base sz m h d k o =
    let (size, count, chunks) = fixed_mem_pool-has base sz 1024 m in
    Or.elim ⊥_prop (eq-or-mem_of_mem-cons (rw chunks at k)) (λ e. h (rw (size, count, e) at o))
      not-mem-nil

pools_of-IsForeign :
    (a n : ℕ) (szs bases : List ℕ) (m : Memory)
    → IsFree a n szs bases
    → (j : ℕ) (q : FixedMemPool) → get_elem? (pools_of szs bases m).0 j ≡ some q
    → IsForeign a n q
unfolding pools_of
pools_of-IsForeign a n [] bases m h j q e = cc
pools_of-IsForeign a n (sz ∷ szs) [] m h j q e = cc
pools_of-IsForeign a n (sz ∷ szs) (base ∷ bases) m (h, rest) zero q e =
    subst (IsForeign a n) (Option.some-injective _ q e) (first-IsForeign a n base sz m h)
pools_of-IsForeign a n (sz ∷ szs) (base ∷ bases) m (h, rest) (suc j) q e =
    pools_of-IsForeign a n szs bases (fixed_mem_pool base sz 1024 m).1 rest j q e

-- The later pools leave the blocks of an earlier one as they are.
pools_of-agrees :
    (p : FixedMemPool) (a : ℕ) (szs bases : List ℕ) (m : Memory)
    → p.chunks ≡ a ∷ []
    → 0 < p.block_size
    → IsFree a (bytes p) szs bases
    → AreSpaced szs bases
    → (x : ℕ) → in_chunks p x ≡ true
    → (pools_of szs bases m).1 x ≡ m x
unfolding pools_of
pools_of-agrees p a [] bases m c s f h x i = refl
pools_of-agrees p a (sz ∷ szs) [] m c s f h x i = refl
pools_of-agrees p a (sz ∷ szs) (base ∷ bases) m c s (f, fs) (pos, nonnull, apart, rest) x i =
    pools_of-agrees p a szs bases (fixed_mem_pool base sz 1024 m).1 c s fs rest x i
    ∙ fixed_mem_pool-agrees base sz 1024 m p x pos s
        (λ d k o.
          Or.elim ⊥_prop (eq-or-mem_of_mem-cons (rw c at k))
            (λ e. f (omega (arith, e, o.1), omega (arith, e, o.0))) not-mem-nil)
        i

pools_of-positive :
    (szs bases : List ℕ) (m : Memory)
    → AreSpaced szs bases
    → (i : ℕ) (p : FixedMemPool) → get_elem? (pools_of szs bases m).0 i ≡ some p
    → (0 < p.block_size) × (0 < p.block_count)
unfolding pools_of
pools_of-positive [] bases m h i p e = cc
pools_of-positive (sz ∷ szs) [] m h i p e = cc
pools_of-positive (sz ∷ szs) (base ∷ bases) m (pos, nonnull, apart, rest) zero p e =
    let (size, count, chunks) = fixed_mem_pool-has base sz 1024 m in
    rw (← Option.some-injective _ p e, size, count) (pos, omega arith)
pools_of-positive (sz ∷ szs) (base ∷ bases) m (pos, nonnull, apart, rest) (suc i) p e =
    pools_of-positive szs bases (fixed_mem_pool base sz 1024 m).1 rest i p e

pools_of-IsOwned :
    (szs bases : List ℕ) (m : Memory)
    → AreSpaced szs bases
    → (i : ℕ) (p : FixedMemPool) → get_elem? (pools_of szs bases m).0 i ≡ some p
    → IsOwned p (pools_of szs bases m).1 []
unfolding pools_of
pools_of-IsOwned [] bases m h i p e = cc
pools_of-IsOwned (sz ∷ szs) [] m h i p e = cc
pools_of-IsOwned (sz ∷ szs) (base ∷ bases) m (pos, nonnull, apart, rest) zero p e =
    let (q, n) = fixed_mem_pool base sz 1024 m in
    let (size, count, chunks) = fixed_mem_pool-has base sz 1024 m in
    subst (λ (r : FixedMemPool). IsOwned r (pools_of szs bases n).1 [])
      (Option.some-injective _ p e)
      (IsOwned-agrees q n (pools_of szs bases n).1 []
        (pools_of-agrees q base szs bases n chunks (rw size pos) (rw (size, count) apart) rest)
        (fixed_mem_pool-IsSound base sz 1024 m nonnull pos (omega arith)))
pools_of-IsOwned (sz ∷ szs) (base ∷ bases) m (pos, nonnull, apart, rest) (suc i) p e =
    pools_of-IsOwned szs bases (fixed_mem_pool base sz 1024 m).1 rest i p e

-- The first pool against the others.
first_apart :
    (sz base : ℕ) (szs bases : List ℕ) (m : Memory)
    → IsFree base (sz * 1024) szs bases
    → (j : ℕ) (p q : FixedMemPool) → some (fixed_mem_pool base sz 1024 m).0 ≡ some p
    → get_elem? (pools_of szs bases (fixed_mem_pool base sz 1024 m).1).0 j ≡ some q
    → AreForeign p q
first_apart sz base szs bases m f j p q e h =
    let (size, count, chunks) = fixed_mem_pool-has base sz 1024 m in
    subst (λ (r : FixedMemPool). AreForeign r q) (Option.some-injective _ p e)
      (λ c k d i o.
        Or.elim ⊥_prop (eq-or-mem_of_mem-cons (rw chunks at k))
          (λ same.
            pools_of-IsForeign base (sz * 1024) szs bases (fixed_mem_pool base sz 1024 m).1 f j q h
              d i (rw (size, count, same) at o))
          not-mem-nil)

pools_of-AreForeign :
    (szs bases : List ℕ) (m : Memory)
    → AreSpaced szs bases
    → (i j : ℕ) (p q : FixedMemPool) → i ≢ j
    → get_elem? (pools_of szs bases m).0 i ≡ some p
    → get_elem? (pools_of szs bases m).0 j ≡ some q
    → AreForeign p q
unfolding pools_of
pools_of-AreForeign [] bases m h i j p q n e f = cc
pools_of-AreForeign (sz ∷ szs) [] m h i j p q n e f = cc
pools_of-AreForeign (sz ∷ szs) (base ∷ bases) m h zero zero p q n e f = absurd (n refl)
pools_of-AreForeign (sz ∷ szs) (base ∷ bases) m (pos, b, apart, rest) zero (suc j) p q n e f =
    first_apart sz base szs bases m apart j p q e f
pools_of-AreForeign (sz ∷ szs) (base ∷ bases) m (pos, b, apart, rest) (suc i) zero p q n e f =
    AreForeign-symm q p (first_apart sz base szs bases m apart i q p f e)
pools_of-AreForeign (sz ∷ szs) (base ∷ bases) m (pos, b, apart, rest) (suc i) (suc j) p q n e f =
    pools_of-AreForeign szs bases (fixed_mem_pool base sz 1024 m).1 rest i j p q (λ k. n (ap suc k))
      e f

-- The constructor's pools, of which nobody holds a block.
abbrev pub constructed : List ℕ → Memory → World
constructed bases m =
    let (ps, n) = pools_of pool_sizes bases m in record { pools = ps; memory = n; held = [] }

pub construct-IsSound :
    (bases : List ℕ) (m : Memory)
    → length pool_sizes ≤ length bases
    → AreSpaced pool_sizes bases
    → IsSound (constructed bases m)
unfolding served
construct-IsSound bases m enough h = record {
  sizes = block_sizes-pools_of pool_sizes bases m enough;
  small = λ b size k. absurd (not-mem-nil k);
  positive = pools_of-positive pool_sizes bases m h;
  owned = pools_of-IsOwned pool_sizes bases m h;
  foreign = pools_of-AreForeign pool_sizes bases m h;
}
