-- ===== src/Pool/Memory/Levels.antt =====
-- `MemoryPool`: a pool for each block size, and `operator new` for what is larger.
use lfgateway.Base.{
  ℕ, zero, suc, ◌≤◌, ltb, ◌≡◌, ◌≢◌, refl, ap, ◌∙◌, inl, inr, Bool-cases, Option, none, some, List,
  [], ◌∷◌, if◌then◌else◌, arith, ◌==◌, ==_refl, get_elem?, set, length,
}
use lfgateway.Pool.Memory.{
  Memory, FixedMemPool, allocate, deallocate, fixed_mem_pool, max_block_size, find_pool, pool_sizes,
}
use lfgateway.Pool.Memory.Sizes.{find_pool-fits}

abbrev pub MemoryPool : Type 0
MemoryPool = List FixedMemPool

-- The constructor, with what `operator new` gives to each pool.
unfoldable pub pools_of : List ℕ → List ℕ → Memory → MemoryPool × Memory
pools_of [] bases m = ([], m)
pools_of (sz ∷ szs) [] m = ([], m)
pools_of (sz ∷ szs) (base ∷ bases) m =
    let (p, n) = fixed_mem_pool base sz 1024 m in let (ps, o) = pools_of szs bases n in (p ∷ ps, o)

allocate_in : ℕ → ℕ → Option FixedMemPool → MemoryPool → Memory → Option (ℕ × MemoryPool × Memory)
allocate_in i base none ps m = none
allocate_in i base (some p) ps m = let (b, q, n) = allocate base p m in some (b, set ps i q, n)

-- `allocate`; `base` is what `operator new` gives if it is called, and `none` an index outside of the
-- vector.
unfoldable pub allocate_size : ℕ → ℕ → MemoryPool → Memory → Option (ℕ × MemoryPool × Memory)
unfolding allocate_in
allocate_size size base ps m =
    if ltb max_block_size size
    then some (base, ps, m)
    else elim (find_pool size) [ none ↦ none | some i ↦ allocate_in i base (get_elem? ps i) ps m ]

deallocate_in : ℕ → ℕ → Option FixedMemPool → MemoryPool → Memory → Option (MemoryPool × Memory)
deallocate_in i ptr none ps m = none
deallocate_in i ptr (some p) ps m = let (q, n) = deallocate ptr p m in some (set ps i q, n)

-- `deallocate`; a large block goes to `operator delete`.
unfoldable pub deallocate_size : ℕ → ℕ → MemoryPool → Memory → Option (MemoryPool × Memory)
unfolding deallocate_in
deallocate_size size ptr ps m =
    if ltb max_block_size size
    then some (ps, m)
    else elim (find_pool size) [ none ↦ none | some i ↦ deallocate_in i ptr (get_elem? ps i) ps m ]

-- The block sizes are those of the constructor.
abbrev pub block_sizes : MemoryPool → List ℕ
block_sizes [] = []
block_sizes (p ∷ ps) = p.block_size ∷ block_sizes ps

-- With memory for each pool the constructor makes one of each size.
pub block_sizes-pools_of :
    (szs bases : List ℕ) (m : Memory)
    → length szs ≤ length bases
    → block_sizes (pools_of szs bases m).0 ≡ szs
unfolding pools_of fixed_mem_pool
block_sizes-pools_of [] bases m h = refl
block_sizes-pools_of (sz ∷ szs) [] m h = absurd (omega arith)
block_sizes-pools_of (sz ∷ szs) (base ∷ bases) m h =
    ap (λ t. sz ∷ t)
      (block_sizes-pools_of szs bases (fixed_mem_pool base sz 1024 m).1 (omega arith))

pool_at :
    (ps : MemoryPool) (i b : ℕ)
    → get_elem? (block_sizes ps) i ≡ some b
    → (p : FixedMemPool) × (get_elem? ps i ≡ some p) × (p.block_size ≡ b)
pool_at [] i b h = cc
pool_at (p ∷ ps) zero b h = (p, refl, ground arith)
pool_at (p ∷ ps) (suc i) b h = pool_at ps i b h

pub get_elem?-set :
    (ps : MemoryPool) (i : ℕ) (p q : FixedMemPool)
    → get_elem? ps i ≡ some p
    → get_elem? (set ps i q) i ≡ some q
get_elem?-set [] i p q h = cc
get_elem?-set (r ∷ ps) zero p q h = refl
get_elem?-set (r ∷ ps) (suc i) p q h = get_elem?-set ps i p q h

set-set_back :
    (ps : MemoryPool) (i : ℕ) (p q : FixedMemPool)
    → get_elem? ps i ≡ some p
    → set (set ps i q) i p ≡ ps
set-set_back [] i p q h = refl
set-set_back (r ∷ ps) zero p q h = let same : r ≡ p = ground arith in rw same refl
set-set_back (r ∷ ps) (suc i) p q h = ap (λ t. r ∷ t) (set-set_back ps i p q h)

-- The pool that a size is served from, in the vector.
pub serving_pool :
    (size : ℕ) (ps : MemoryPool)
    → size ≤ max_block_size
    → block_sizes ps ≡ pool_sizes
    → (i : ℕ) × (p : FixedMemPool) × (find_pool size ≡ some i)
      × (get_elem? ps i ≡ some p)
      × (size ≤ p.block_size)
serving_pool size ps h sizes =
    let (i, b, found, place, fits, least) = find_pool-fits size h in
    let (p, at, size_of) = pool_at ps i b (rw sizes place) in
    (i, p, found, at, omega (arith, size_of, fits))

pub deallocate_at :
    (size ptr i : ℕ) (p : FixedMemPool) (ps : MemoryPool) (m : Memory)
    → size ≤ max_block_size
    → find_pool size ≡ some i
    → get_elem? ps i ≡ some p
    → deallocate_size size ptr ps m ≡ some (set ps i (deallocate ptr p m).0, (deallocate ptr p m).1)
unfolding deallocate_size
deallocate_at size ptr i p ps m h found at = ground (arith, found, at)

pub allocate_at :
    (size base i : ℕ) (p : FixedMemPool) (ps : MemoryPool) (m : Memory)
    → size ≤ max_block_size
    → find_pool size ≡ some i
    → get_elem? ps i ≡ some p
    → allocate_size size base ps m ≡ some (let r = allocate base p m in (r.0, set ps i r.1, r.2))
unfolding allocate_size
allocate_at size base i p ps m h found at = ground (arith, found, at)

-- What is free is given again: `deallocate` and then `allocate`.
deallocate-allocate_block :
    (ptr base : ℕ) (p : FixedMemPool) (m : Memory)
    → ptr ≢ 0
    → let (q, n) = deallocate ptr p m in allocate base q n ≡ (ptr, p, n)
unfolding deallocate allocate
deallocate-allocate_block ptr base p m h = elim (Bool-cases (ptr == 0)) [
  | inl e ↦ absurd (ground arith)
  | inr e ↦ rw (e, ==_refl ptr) refl
]

deallocate_other :
    (ptr : ℕ) (p : FixedMemPool) (m : Memory) (a : ℕ) → a ≢ ptr → (deallocate ptr p m).1 a ≡ m a
unfolding deallocate
deallocate_other ptr p m a h = ground arith

-- With the pools of the constructor a size up to the largest block is served from a pool of the vector
-- whose blocks are large enough, and only that pool changes. A block that is given back under a size is
-- the next that is given for the same size, and then the pools are what they were before it was given
-- back; the memory differs in the block alone.
pub deallocate-allocate :
    (size ptr base : ℕ) (ps : MemoryPool) (m : Memory)
    → size ≤ max_block_size
    → block_sizes ps ≡ pool_sizes
    → ptr ≢ 0
    → (i : ℕ) × (p : FixedMemPool) × (qs : MemoryPool) × (n : Memory) × (get_elem? ps i ≡ some p)
      × (size ≤ p.block_size)
      × (deallocate_size size ptr ps m ≡ some (qs, n))
      × (qs ≡ set ps i (deallocate ptr p m).0)
      × (allocate_size size base qs n ≡ some (ptr, ps, n))
      × ((a : ℕ) → a ≢ ptr → n a ≡ m a)
deallocate-allocate size ptr base ps m h sizes nonnull =
    let (i, p, found, at, fits) = serving_pool size ps h sizes in
    let (q, n) = deallocate ptr p m in
    let again = allocate_at size base i q (set ps i q) n h found (get_elem?-set ps i p q at) in
    (
      i,
      p,
      set ps i q,
      n,
      at,
      fits,
      deallocate_at size ptr i p ps m h found at,
      refl,
      again
          ∙ ap some
              (rw (deallocate-allocate_block ptr base p m nonnull, set-set_back ps i p q at) refl),
      deallocate_other ptr p m,
    )
