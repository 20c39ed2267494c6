-- ===== src/Pool/Memory/Owned.antt =====
-- Allocation, freeing and the clients' own writes, in any order.
use mathlib.Core.List.{
  Mem, Nodup-cons, Nodup-nil, not-mem-nil, mem-append_left, mem-cons_self, perm_middle,
}
use mathlib.Core.List.Perm
use lfgateway.Base.Reach.{Steps, Steps-keep}
use lfgateway.Base.{
  ℕ, ◌<◌, ◌≡◌, ◌≢◌, refl, inl, inr, true, List, [], ◌∷◌, ◌++◌, append_assoc, arith, ◌==◌,
  Bool-cases, ==_refl,
}
use lfgateway.Pool.Memory.{
  Memory, write, FixedMemPool, allocate_chunk, allocate, deallocate, fixed_mem_pool,
}
use lfgateway.Pool.Memory.Ranges.{
  IsClear, in_chunks, IsLaid, IsLaid-perm, IsLaid-rest, IsLaid-IsClear,
}
use lfgateway.Pool.Memory.Blocks.{Chained, write-Chain, Supplied, NonNull, IsOwned, chunk-Chained}

-- The pool, the memory, and the blocks that were allocated and not yet given back.
pub record World : Type 0 where
  pub pool : FixedMemPool
  pub memory : Memory
  pub held : List ℕ

abbrev after_allocate : ℕ → World → World
after_allocate base w =
    let r = allocate base w.pool w.memory in
    record { pool = r.1; memory = r.2; held = r.0 ∷ w.held }

abbrev after_free : ℕ → List ℕ → World → World
after_free b rest w =
    let r = deallocate b w.pool w.memory in record { pool = r.0; memory = r.1; held = rest }

-- A client allocates a block, gives back one that it holds, or writes to one.
pub data Step : World → World → Type 0 where
  allocates :
      {w : World} (base : ℕ)
      → (w.pool.free_list ≡ 0 → Supplied base w.pool w.held)
      → Step w (after_allocate base w)
  frees :
      {w : World} (before after : List ℕ) (b : ℕ)
      → w.held ≡ before ++ b ∷ after
      → Step w (after_free b (before ++ after) w)
  writes :
      {w : World} (before after : List ℕ) (b v : ℕ)
      → w.held ≡ before ++ b ∷ after
      → Step w (record w { memory = write b v w.memory })

abbrev pub Reach : World → World → Type 0
Reach = Steps Step

abbrev pub IsSound : World → Type 0
IsSound w = IsOwned w.pool w.memory w.held

NonNull-middle :
    (before after : List ℕ) (b : ℕ)
    → NonNull (before ++ b ∷ after)
    → (b ≢ 0) × NonNull (before ++ after)
NonNull-middle [] after b (h, rest) = (h, rest)
NonNull-middle (c ∷ before) after b (h, rest) =
    let (n, others) = NonNull-middle before after b rest in (n, (h, others))

-- The head of a chain that is not empty leaves the list and joins the held blocks.
head-Chained :
    (p : FixedMemPool) (m : Memory) (free : ℕ) (held : List ℕ)
    → Chained p (free, m) held
    → free ≢ 0
    → Chained p (m free, m) (free ∷ held)
head-Chained p m free held ([], e, d) h = absurd (h e)
head-Chained p m free held (b ∷ l, (e, nonnull, c), d) h =
    (l, rw e c, rw e (IsLaid-perm p (Perm.symm (perm_middle l held)) d))

head-IsOwned :
    (p : FixedMemPool) (m : Memory) (held : List ℕ)
    → Chained p (p.free_list, m) held
    → p.free_list ≢ 0
    → NonNull held
    → IsOwned (record p { free_list = m p.free_list }) m (p.free_list ∷ held)
head-IsOwned p m held c h n = (head-Chained p m p.free_list held c h, (h, n))

pub allocate-IsOwned :
    (base : ℕ) (w : World)
    → (w.pool.free_list ≡ 0 → Supplied base w.pool w.held)
    → IsSound w
    → IsSound (after_allocate base w)
unfolding allocate
allocate-IsOwned base w supply ((l, c, d), n) = elim (Bool-cases (w.pool.free_list == 0)) [
  | inl e ↦
      let empty : w.pool.free_list ≡ 0 = ground arith in
      let (q, m) = allocate_chunk base w.pool w.memory in
      let (chained, nonnull) =
        chunk-Chained base w.pool w.memory w.held (supply empty) empty (IsLaid-rest w.pool l d) in
      rw e (head-IsOwned q m w.held chained nonnull n)
  | inr e ↦
      let nonnull : w.pool.free_list ≢ 0 = λ h. ground arith in
      rw e (head-IsOwned w.pool w.memory w.held (l, c, d) nonnull n)
]

-- The block at hand comes to the front.
pub apart :
    (p : FixedMemPool) (l before after : List ℕ) (b : ℕ)
    → IsLaid p (l ++ (before ++ b ∷ after))
    → IsLaid p (b ∷ (l ++ (before ++ after)))
apart p l before after b d =
    rw (← append_assoc l before after)
      (IsLaid-perm p (perm_middle (l ++ before) after) (rw (append_assoc l before (b ∷ after)) d))

not_free :
    (p : FixedMemPool) (l before after : List ℕ) (b : ℕ)
    → IsLaid p (b ∷ (l ++ (before ++ after)))
    → ¬ Mem b l
not_free p l before after b d k = (Nodup-cons.0 d.0).0 (mem-append_left (before ++ after) k)

pub free-IsOwned :
    (w : World) (before after : List ℕ) (b : ℕ)
    → w.held ≡ before ++ b ∷ after
    → IsSound w
    → IsSound (after_free b (before ++ after) w)
unfolding deallocate
free-IsOwned w before after b e ((l, c, d), n) =
    let (nonnull, others) = NonNull-middle before after b (rw e at n) in
    let different = apart w.pool l before after b (rw e at d) in
    let outside = not_free w.pool l before after b different in
    (
      (
        b ∷ l,
        (
          refl,
          nonnull,
          rw (==_refl b) (write-Chain b w.pool.free_list w.memory w.pool.free_list l outside c),
        ),
        different,
      ),
      others,
    )

write-IsOwned :
    (w : World) (before after : List ℕ) (b v : ℕ)
    → w.held ≡ before ++ b ∷ after
    → IsSound w
    → IsSound (record w { memory = write b v w.memory })
write-IsOwned w before after b v e ((l, c, d), n) =
    let different = apart w.pool l before after b (rw e at d) in
    let outside = not_free w.pool l before after b different in
    ((l, write-Chain b v w.memory w.pool.free_list l outside c, d), n)

Step-IsSound : {u v : World} → Step u v → IsSound u → IsSound v
Step-IsSound (allocates {w} base supply) i = allocate-IsOwned base w supply i
Step-IsSound (frees {w} before after b e) i = free-IsOwned w before after b e i
Step-IsSound (writes {w} before after b v e) i = write-IsOwned w before after b v e i

Reach-IsSound : {u v : World} → Reach u v → IsSound u → IsSound v
Reach-IsSound r i = Steps-keep IsSound (λ u v s p. Step-IsSound s p) r i

-- The constructor's pool, of which nobody holds a block.
pub fixed_mem_pool-IsSound :
    (base block_size block_count : ℕ) (m : Memory)
    → 0 < base
    → 0 < block_size
    → 0 < block_count
    → let (p, n) = fixed_mem_pool base block_size block_count m in
      IsSound (record { pool = p; memory = n; held = [] })
unfolding fixed_mem_pool
fixed_mem_pool-IsSound base block_size block_count m b s c =
    let p : FixedMemPool = record {
      block_size = block_size;
      block_count = block_count;
      free_list = 0;
      chunks = [];
    } in
    let (chained, nonnull) =
      chunk-Chained base p m [] (b, s, c, tt) refl
        (Nodup-nil, λ x y k. absurd (not-mem-nil k), λ x k. absurd (not-mem-nil k)) in
    (chained, tt)

-- A pool never hands out memory twice: whatever the clients allocate, give back and write to their
-- blocks, the next block that `allocate` gives is not null, is not held by anybody, shares no byte
-- with a block that somebody holds, and lies in a chunk of the pool, if the pool started sound, as
-- the constructor leaves it, and `operator new` gives memory that shares no byte with a held block.
pub allocate-not_held :
    {u w : World} (base : ℕ)
    → Reach u w
    → IsSound u
    → (w.pool.free_list ≡ 0 → Supplied base w.pool w.held)
    → let (b, p, m) = allocate base w.pool w.memory in
      (b ≢ 0) × (¬ Mem b w.held) × IsClear p.block_size b w.held × (in_chunks p b ≡ true)
allocate-not_held {u} {w} base r i supply =
    let v = after_allocate base w in
    let ((l, c, d), n) = allocate-IsOwned base w supply (Reach-IsSound r i) in
    let laid = IsLaid-rest v.pool l d in
    (n.0, (Nodup-cons.0 laid.0).0, IsLaid-IsClear v.pool laid, laid.2 _ mem-cons_self)
