-- ===== src/Pool/Memory/Shared/Tests.antt =====
-- Two clients of `MemoryPool`.
use mathlib.Core.List.{Mem}
use mathlib.Core.Option
use lfgateway.Base.Reach.{here, next}
use lfgateway.Base.{
  ℕ, ◌≡◌, ◌≢◌, refl, sym, ap, ◌∙◌, ◌<◌, get_elem?, none, some, List, [], ◌∷◌, arith,
}
use lfgateway.Pool.Memory.{Memory, FixedMemPool, pool_sizes, allocate, fixed_mem_pool, find_pool}
use lfgateway.Pool.Memory.Frame.{Meets}
use lfgateway.Pool.Memory.Levels.{MemoryPool, pools_of, allocate_size}
use lfgateway.Pool.Memory.Shared.{World, Fresh, Reach, allocates}
use lfgateway.Pool.Memory.Shared.Start.{AreSpaced, constructed}
use lfgateway.Pool.Memory.Shared.Apart.{allocate_size-apart}

abbrev bases : List ℕ
bases = 10000 ∷ 20000 ∷ 40000 ∷ 80000 ∷ 200000 ∷ 400000 ∷ 800000 ∷ 2000000 ∷ 4000000 ∷ 10000000 ∷ []

bases-AreSpaced : AreSpaced pool_sizes bases
unfolding pool_sizes
bases-AreSpaced = ground arith

abbrev new : World
new = constructed bases (λ a. 0)

abbrev served_first : ℕ × MemoryPool × Memory
served_first = elim (allocate_size 100 0 new.pools new.memory) [
  | none ↦ (0, [], λ a. 0)
  | some t ↦ t
]

abbrev one_held : World
one_held = record {
  pools = served_first.1;
  memory = served_first.2;
  held = (served_first.0, 100) ∷ [];
}

first_address : served_first.0 ≡ 330944
unfolding allocate_size pool_sizes pools_of fixed_mem_pool allocate find_pool
first_address = refl

-- A pool for the size that has free blocks asks nothing of `operator new`.
free_list-Fresh :
    (base size i : ℕ) (ps : MemoryPool) (r : FixedMemPool)
    → 0 < base
    → find_pool size ≡ some i
    → get_elem? ps i ≡ some r
    → r.free_list ≢ 0
    → Fresh base size ps
free_list-Fresh base size i ps r pos served stands full = (
  pos,
  λ k j p q found at e place.
      let same : k ≡ i = Option.some-injective k i (sym found ∙ served) in
      let alike : p ≡ r = Option.some-injective p r (sym at ∙ rw same stands) in
      absurd (full (ap (λ (x : FixedMemPool). x.free_list) (sym alike) ∙ e)),
)

abbrev pool_for_100 : MemoryPool → FixedMemPool
pool_for_100 ps = elim (get_elem? ps 4) [
  | none ↦ record { block_size = 0; block_count = 0; free_list = 0; chunks = [] }
  | some p ↦ p
]

new-Fresh : Fresh 1 100 new.pools
unfolding pool_sizes pools_of fixed_mem_pool find_pool
new-Fresh =
    free_list-Fresh 1 100 4 new.pools (pool_for_100 new.pools) (omega arith) refl refl
      (λ e. omega (arith, e))

first_allocation : Reach new one_held
unfolding allocate_size pool_sizes pools_of fixed_mem_pool allocate find_pool
first_allocation = next here (allocates 100 1 (omega arith) new-Fresh refl)

held-Fresh : Fresh 1 70 one_held.pools
unfolding allocate_size pool_sizes pools_of fixed_mem_pool allocate find_pool
held-Fresh =
    free_list-Fresh 1 70 4 one_held.pools (pool_for_100 one_held.pools) (omega arith) refl refl
      (λ e. omega (arith, e))

allocate_size-apart_example :
    (b : ℕ) × (qs : MemoryPool) × (n : Memory) × (allocate_size 70 1 one_held.pools one_held.memory
      ≡ some (b, qs, n))
    × (b ≢ 0)
    × ((c z : ℕ) → Mem (c, z) one_held.held → ¬ Meets b 70 c z)
unfolding pool_sizes
allocate_size-apart_example =
    allocate_size-apart bases (λ a. 0) 70 1 (omega arith) bases-AreSpaced first_allocation
      (omega arith) held-Fresh
