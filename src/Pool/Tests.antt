-- ===== src/Pool/Tests.antt =====
-- The thread pool and the memory pools at concrete inputs.
use mathlib.Core.List.{Mem}
use lfgateway.Base.Reach.{here, next}
use lfgateway.Base.{
  ℕ, ◌≤◌, ◌≡◌, ◌≢◌, refl, inl, true, false, some, List, [], ◌∷◌, arith, get_elem?, set,
}
use lfgateway.Pool.Thread.{enqueue, worker_loop}
use lfgateway.Pool.Thread.Fifo.{World, fresh, enqueues, takes, ends, stops, Reach, joined_ran_all}
use lfgateway.Pool.Memory.{Memory, FixedMemPool, fixed_mem_pool, deallocate, allocate, pool_sizes}
use lfgateway.Pool.Memory.Owned
use lfgateway.Pool.Memory.Ranges.{IsClear, in_chunks}
use lfgateway.Pool.Memory.Owned.{allocates, fixed_mem_pool-IsSound, allocate-not_held}
use lfgateway.Pool.Memory.Levels.{
  MemoryPool, pools_of, allocate_size, deallocate_size, block_sizes-pools_of, deallocate-allocate,
}

abbrev joined : World ℕ
joined = record {
  pool = record { tasks = []; stop = true };
  workers = 0;
  accepted = 5 ∷ [];
  taken = 5 ∷ [];
}

-- A task is queued, the pool is stopped, and the one worker takes the task and returns.
queue_and_stop : Reach (fresh 1) joined
unfolding enqueue worker_loop
queue_and_stop =
    next
      (next
        (next (next here (enqueues {p = record { tasks = 5 ∷ []; stop = false }} 5 (inl refl)))
          stops)
        (takes {p = record { tasks = []; stop = true }} 5 0 refl refl))
      (ends {n = 0} refl refl)

joined_ran_all_example : joined.taken ≡ joined.accepted
joined_ran_all_example = joined_ran_all 1 (omega arith) queue_and_stop refl

-- A pool of two blocks of 8 bytes at 64, of which nobody holds one.
abbrev fresh_pool : Owned.World
fresh_pool =
    let (p, m) = fixed_mem_pool 64 8 2 (λ b. 0) in record { pool = p; memory = m; held = [] }

abbrev one_held : Owned.World
one_held =
    let (b, p, m) = allocate 0 fresh_pool.pool fresh_pool.memory in
    record { pool = p; memory = m; held = b ∷ [] }

first_allocation : Owned.Reach fresh_pool one_held
unfolding fixed_mem_pool
first_allocation = next here (allocates 0 (λ e. absurd (omega (arith, e))))

abbrev second_block : ℕ × FixedMemPool × Memory
second_block = allocate 0 one_held.pool one_held.memory

second_block_lem :
    (second_block.0 ≢ 0)
    × (¬ Mem second_block.0 one_held.held)
    × IsClear second_block.1.block_size second_block.0 one_held.held
    × (in_chunks second_block.1 second_block.0 ≡ true)
unfolding allocate fixed_mem_pool
second_block_lem =
    allocate-not_held 0 first_allocation
      (fixed_mem_pool-IsSound 64 8 2 (λ b. 0) (omega arith) (omega arith) (omega arith))
      (λ e. absurd (omega (arith, e)))

second_address : second_block.0 ≡ 64
unfolding allocate fixed_mem_pool
second_address = refl

abbrev bases : List ℕ
bases = 10000 ∷ 20000 ∷ 40000 ∷ 80000 ∷ 200000 ∷ 400000 ∷ 800000 ∷ 2000000 ∷ 4000000 ∷ 10000000 ∷ []

abbrev pools : MemoryPool
pools = (pools_of pool_sizes bases (λ a. 0)).0

deallocate-allocate_example :
    (i : ℕ) × (p : FixedMemPool) × (qs : MemoryPool) × (n : Memory) × (get_elem? pools i ≡ some p)
    × (100 ≤ p.block_size)
    × (deallocate_size 100 480000 pools (λ a. 0) ≡ some (qs, n))
    × (qs ≡ set pools i (deallocate 480000 p (λ a. 0)).0)
    × (allocate_size 100 0 qs n ≡ some (480000, pools, n))
    × ((a : ℕ) → a ≢ 480000 → n a ≡ 0)
unfolding pool_sizes
deallocate-allocate_example =
    deallocate-allocate 100 480000 0 pools (λ a. 0) (omega arith)
      (block_sizes-pools_of pool_sizes bases (λ a. 0) (omega arith)) (λ e. absurd (omega arith))
