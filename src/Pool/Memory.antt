-- ===== src/Pool/Memory.antt =====
-- `FixedMemPool` and `MemoryPool` (include/pool/memory_pool.hpp). An address is a number, and the
-- memory gives for the address of a block the pointer in its first bytes, 0 for `nullptr`.
pub mod Ranges
pub mod Blocks
pub mod Owned
pub mod Frame
pub mod Shared
pub mod Sizes
pub mod Levels
use lfgateway.Base.{
  ℕ, zero, suc, ◌+◌, ◌*◌, ltb, leb, ◌&&◌, Bool, true, false, List, [], ◌∷◌, if◌then◌else◌, ◌==◌,
  Option, none, some,
}

abbrev pub Memory : Type 0
Memory = ℕ → ℕ

abbrev pub write : ℕ → ℕ → Memory → Memory
write a v m b = if b == a then v else m b

pub record FixedMemPool : Type 0 where
  pub block_size : ℕ
  pub block_count : ℕ
  pub free_list : ℕ
  pub chunks : List ℕ

-- The loop of `allocate_chunk` from the block `i` on, with `n` blocks to go.
unfoldable pub link : ℕ → ℕ → ℕ → ℕ → ℕ → Memory → ℕ × Memory
link base size i zero free m = (free, m)
link base size i (suc n) free m =
    let block = base + i * size in link base size (suc i) n block (write block free m)

-- `base` is what `operator new` gave.
unfoldable pub allocate_chunk : ℕ → FixedMemPool → Memory → FixedMemPool × Memory
unfolding link
allocate_chunk base p m =
    let (free, n) = link base p.block_size 0 p.block_count p.free_list m in
    (record p { free_list = free; chunks = base ∷ p.chunks }, n)

abbrev take_head : FixedMemPool × Memory → ℕ × FixedMemPool × Memory
take_head (p, m) = (p.free_list, record p { free_list = m p.free_list }, m)

-- `base` is what `operator new` gives if it is called.
unfoldable pub allocate : ℕ → FixedMemPool → Memory → ℕ × FixedMemPool × Memory
unfolding allocate_chunk
allocate base p m = take_head (if p.free_list == 0 then allocate_chunk base p m else (p, m))

unfoldable pub deallocate : ℕ → FixedMemPool → Memory → FixedMemPool × Memory
deallocate ptr p m = (record p { free_list = ptr }, write ptr p.free_list m)

-- `FixedMemPool::FixedMemPool`
unfoldable pub fixed_mem_pool : ℕ → ℕ → ℕ → Memory → FixedMemPool × Memory
unfolding allocate_chunk
fixed_mem_pool base block_size block_count m =
    allocate_chunk base
      (record { block_size = block_size; block_count = block_count; free_list = 0; chunks = [] }) m

abbrev pub min_block_size : ℕ
min_block_size = 8

abbrev pub max_block_size : ℕ
max_block_size = 4096

-- The loop of `find_pool`; `none` if the fuel is not enough.
unfoldable pub find_loop : ℕ → ℕ → ℕ → ℕ → Option ℕ
find_loop zero size sz idx = none
find_loop (suc fuel) size sz idx =
    let rest = find_loop fuel size (2 * sz) (suc idx) in
    if ltb sz size && leb sz max_block_size then rest else some idx

-- The index of the pool for a size: the size doubles until it is enough or too large.
unfoldable pub find_pool : ℕ → Option ℕ
unfolding find_loop
find_pool size = find_loop 12 size min_block_size 0

-- The loop of the constructor: the block sizes of the pools from `sz` on.
unfoldable pub sizes_from : ℕ → ℕ → List ℕ
sizes_from zero sz = []
sizes_from (suc fuel) sz =
    let rest = sizes_from fuel (2 * sz) in if leb sz max_block_size then sz ∷ rest else []

unfoldable pub pool_sizes : List ℕ
unfolding sizes_from
pool_sizes = sizes_from 12 min_block_size
