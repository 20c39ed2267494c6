-- ===== src/Pool/Memory/Sizes.antt =====
-- The pool that `MemoryPool` takes for a size.
use lfgateway.Base.{
  ℕ, zero, suc, ◌+◌, ◌*◌, ◌≤◌, ◌<◌, ltb, ◌≡◌, refl, ap, ◌∙◌, ◌⊎◌, inl, inr, Bool-cases, some, arith,
  get_elem?,
}
use lfgateway.Pool.Memory.{
  max_block_size, min_block_size, find_loop, find_pool, sizes_from, pool_sizes,
}

abbrev double : ℕ → ℕ → ℕ
double zero sz = sz
double (suc k) sz = double k (2 * sz)

double-le : (k sz : ℕ) → sz ≤ double k sz
double-le zero sz = omega arith
double-le (suc k) sz = omega (arith, double-le k (2 * sz))

-- The pool `d` places on from the size `sz` is the first that fits.
abbrev Fits : ℕ → ℕ → ℕ → ℕ → Type 0
Fits fuel size sz idx =
    (d : ℕ) × (b : ℕ) × (find_loop fuel size sz idx ≡ some (idx + d))
    × (get_elem? (sizes_from fuel sz) d ≡ some b)
    × (size ≤ b)
    × (((d ≡ 0) × (b ≡ sz)) ⊎ (b < 2 * size))

find_loop-Fits :
    (k f size sz idx : ℕ) → k < f → 0 < sz → size ≤ 4096 → double k sz ≡ 4096 → Fits f size sz idx
unfolding find_loop sizes_from
find_loop-Fits k zero size sz idx h p s e = absurd (omega arith)
find_loop-Fits zero (suc f) size sz idx h p s e =
    (0, sz, ground (arith, e), ground (arith, e), omega (arith, e), inl (refl, refl))
find_loop-Fits (suc k) (suc f) size sz idx h p s e = elim (Bool-cases (ltb sz size)) [
  | inr small ↦
      let bound = double-le (suc k) sz in
      (0, sz, ground arith, ground (arith, e, bound), ground arith, inl (refl, refl))
  | inl large ↦
      let bound = double-le (suc k) sz in
      let (d, b, found, place, fits, least) =
        find_loop-Fits k f size (2 * sz) (suc idx) (omega arith) (omega arith) s e in
      let step : suc idx + d ≡ idx + suc d = omega arith in
      (
        suc d,
        b,
        ground (arith, e, bound, found, step),
        ground (arith, e, bound, place),
        fits,
        inr (ground (arith, least)),
      )
]

-- Every size that `MemoryPool` serves from its pools finds one, in few enough rounds and inside the
-- vector, whose blocks are large enough; and unless it is the first, they are less than twice
-- as large as what was asked for.
pub find_pool-fits :
    (size : ℕ)
    → size ≤ max_block_size
    → (idx : ℕ) × (b : ℕ) × (find_pool size ≡ some idx)
      × (get_elem? pool_sizes idx ≡ some b)
      × (size ≤ b)
      × ((b ≡ min_block_size) ⊎ (b < 2 * size))
unfolding find_pool pool_sizes
find_pool-fits size h =
    let (d, b, found, place, fits, least) =
      find_loop-Fits 9 12 size min_block_size 0 (omega arith) (omega arith) h refl in
    let start : 0 + d ≡ d = omega arith in
    (d, b, found ∙ ap some start, place, fits, ground (arith, least))
