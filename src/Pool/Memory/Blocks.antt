-- ===== src/Pool/Memory/Blocks.antt =====
-- The free list in the blocks themselves, against the list of the free blocks.
use mathlib.Core.HLevel.{¬_prop}
use mathlib.Core.Logic.Or
use mathlib.Core.List.{
  Mem, not-mem-nil, mem-cons_self, mem-cons_of_mem, eq-or-mem_of_mem-cons, mem-append_left,
}
use lfgateway.Base.{
  ℕ, zero, suc, ◌+◌, ◌-◌, ◌*◌, ◌≤◌, ◌<◌, ◌≡◌, ◌≢◌, refl, ap, ◌⊎◌, inl, inr, true, false, List, [],
  ◌∷◌, ◌++◌, arith, ◌==◌, Bool-cases, ==_refl,
}
use lfgateway.Pool.Memory.Ranges.{
  Overlap, IsClear, in_chunks, IsLaid, IsLaid-cons, IsLaid-grown, IsClear-not_mem,
}
use lfgateway.Pool.Memory.{Memory, write, FixedMemPool, link, allocate_chunk}

-- The pointers lead from `head` through the blocks `l` to `nullptr`.
abbrev pub Chain : Memory → ℕ → List ℕ → Type 0
Chain m head [] = head ≡ 0
Chain m head (b ∷ l) = (head ≡ b) × (b ≢ 0) × Chain m (m b) l

-- A write to a block that is not in the list does not touch it.
pub write-Chain :
    (a v : ℕ) (m : Memory) (head : ℕ) (l : List ℕ)
    → ¬ Mem a l
    → Chain m head l
    → Chain (write a v m) head l
write-Chain a v m head [] other c = c
write-Chain a v m head (b ∷ l) other (e, nonnull, c) =
    let differs : (b == a) ≡ false = elim (Bool-cases (b == a)) [
      | inl h ↦ let same : a ≡ b = ground arith in absurd (other (rw same mem-cons_self))
      | inr h ↦ h
    ] in
    (e, nonnull, rw differs (write-Chain a v m (m b) l (λ k. other (mem-cons_of_mem b k)) c))

-- One chunk's blocks from `i` on share no byte with the blocks of `l`.
abbrev Misses : ℕ → ℕ → ℕ → ℕ → List ℕ → Type 0
Misses base size i n l = (j : ℕ) → i ≤ j → j < i + n → IsClear size (base + j * size) l

later_block : (base size i j : ℕ) → suc i ≤ j → ¬ Overlap size (base + j * size) (base + i * size)
later_block base size i j h o =
    let shift : j ≡ i + suc (j - suc i) = omega arith in
    let product = ap (λ (k : ℕ). k * size) shift in omega (arith, product, o.0)

-- What a chain is worth to its pool: the free blocks and the held ones are laid out in the chunks.
abbrev pub Chained : FixedMemPool → ℕ × Memory → List ℕ → Type 0
Chained p (free, m) held = (l : List ℕ) × Chain m free l × IsLaid p (l ++ held)

link-Chained :
    (p : FixedMemPool) (base i n free : ℕ) (m : Memory) (l held : List ℕ)
    → 0 < base
    → 0 < p.block_size
    → Misses base p.block_size i n (l ++ held)
    → ((j : ℕ) → j < i + n → in_chunks p (base + j * p.block_size) ≡ true)
    → Chain m free l
    → IsLaid p (l ++ held)
    → Chained p (link base p.block_size i n free m) held
unfolding link
link-Chained p base i zero free m l held b s h inside c d = (l, c, d)
link-Chained p base i (suc n) free m l held b s h inside c d =
    let block = base + i * p.block_size in
    let clear : IsClear p.block_size block (l ++ held) = h i (omega arith) (omega arith) in
    let other : ¬ Mem block (l ++ held) = IsClear-not_mem s clear in
    link-Chained p base (suc i) n block (write block free m) (block ∷ l) held b s
      (λ j low high x k.
        Or.elim (¬_prop) (eq-or-mem_of_mem-cons k)
          (λ e. rw e (later_block base p.block_size i j low)) (h j (omega arith) (omega arith) x))
      (λ j high. inside j (omega arith))
      (
        refl,
        (λ e. omega (arith, e)),
        rw (==_refl block)
            (write-Chain block free m free l (λ k. other (mem-append_left held k)) c),
      )
      (IsLaid-cons p s clear (inside i (omega arith)) d)

link-nonnull :
    (base size i n free : ℕ) (m : Memory) → 0 < base → free ≢ 0 → (link base size i n free m).0 ≢ 0
unfolding link
link-nonnull base size i zero free m b h = h
link-nonnull base size i (suc n) free m b h =
    let block = base + i * size in
    link-nonnull base size (suc i) n block (write block free m) b (λ e. omega (arith, e))

-- The documented behaviour of `operator new`: no live block shares a byte with what it gives.
abbrev pub Outside : ℕ → ℕ → ℕ → List ℕ → Type 0
Outside base bytes size [] = Unit {0}
Outside base bytes size (b ∷ l) =
    ((b + size ≤ base) ⊎ (base + bytes ≤ b)) × Outside base bytes size l

-- The blocks of a chunk end in it.
pub in_chunk : (base size n j : ℕ) → j < n → base + j * size + size ≤ base + size * n
in_chunk base size n j h =
    let shift : n ≡ j + suc (n - suc j) = omega arith in
    let product = ap (λ (k : ℕ). k * size) shift in omega (arith, product)

Outside-IsClear :
    (base size n j : ℕ) (l : List ℕ)
    → j < n
    → Outside base (size * n) size l
    → IsClear size (base + j * size) l
Outside-IsClear base size n j [] h o x k = absurd (not-mem-nil k)
Outside-IsClear base size n j (b ∷ l) h (apart, o) x k =
    Or.elim ¬_prop (eq-or-mem_of_mem-cons k)
      (λ e o. let inside = in_chunk base size n j h in omega (arith, e, apart, inside, o.0, o.1))
      (Outside-IsClear base size n j l h o x)

-- The blocks of the newest chunk lie in it.
block-in_chunks :
    (base : ℕ) (p : FixedMemPool) (j : ℕ)
    → j < p.block_count
    → in_chunks (record p { chunks = base ∷ p.chunks }) (base + j * p.block_size) ≡ true
block-in_chunks base p j h =
    let inside = in_chunk base p.block_size p.block_count j h in ground (arith, inside)

-- A pool with blocks and a chunk for it: what `allocate` needs when its list is empty.
abbrev pub Supplied : ℕ → FixedMemPool → List ℕ → Type 0
Supplied base p held =
    (0 < base)
    × (0 < p.block_size)
    × (0 < p.block_count)
    × Outside base (p.block_size * p.block_count) p.block_size held

abbrev pub NonNull : List ℕ → Type 0
NonNull [] = Unit {0}
NonNull (b ∷ l) = (b ≢ 0) × NonNull l

first_link :
    (base size n free : ℕ) (m : Memory) → 0 < base → 0 < n → (link base size 0 n free m).0 ≢ 0
unfolding link
first_link base size zero free m b h = absurd (omega arith)
first_link base size (suc n) free m b h =
    link-nonnull base size 1 n (base + 0 * size) (write (base + 0 * size) free m) b
      (λ e. omega (arith, e))

-- The blocks of the free list and the held ones are laid out in the chunks.
abbrev pub IsOwned : FixedMemPool → Memory → List ℕ → Type 0
IsOwned p m held = Chained p (p.free_list, m) held × NonNull held

pub chunk-Chained :
    (base : ℕ) (p : FixedMemPool) (m : Memory) (held : List ℕ)
    → Supplied base p held
    → p.free_list ≡ 0
    → IsLaid p held
    → let (q, n) = allocate_chunk base p m in Chained q (q.free_list, n) held × (q.free_list ≢ 0)
unfolding allocate_chunk
chunk-Chained base p m held (b, s, c, o) empty d = (
  link-Chained (record p { chunks = base ∷ p.chunks }) base 0 p.block_count p.free_list m [] held b
      s (λ j low high. Outside-IsClear base p.block_size p.block_count j held (omega arith) o)
      (λ j high. block-in_chunks base p j (omega arith)) empty (IsLaid-grown p base d),
  first_link base p.block_size p.block_count p.free_list m b c,
)
