-- ===== src/Pool/Memory/Frame/Growth.antt =====
-- What the operations of one pool leave of another: its memory, and the distance of the chunks.
use mathlib.Core.List.{Mem, mem-cons_self, mem-cons_of_mem, mem-append_right, eq-or-mem_of_mem-cons}
use mathlib.Core.HLevel.{⊥_prop}
use mathlib.Core.Logic.Or
use lfgateway.Base.{
  ℕ, zero, suc, ◌+◌, ◌*◌, ◌<◌, ◌≡◌, ◌≢◌, refl, ◌∙◌, inl, inr, true, List, [], ◌∷◌, leb, arith, ◌==◌,
  Bool-cases,
}
use lfgateway.Pool.Memory.{
  Memory, write, FixedMemPool, link, allocate_chunk, allocate, deallocate, fixed_mem_pool,
}
use lfgateway.Pool.Memory.Ranges.{in_chunks}
use lfgateway.Pool.Memory.Blocks.{in_chunk, Outside, IsOwned}
use lfgateway.Pool.Memory.Frame.{
  bytes, Meets, IsForeign, IsForeign-block, AreForeign, within-cases, write_other,
}

link-agrees :
    (base size i n free : ℕ) (m : Memory) (b : ℕ)
    → ((j : ℕ) → j < i + n → b ≢ base + j * size)
    → (link base size i n free m).1 b ≡ m b
unfolding link
link-agrees base size i zero free m b other = refl
link-agrees base size i (suc n) free m b other =
    let block = base + i * size in
    link-agrees base size (suc i) n block (write block free m) b (λ j h. other j (omega arith))
    ∙ write_other block free b m (other i (omega arith))

-- The blocks of a new chunk are none of a pool that it shares no byte with.
chunk-agrees :
    (base size n free : ℕ) (m : Memory) (q : FixedMemPool) (b : ℕ)
    → 0 < size
    → 0 < q.block_size
    → IsForeign base (size * n) q
    → in_chunks q b ≡ true
    → (link base size 0 n free m).1 b ≡ m b
chunk-agrees base size n free m q b s t f h = link-agrees base size 0 n free m b (λ j k same.
    IsForeign-block base (size * n) (base + j * size) size b q f (omega arith)
      (in_chunk base size n j (omega arith)) h (omega (arith, same), omega (arith, same)))

-- A new chunk for one pool does not touch the blocks of the other.
pub allocate-agrees :
    (base : ℕ) (p q : FixedMemPool) (m : Memory) (b : ℕ)
    → 0 < p.block_size
    → 0 < q.block_size
    → (p.free_list ≡ 0 → IsForeign base (bytes p) q)
    → in_chunks q b ≡ true
    → (allocate base p m).2 b ≡ m b
unfolding allocate allocate_chunk
allocate-agrees base p q m b s t f h = elim (Bool-cases (p.free_list == 0)) [
  | inr e ↦ rw e refl
  | inl e ↦
      rw e (chunk-agrees base p.block_size p.block_count p.free_list m q b s t (f (ground arith)) h)
]

pub fixed_mem_pool-agrees :
    (base size n : ℕ) (m : Memory) (q : FixedMemPool) (b : ℕ)
    → 0 < size
    → 0 < q.block_size
    → IsForeign base (size * n) q
    → in_chunks q b ≡ true
    → (fixed_mem_pool base size n m).1 b ≡ m b
unfolding fixed_mem_pool
fixed_mem_pool-agrees base size n m q b s t f h = chunk-agrees base size n 0 m q b s t f h

pub fixed_mem_pool-has :
    (base size n : ℕ) (m : Memory)
    → let p = (fixed_mem_pool base size n m).0 in
      (p.block_size ≡ size) × (p.block_count ≡ n) × (p.chunks ≡ base ∷ [])
unfolding fixed_mem_pool
fixed_mem_pool-has base size n m = (refl, refl, refl)

pub deallocate-agrees :
    (ptr : ℕ) (p : FixedMemPool) (m : Memory) (b : ℕ) → b ≢ ptr → (deallocate ptr p m).1 b ≡ m b
unfolding deallocate
deallocate-agrees ptr p m b h = write_other ptr p.free_list b m h

pub allocate-AreForeign :
    (base : ℕ) (p q : FixedMemPool) (m : Memory)
    → (p.free_list ≡ 0 → IsForeign base (bytes p) q)
    → AreForeign p q
    → AreForeign (allocate base p m).1 q
unfolding allocate allocate_chunk
allocate-AreForeign base p q m f h = elim (Bool-cases (p.free_list == 0)) [
  | inr e ↦ rw e h
  | inl e ↦ rw e (λ c k d i o.
      Or.elim ⊥_prop (eq-or-mem_of_mem-cons k)
        (λ same. f (ground arith) d i (omega (arith, same, o.0), omega (arith, same, o.1)))
        (λ old. h c old d i o))
]

-- What stays as it is.
pub allocate-keeps :
    (base : ℕ) (p : FixedMemPool) (m : Memory)
    → ((allocate base p m).1.block_size ≡ p.block_size)
      × ((allocate base p m).1.block_count ≡ p.block_count)
unfolding allocate allocate_chunk
allocate-keeps base p m = elim (Bool-cases (p.free_list == 0)) [
  | inr e ↦ rw e (refl, refl)
  | inl e ↦ rw e (refl, refl)
]

outside_of :
    (base n size : ℕ) (l : List ℕ)
    → ((b : ℕ) → Mem b l → ¬ Meets base n b size)
    → Outside base n size l
outside_of base n size [] h = tt
outside_of base n size (b ∷ l) h = (
  elim (Bool-cases (leb (b + size) base)) [
    | inl e ↦ inl (ground arith)
    | inr e ↦ inr (elim (Bool-cases (leb (base + n) b)) [
      | inl f ↦ ground arith
      | inr f ↦ absurd (h b mem-cons_self (ground arith, ground arith))
    ])
  ],
  outside_of base n size l (λ x k. h x (mem-cons_of_mem b k)),
)

-- Memory that shares no byte with a pool's chunks shares none with the blocks held of it.
pub foreign-Outside :
    (base : ℕ) (p : FixedMemPool) (m : Memory) (held : List ℕ)
    → IsForeign base (bytes p) p
    → IsOwned p m held
    → Outside base (bytes p) p.block_size held
foreign-Outside base p m held f ((l, c, d), nonnull) =
    outside_of base (bytes p) p.block_size held (λ b k o.
      within-cases p.block_size (bytes p) p.chunks b (d.2 b (mem-append_right l k))
        (λ x i low end. f x i (omega (arith, o.0), omega (arith, o.1))))

pub deallocate-keeps :
    (ptr : ℕ) (p : FixedMemPool) (m : Memory)
    → let q = (deallocate ptr p m).0 in
      (q.block_size ≡ p.block_size) × (q.block_count ≡ p.block_count) × (q.chunks ≡ p.chunks)
unfolding deallocate
deallocate-keeps ptr p m = (refl, refl, refl)

pub deallocate-AreForeign :
    (ptr : ℕ) (p q : FixedMemPool) (m : Memory)
    → AreForeign p q
    → AreForeign (deallocate ptr p m).0 q
unfolding deallocate
deallocate-AreForeign ptr p q m h = h
