-- ===== src/Pool/Memory/Frame.antt =====
-- Two pools side by side: what one does to its blocks leaves the other's free list as it is.
pub mod Growth
use mathlib.Core.List.{
  Mem, not-mem-nil, mem-cons_self, mem-cons_of_mem, mem-append_left, mem-append_right,
  eq-or-mem_of_mem-cons,
}
use mathlib.Core.HLevel.{⊥_prop}
use mathlib.Core.Logic.Or
use lfgateway.Base.{
  ℕ, zero, suc, ◌+◌, ◌*◌, ◌≤◌, ◌<◌, ◌≡◌, ◌≢◌, refl, ◌∙◌, inl, inr, Bool, true, false, List, [], ◌∷◌,
  ◌++◌, leb, ◌&&◌, ◌||◌, arith, ◌==◌, Bool-cases,
}
use lfgateway.Pool.Memory.{
  Memory, write, FixedMemPool, link, allocate_chunk, allocate, deallocate, fixed_mem_pool,
}
use lfgateway.Pool.Memory.Ranges.{within, in_chunks}
use lfgateway.Pool.Memory.Blocks.{Chain, in_chunk, Outside, IsOwned}

abbrev pub bytes : FixedMemPool → ℕ
bytes p = p.block_size * p.block_count

-- The `n` bytes at `a` share one with the `k` bytes at `b`.
abbrev pub Meets : ℕ → ℕ → ℕ → ℕ → Type 0
Meets a n b k = (a < b + k) × (b < a + n)

-- The `n` bytes at `a` share none with a chunk of the pool.
abbrev pub IsForeign : ℕ → ℕ → FixedMemPool → Type 0
IsForeign a n q = (d : ℕ) → Mem d q.chunks → ¬ Meets a n d (bytes q)

pub within-cases :
    (size n : ℕ) (cs : List ℕ) (b : ℕ)
    → within size n cs b ≡ true
    → ((c : ℕ) → Mem c cs → c ≤ b → b + size ≤ c + n → ⊥)
    → ⊥
within-cases size n [] b h k = absurd (ground arith)
within-cases size n (c ∷ cs) b h k = elim (Bool-cases (leb c b && leb (b + size) (c + n))) [
  | inl e ↦ k c mem-cons_self (ground arith) (ground arith)
  | inr e ↦ within-cases size n cs b (ground arith) (λ d m. k d (mem-cons_of_mem c m))
]

-- A block in foreign bytes shares none with a block of the pool.
pub IsForeign-block :
    (a n x size b : ℕ) (q : FixedMemPool)
    → IsForeign a n q
    → a ≤ x
    → x + size ≤ a + n
    → in_chunks q b ≡ true
    → ¬ Meets x size b q.block_size
IsForeign-block a n x size b q f low high h o =
    within-cases q.block_size (bytes q) q.chunks b h
      (λ c m le end. f c m (omega (arith, o.0), omega (arith, o.1)))

-- Two pools without a common byte.
abbrev pub AreForeign : FixedMemPool → FixedMemPool → Type 0
AreForeign p q = (c : ℕ) → Mem c p.chunks → IsForeign c (bytes p) q

pub AreForeign-blocks :
    (p q : FixedMemPool) (a b : ℕ)
    → AreForeign p q
    → in_chunks p a ≡ true
    → in_chunks q b ≡ true
    → ¬ Meets a p.block_size b q.block_size
AreForeign-blocks p q a b f h k o =
    within-cases p.block_size (bytes p) p.chunks a h
      (λ c m le end. IsForeign-block c (bytes p) a p.block_size b q (f c m) le end k o)

Chain-agrees :
    (m n : Memory) (head : ℕ) (l : List ℕ)
    → ((b : ℕ) → Mem b l → n b ≡ m b)
    → Chain m head l
    → Chain n head l
Chain-agrees m n head [] same c = c
Chain-agrees m n head (b ∷ l) same (e, nonnull, c) = (
  e,
  nonnull,
  rw (same b mem-cons_self) (Chain-agrees m n (m b) l (λ x k. same x (mem-cons_of_mem b k)) c),
)

-- A memory that agrees on the blocks of a pool.
pub IsOwned-agrees :
    (q : FixedMemPool) (m n : Memory) (held : List ℕ)
    → ((b : ℕ) → in_chunks q b ≡ true → n b ≡ m b)
    → IsOwned q m held
    → IsOwned q n held
IsOwned-agrees q m n held same ((l, c, d), nonnull) = (
  (l, Chain-agrees m n q.free_list l (λ b k. same b (d.2 b (mem-append_left held k))) c, d),
  nonnull,
)

pub write_other : (a v b : ℕ) (m : Memory) → b ≢ a → write a v m b ≡ m b
write_other a v b m h = ground arith

pub AreForeign-symm : (p q : FixedMemPool) → AreForeign p q → AreForeign q p
AreForeign-symm p q f d k c m o = f c m d k (o.1, o.0)
