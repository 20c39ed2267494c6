-- ===== src/Pool/Memory/Ranges.antt =====
-- The byte ranges of the blocks: apart from each other, and inside the chunks.
use mathlib.Core.Bool.{Bool-set}
use mathlib.Core.HLevel.{⊥_prop}
use mathlib.Core.Logic.Or
use mathlib.Core.List.{
  Mem, Nodup, Nodup-cons, mem-cons_self, mem-cons_of_mem, eq-or-mem_of_mem-cons, Perm,
}
use mathlib.Core.List.Perm
use lfgateway.Base.{
  ℕ, ◌+◌, ◌*◌, ◌<◌, ◌≡◌, ◌≢◌, refl, sym, subst, ◌∙◌, Bool, true, false, List, [], ◌∷◌, ◌++◌, leb,
  ◌&&◌, ◌||◌, arith,
}
use lfgateway.Pool.Memory.{FixedMemPool}

-- Two blocks of `size` bytes share a byte.
abbrev pub Overlap : ℕ → ℕ → ℕ → Type 0
Overlap size a b = (a < b + size) × (b < a + size)

-- No block of the list shares a byte with the block `a`.
abbrev pub IsClear : ℕ → ℕ → List ℕ → Type 0
IsClear size a l = (b : ℕ) → Mem b l → ¬ Overlap size a b

-- The block `b` lies in one of the chunks.
abbrev pub within : ℕ → ℕ → List ℕ → ℕ → Bool
within size bytes [] b = false
within size bytes (base ∷ cs) b =
    (leb base b && leb (b + size) (base + bytes)) || within size bytes cs b

abbrev pub in_chunks : FixedMemPool → ℕ → Bool
in_chunks p b = within p.block_size (p.block_size * p.block_count) p.chunks b

-- The blocks are different, no two share a byte, and each lies in a chunk of the pool.
abbrev pub IsLaid : FixedMemPool → List ℕ → Type 0
IsLaid p l =
    Nodup l
    × ((a b : ℕ) → Mem a l → Mem b l → a ≢ b → ¬ Overlap p.block_size a b)
    × ((b : ℕ) → Mem b l → in_chunks p b ≡ true)

pub IsLaid-perm : (p : FixedMemPool) {k l : List ℕ} → Perm k l → IsLaid p k → IsLaid p l
IsLaid-perm p e (d, spread, placed) = (
  Perm.nodup e d,
  λ a b i j. spread a b (Perm.subset (Perm.symm e) a i) (Perm.subset (Perm.symm e) b j),
  λ b i. placed b (Perm.subset (Perm.symm e) b i),
)

pub IsLaid-rest : (p : FixedMemPool) (k : List ℕ) {l : List ℕ} → IsLaid p (k ++ l) → IsLaid p l
IsLaid-rest p [] h = h
IsLaid-rest p (x ∷ k) {l} (d, spread, placed) = IsLaid-rest p k (
  (Nodup-cons.0 d).1,
  λ a b i j. spread a b (mem-cons_of_mem x i) (mem-cons_of_mem x j),
  λ b i. placed b (mem-cons_of_mem x i),
)

pub IsClear-not_mem : {size a : ℕ} {l : List ℕ} → 0 < size → IsClear size a l → ¬ Mem a l
IsClear-not_mem {size} {a} pos h m = h a m (omega arith, omega arith)

-- The first block shares no byte with the others.
pub IsLaid-IsClear :
    (p : FixedMemPool) {a : ℕ} {l : List ℕ} → IsLaid p (a ∷ l) → IsClear p.block_size a l
IsLaid-IsClear p {a} {l} (d, spread, placed) b m =
    spread a b mem-cons_self (mem-cons_of_mem a m)
      (λ e. (Nodup-cons.0 d).0 (subst (λ (x : ℕ). Mem x l) (sym e) m))

pub IsLaid-cons :
    (p : FixedMemPool) {a : ℕ} {l : List ℕ}
    → 0 < p.block_size
    → IsClear p.block_size a l
    → in_chunks p a ≡ true
    → IsLaid p l
    → IsLaid p (a ∷ l)
IsLaid-cons p {a} {l} pos clear inside (d, spread, placed) = (
  Nodup-cons.1 (IsClear-not_mem pos clear, d),
  λ x y i j n o.
      Or.elim ⊥_prop (eq-or-mem_of_mem-cons i)
        (λ e.
          Or.elim ⊥_prop (eq-or-mem_of_mem-cons j) (λ f. n (e ∙ sym f))
            (λ m. clear y m (omega (arith, e, o.0), omega (arith, e, o.1))))
        (λ k.
          Or.elim ⊥_prop (eq-or-mem_of_mem-cons j)
            (λ f. clear x k (omega (arith, f, o.1), omega (arith, f, o.0)))
            (λ m. spread x y k m n o)),
  λ b i.
      Or.elim (Bool-set (in_chunks p b) true) (eq-or-mem_of_mem-cons i) (λ e. rw e inside)
        (placed b),
)

or_right : (a : Bool) {b : Bool} → b ≡ true → (a || b) ≡ true
or_right true e = refl
or_right false e = e

-- A new chunk leaves the blocks in their chunks.
pub IsLaid-grown :
    (p : FixedMemPool) (base : ℕ) {l : List ℕ}
    → IsLaid p l
    → IsLaid (record p { chunks = base ∷ p.chunks }) l
IsLaid-grown p base (d, spread, placed) = (
  d,
  spread,
  λ b i.
      or_right (leb base b && leb (b + p.block_size) (base + p.block_size * p.block_count))
        (placed b i),
)
