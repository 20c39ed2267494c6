-- ===== src/Pool/Memory/Shared.antt =====
-- `MemoryPool` with its clients: what they hold, and the pools next to one another.
pub mod Held
pub mod Keeps
pub mod Apart
pub mod Start
mod Tests
use mathlib.Core.List.{Mem}
use mathlib.Core.Option
use lfgateway.Base.Reach.{Steps}
use lfgateway.Base.{
  ℕ, zero, suc, ◌+◌, ◌≤◌, ◌<◌, ◌≡◌, ◌≢◌, refl, sym, ap, ◌∙◌, ◌⊎◌, inl, inr, Bool, true, false,
  Bool-cases, Option, none, some, List, [], ◌∷◌, ◌++◌, if◌then◌else◌, arith, ◌==◌, ==_refl,
  get_elem?, set,
}
use lfgateway.Pool.Memory.{Memory, write, FixedMemPool, find_pool, pool_sizes, max_block_size}
use lfgateway.Pool.Memory.Blocks.{IsOwned}
use lfgateway.Pool.Memory.Frame.{bytes, IsForeign, AreForeign, AreForeign-symm}
use lfgateway.Pool.Memory.Levels.{
  MemoryPool, allocate_size, deallocate_size, block_sizes, get_elem?-set,
}

-- The pools, the memory, and the blocks that were allocated and not yet given back, each with the
-- size that was asked for.
pub record World : Type 0 where
  pub pools : MemoryPool
  pub memory : Memory
  pub held : List (ℕ × ℕ)

-- The documented behaviour of `operator new`, where the pool for the size must grow: memory that
-- shares no byte with what a pool already has.
abbrev pub Fresh : ℕ → ℕ → MemoryPool → Type 0
Fresh base size ps =
    (0 < base)
    × ((i j : ℕ) (p q : FixedMemPool)
        → find_pool size ≡ some i
        → get_elem? ps i ≡ some p
        → p.free_list ≡ 0
        → get_elem? ps j ≡ some q
        → IsForeign base (bytes p) q)

-- A client asks for up to the largest block, gives a block back under the size it asked for, or
-- writes within its block.
pub data Step : World → World → Type 0 where
  allocates :
      {w : World} {b : ℕ} {qs : MemoryPool} {n : Memory} (size base : ℕ)
      → size ≤ max_block_size
      → Fresh base size w.pools
      → allocate_size size base w.pools w.memory ≡ some (b, qs, n)
      → Step w (record { pools = qs; memory = n; held = (b, size) ∷ w.held })
  frees :
      {w : World} {qs : MemoryPool} {n : Memory} (before after : List (ℕ × ℕ)) (b size : ℕ)
      → w.held ≡ before ++ (b, size) ∷ after
      → deallocate_size size b w.pools w.memory ≡ some (qs, n)
      → Step w (record { pools = qs; memory = n; held = before ++ after })
  writes :
      {w : World} (before after : List (ℕ × ℕ)) (b size a v : ℕ)
      → w.held ≡ before ++ (b, size) ∷ after
      → b ≤ a
      → a < b + size
      → Step w (record w { memory = write a v w.memory })

abbrev pub Reach : World → World → Type 0
Reach = Steps Step

-- The pool at `i` is the one for the size.
unfoldable pub serves : ℕ → ℕ → Bool
serves i size = elim (find_pool size) [ none ↦ false | some j ↦ i == j ]

-- The blocks held of the pool at `i`.
unfoldable pub served : ℕ → List (ℕ × ℕ) → List ℕ
served i [] = []
served i ((b, size) ∷ held) = let rest = served i held in if serves i size then b ∷ rest else rest

-- Each pool is sound with the blocks held of it, and no two have a common byte.
pub record IsSound (w : World) : Type 0 where
  pub sizes : block_sizes w.pools ≡ pool_sizes
  pub small : (b size : ℕ) → Mem (b, size) w.held → ¬ (max_block_size < size)
  pub positive :
      (i : ℕ) (p : FixedMemPool)
      → get_elem? w.pools i ≡ some p
      → (0 < p.block_size) × (0 < p.block_count)
  pub owned :
      (i : ℕ) (p : FixedMemPool)
      → get_elem? w.pools i ≡ some p
      → IsOwned p w.memory (served i w.held)
  pub foreign :
      (i j : ℕ) (p q : FixedMemPool)
      → i ≢ j
      → get_elem? w.pools i ≡ some p
      → get_elem? w.pools j ≡ some q
      → AreForeign p q

pub get_elem?-set_other :
    (ps : MemoryPool) (i j : ℕ) (q : FixedMemPool)
    → i ≢ j
    → get_elem? (set ps i q) j ≡ get_elem? ps j
get_elem?-set_other [] i j q h = refl
get_elem?-set_other (r ∷ ps) zero zero q h = absurd (h refl)
get_elem?-set_other (r ∷ ps) zero (suc j) q h = refl
get_elem?-set_other (r ∷ ps) (suc i) zero q h = refl
get_elem?-set_other (r ∷ ps) (suc i) (suc j) q h = get_elem?-set_other ps i j q (λ e. h (ap suc e))

pub block_sizes-set :
    (ps : MemoryPool) (i : ℕ) (p q : FixedMemPool)
    → get_elem? ps i ≡ some p
    → q.block_size ≡ p.block_size
    → block_sizes (set ps i q) ≡ block_sizes ps
block_sizes-set [] i p q h e = refl
block_sizes-set (r ∷ ps) zero p q h e = let same : r ≡ p = ground arith in rw (e, same) refl
block_sizes-set (r ∷ ps) (suc i) p q h e = ap (λ t. r.block_size ∷ t) (block_sizes-set ps i p q h e)

pub serves_found : (size i : ℕ) → find_pool size ≡ some i → serves i size ≡ true
unfolding serves
serves_found size i e = ground (arith, e)

pub serves_other : (size i j : ℕ) → find_pool size ≡ some i → i ≢ j → serves j size ≡ false
unfolding serves
serves_other size i j e h = ground (arith, e)

pub served-append : (i : ℕ) (k l : List (ℕ × ℕ)) → served i (k ++ l) ≡ served i k ++ served i l
unfolding served
served-append i [] l = refl
served-append i ((b, size) ∷ k) l = elim (Bool-cases (serves i size)) [
  | inl e ↦ rw (e, served-append i k l) refl
  | inr e ↦ rw (e, served-append i k l) refl
]

pub served_here :
    (i b size : ℕ) (l : List (ℕ × ℕ))
    → serves i size ≡ true
    → served i ((b, size) ∷ l) ≡ b ∷ served i l
unfolding served
served_here i b size l e = rw e refl

pub served_there :
    (i b size : ℕ) (l : List (ℕ × ℕ))
    → serves i size ≡ false
    → served i ((b, size) ∷ l) ≡ served i l
unfolding served
served_there i b size l e = rw e refl

-- What stands at `j` behind a change at `i`.
set-cases :
    (ps : MemoryPool) (i j : ℕ) (p q r : FixedMemPool)
    → get_elem? ps i ≡ some p
    → get_elem? (set ps i q) j ≡ some r
    → ((j ≡ i) × (r ≡ q)) ⊎ ((i ≢ j) × (get_elem? ps j ≡ some r))
set-cases ps i j p q r at h = elim (Bool-cases (i == j)) [
  | inl e ↦
      let here : j ≡ i = ground arith in
      inl (here, Option.some-injective r q (sym h ∙ rw here (get_elem?-set ps i p q at)))
  | inr e ↦
      let other : i ≢ j = λ k. ground arith in
      inr (other, sym (get_elem?-set_other ps i j q other) ∙ h)
]

-- One pool takes another's place in the vector.
pub set-IsSound :
    (w : World) (i : ℕ) (p q : FixedMemPool) (n : Memory) (held : List (ℕ × ℕ))
    → IsSound w
    → get_elem? w.pools i ≡ some p
    → q.block_size ≡ p.block_size
    → q.block_count ≡ p.block_count
    → ((b size : ℕ) → Mem (b, size) held → ¬ (max_block_size < size))
    → IsOwned q n (served i held)
    → ((j : ℕ) (r : FixedMemPool)
        → i ≢ j
        → get_elem? w.pools j ≡ some r
        → IsOwned r n (served j held) × AreForeign q r)
    → IsSound (record { pools = set w.pools i q; memory = n; held = held })
set-IsSound w i p q n held s at same_size same_count small own others = record {
  sizes = block_sizes-set w.pools i p q at same_size ∙ s.sizes;
  small = small;
  positive = λ j r h. elim (set-cases w.pools i j p q r at h) [
    | inl (here, e) ↦ rw (e, same_size, same_count) (s.positive i p at)
    | inr (other, old) ↦ s.positive j r old
  ];
  owned = λ j r h. elim (set-cases w.pools i j p q r at h) [
    | inl (here, e) ↦ rw (e, here) own
    | inr (other, old) ↦ (others j r other old).0
  ];
  foreign = λ j k r t n h g. elim (set-cases w.pools i j p q r at h) [
    | inl (here, e) ↦ elim (set-cases w.pools i k p q t at g) [
      | inl (there, f) ↦ absurd (n (here ∙ sym there))
      | inr (other, old) ↦ rw e (others k t other old).1
    ]
    | inr (other, old) ↦ elim (set-cases w.pools i k p q t at g) [
      | inl (there, f) ↦ AreForeign-symm t r (rw f (others j r other old).1)
      | inr (apart, before) ↦ s.foreign j k r t n old before
    ]
  ];
}
