-- ===== src/Pool/Memory/Shared/Apart.antt =====
-- Clients of `MemoryPool` never share a byte.
use mathlib.Core.List.{
  Mem, Mem-prop, not-mem-nil, mem-append_right, mem-cons_self, mem-cons_of_mem,
  eq-or-mem_of_mem-cons,
}
use mathlib.Core.Logic.Or
use mathlib.Core.Option
use lfgateway.Base.{
  ℕ, ◌≤◌, ◌≡◌, ◌≢◌, sym, ap, subst, ◌∙◌, inl, inr, true, Bool-cases, some, List, [], ◌∷◌, arith,
  ◌==◌, get_elem?, set, length,
}
use lfgateway.Pool.Memory.{Memory, FixedMemPool, find_pool, max_block_size, pool_sizes, allocate}
use lfgateway.Pool.Memory.Ranges.{in_chunks, IsClear, IsLaid-IsClear, IsLaid-rest}
use lfgateway.Pool.Memory.Blocks.{IsOwned}
use lfgateway.Pool.Memory.Frame.{Meets, AreForeign-blocks}
use lfgateway.Pool.Memory.Frame.Growth.{allocate-keeps}
use lfgateway.Pool.Memory.Levels.{
  MemoryPool, allocate_size, serving_pool, allocate_at, get_elem?-set,
}
use lfgateway.Pool.Memory.Shared.{
  World, Fresh, Reach, IsSound, served, serves, serves_found, served_here, served_there,
  get_elem?-set_other,
}
use lfgateway.Pool.Memory.Shared.Start.{AreSpaced, constructed, construct-IsSound}
use lfgateway.Pool.Memory.Shared.Keeps.{after_allocate, allocate-IsSound, Reach-IsSound}

served-mem :
    (i c z : ℕ) (held : List (ℕ × ℕ)) → serves i z ≡ true → Mem (c, z) held → Mem c (served i held)
served-mem i c z [] s m = absurd (not-mem-nil m)
served-mem i c z ((b, size) ∷ held) s m =
    Or.elim Mem-prop (eq-or-mem_of_mem-cons m)
      (λ e.
        let here = served_here i c z held s in
        subst (λ (t : ℕ × ℕ). Mem c (served i (t ∷ held))) e (rw here mem-cons_self))
      (λ old. elim (Bool-cases (serves i size)) [
        | inl e ↦ rw (served_here i b size held e) (mem-cons_of_mem b (served-mem i c z held s old))
        | inr e ↦ rw (served_there i b size held e) (served-mem i c z held s old)
      ])

block_inside :
    (p : FixedMemPool) (m : Memory) (held : List ℕ) (b : ℕ)
    → IsOwned p m held
    → Mem b held
    → in_chunks p b ≡ true
block_inside p m held b ((l, c, d), nonnull) k = d.2 b (mem-append_right l k)

newest-IsClear :
    (p : FixedMemPool) (m : Memory) (held : List ℕ) (b : ℕ)
    → IsOwned p m (b ∷ held)
    → IsClear p.block_size b held
newest-IsClear p m held b ((l, c, d), nonnull) = IsLaid-IsClear p (IsLaid-rest p l d)

newest_owned :
    (w : World) (size base i : ℕ) (p : FixedMemPool)
    → find_pool size ≡ some i
    → get_elem? w.pools i ≡ some p
    → IsSound (after_allocate size base i p w)
    → let (b, q, n) = allocate base p w.memory in IsOwned q n (b ∷ served i w.held)
newest_owned w size base i p found at t =
    let (b, q, n) = allocate base p w.memory in
    subst (IsOwned q n) (served_here i b size w.held (serves_found size i found))
      (t.owned i q (get_elem?-set w.pools i p q at))

-- The newest block against one that was held before.
newest_apart :
    (w : World) (size base i c z : ℕ) (p : FixedMemPool)
    → find_pool size ≡ some i
    → get_elem? w.pools i ≡ some p
    → size ≤ p.block_size
    → IsSound w
    → IsSound (after_allocate size base i p w)
    → Mem (c, z) w.held
    → ¬ Meets (allocate base p w.memory).0 size c z
newest_apart w size base i c z p found at fits s t m o =
    let (b, q, n) = allocate base p w.memory in
    let same = (allocate-keeps base p w.memory).0 in
    let small : z ≤ max_block_size = (let h = s.small c z m in ground (arith, h)) in
    let (j, r, there, place, room) = serving_pool z w.pools small s.sizes in
    let in_r : Mem c (served j w.held) = served-mem j c z w.held (serves_found z j there) m in
    let new_place = get_elem?-set w.pools i p q at in
    let own = newest_owned w size base i p found at t in
    elim (Bool-cases (i == j)) [
      | inl e ↦
          let here : j ≡ i = ground arith in
          let alike : r ≡ p = Option.some-injective r p (sym place ∙ rw here at) in
          newest-IsClear q n (served i w.held) b own c (rw here at in_r) (
            omega (arith, o.0, room, same, ap (λ (x : FixedMemPool). x.block_size) alike),
            omega (arith, o.1, fits, same),
          )
      | inr e ↦
          let other : i ≢ j = λ k. ground arith in
          AreForeign-blocks q r b c
            (t.foreign i j q r other new_place (rw (get_elem?-set_other w.pools i j q other) place))
            (block_inside q n (b ∷ served i w.held) b own mem-cons_self)
            (block_inside r w.memory (served j w.held) c (s.owned j r place) in_r)
            (omega (arith, o.0, room), omega (arith, o.1, fits, same))
    ]

-- A client that asks for up to 4096 bytes gets them, and shares them with nobody: whatever the clients
-- of the constructor's `MemoryPool` allocated, gave back under the size they had asked for, and wrote
-- within their blocks, `allocate` returns a block that is not null, and none of the bytes asked for
-- belongs to a block that is held, also one of another size, if `operator new` gives memory that
-- shares no byte with what the pools already have, to each pool in the constructor and to one that
-- must grow.
pub allocate_size-apart :
    (bases : List ℕ) (m : Memory) {w : World} (size base : ℕ)
    → length pool_sizes ≤ length bases
    → AreSpaced pool_sizes bases
    → Reach (constructed bases m) w
    → size ≤ max_block_size
    → Fresh base size w.pools
    → (b : ℕ) × (qs : MemoryPool) × (n : Memory) × (allocate_size size base w.pools w.memory
        ≡ some (b, qs, n))
      × (b ≢ 0)
      × ((c z : ℕ) → Mem (c, z) w.held → ¬ Meets b size c z)
allocate_size-apart bases m {w} size base enough spaced r h fresh =
    let s = Reach-IsSound r (construct-IsSound bases m enough spaced) in
    let (i, p, found, at, fits) = serving_pool size w.pools h s.sizes in
    let (b, q, n) = allocate base p w.memory in
    let t = allocate-IsSound size base i p w h fresh found at s in
    (
      b,
      set w.pools i q,
      n,
      allocate_at size base i p w.pools w.memory h found at,
      (newest_owned w size base i p found at t).1.0,
      λ c z m. newest_apart w size base i c z p found at fits s t m,
    )
