-- ===== src/Pool/Memory/Shared/Keeps.antt =====
-- Every step of a client keeps the pools sound.
use mathlib.Core.List.{Mem, mem-append_left, eq-or-mem_of_mem-cons}
use mathlib.Core.HLevel.{⊥_prop}
use mathlib.Core.Logic.Or
use mathlib.Core.Option
use lfgateway.Base.Reach.{Steps-keep}
use lfgateway.Base.{
  ℕ, ◌+◌, ◌≤◌, ◌<◌, ◌≡◌, ◌≢◌, sym, ap, subst, ◌∙◌, inl, inr, Bool-cases, some, List, ◌∷◌, ◌++◌,
  arith, ◌==◌, get_elem?, set,
}
use lfgateway.Pool.Memory.{
  Memory, write, FixedMemPool, find_pool, max_block_size, allocate, deallocate,
}
use lfgateway.Pool.Memory.Ranges.{IsLaid-IsClear}
use lfgateway.Pool.Memory.Blocks.{IsOwned, Supplied, write-Chain}
use lfgateway.Pool.Memory.Owned.{allocate-IsOwned, free-IsOwned, apart}
use lfgateway.Pool.Memory.Frame.{IsOwned-agrees, write_other}
use lfgateway.Pool.Memory.Frame.Growth.{
  allocate-agrees, deallocate-agrees, allocate-AreForeign, allocate-keeps, foreign-Outside,
  deallocate-keeps, deallocate-AreForeign,
}
use lfgateway.Pool.Memory.Levels.{MemoryPool, serving_pool, allocate_at, deallocate_at}
use lfgateway.Pool.Memory.Shared.{
  World, Fresh, Step, Reach, IsSound, served, serves_found, serves_other, served-append,
  served_here, served_there, set-IsSound,
}
use lfgateway.Pool.Memory.Shared.Held.{
  held_in, held_elsewhere, held_small, held_apart, held_inside, mem-middle,
}
use lfgateway.Pool.Memory.Shared as Shared

abbrev pub after_allocate : ℕ → ℕ → ℕ → FixedMemPool → World → World
after_allocate size base i p w =
    let (b, q, n) = allocate base p w.memory in
    record { pools = set w.pools i q; memory = n; held = (b, size) ∷ w.held }

pub allocate-IsSound :
    (size base i : ℕ) (p : FixedMemPool) (w : World)
    → size ≤ max_block_size
    → Fresh base size w.pools
    → find_pool size ≡ some i
    → get_elem? w.pools i ≡ some p
    → IsSound w
    → IsSound (after_allocate size base i p w)
allocate-IsSound size base i p w h fresh found at s =
    let (b, q, n) = allocate base p w.memory in
    let own = s.owned i p at in
    let supply : p.free_list ≡ 0 → Supplied base p (served i w.held) = λ e. (
      fresh.0,
      (s.positive i p at).0,
      (s.positive i p at).1,
      foreign-Outside base p w.memory (served i w.held) (fresh.1 i i p p found at e at) own,
    ) in
    let after =
      allocate-IsOwned base (record { pool = p; memory = w.memory; held = served i w.held }) supply
        own in
    let keeps = allocate-keeps base p w.memory in
    set-IsSound w i p q n ((b, size) ∷ w.held) s at keeps.0 keeps.1
      (λ c z m o.
        Or.elim ⊥_prop (eq-or-mem_of_mem-cons m)
          (λ e. omega (arith, h, o, ap (λ (t : ℕ × ℕ). t.1) e)) (λ old. s.small c z old o))
      (rw (served_here i b size w.held (serves_found size i found)) after)
      (λ j r other place.
        let foreign = λ (e : p.free_list ≡ 0). fresh.1 i j p r found at e place in
        (
          rw (served_there j b size w.held (serves_other size i j found other)) (
              IsOwned-agrees r w.memory n (served j w.held)
                (λ x inside.
                  allocate-agrees base p r w.memory x (s.positive i p at).0 (s.positive j r place).0
                    foreign inside)
                (s.owned j r place)),
          allocate-AreForeign base p r w.memory foreign (s.foreign i j p r other at place),
        ))

abbrev after_free : ℕ → List (ℕ × ℕ) → ℕ → FixedMemPool → World → World
after_free b rest i p w =
    let (q, n) = deallocate b p w.memory in
    record { pools = set w.pools i q; memory = n; held = rest }

free-IsSound :
    (before after : List (ℕ × ℕ)) (b size i : ℕ) (p : FixedMemPool) (w : World)
    → w.held ≡ before ++ (b, size) ∷ after
    → find_pool size ≡ some i
    → get_elem? w.pools i ≡ some p
    → size ≤ p.block_size
    → IsSound w
    → IsSound (after_free b (before ++ after) i p w)
free-IsSound before after b size i p w e found at fits s =
    let (q, n) = deallocate b p w.memory in
    let own = s.owned i p at in
    let here = held_in w before after b size i e found in
    let inside =
      held_inside p w.memory (served i w.held) (served i before) (served i after) b own here in
    let back =
      free-IsOwned (record { pool = p; memory = w.memory; held = served i w.held })
        (served i before) (served i after) b here own in
    let (same_size, same_count, same_chunks) = deallocate-keeps b p w.memory in
    set-IsSound w i p q n (before ++ after) s at same_size same_count
      (λ c z m o. s.small c z (rw e (mem-middle before after (b, size) (c, z) m)) o)
      (rw (served-append i before after) back)
      (λ j r other place. (
        rw (← held_elsewhere w before after b size i j e found other) (
            IsOwned-agrees r w.memory n (served j w.held)
              (λ x h. deallocate-agrees b p w.memory x (
                held_apart w i j p r b size b x s at place other inside (omega arith)
                  (omega (arith, (s.positive i p at).0)) h))
              (s.owned j r place)),
        deallocate-AreForeign b p r w.memory (s.foreign i j p r other at place),
      ))

write-IsOwned :
    (p : FixedMemPool) (m : Memory) (held before after : List ℕ) (b a v : ℕ)
    → IsOwned p m held
    → held ≡ before ++ b ∷ after
    → b ≤ a
    → a < b + p.block_size
    → 0 < p.block_size
    → IsOwned p (write a v m) held
write-IsOwned p m held before after b a v ((l, c, d), nonnull) e low high pos =
    let clear = IsLaid-IsClear p (apart p l before after b (rw e at d)) in
    let outside : ¬ Mem a l =
      λ k. clear a (mem-append_left (before ++ after) k) (omega arith, high) in
    ((l, write-Chain a v m p.free_list l outside c, d), nonnull)

write-IsSound :
    (before after : List (ℕ × ℕ)) (b size a v i : ℕ) (p : FixedMemPool) (w : World)
    → w.held ≡ before ++ (b, size) ∷ after
    → b ≤ a
    → a < b + size
    → find_pool size ≡ some i
    → get_elem? w.pools i ≡ some p
    → size ≤ p.block_size
    → IsSound w
    → IsSound (record w { memory = write a v w.memory })
write-IsSound before after b size a v i p w e low high found at fits s =
    let here = held_in w before after b size i e found in
    let inside =
      held_inside p w.memory (served i w.held) (served i before) (served i after) b (s.owned i p at)
        here in
    record {
      sizes = s.sizes;
      small = s.small;
      positive = s.positive;
      foreign = s.foreign;
      owned = λ j q place. elim (Bool-cases (i == j)) [
        | inl same ↦
            let there : j ≡ i = ground arith in
            let alike : q ≡ p = Option.some-injective q p (sym place ∙ rw there at) in
            rw (there, alike)
              (write-IsOwned p w.memory (served i w.held) (served i before) (served i after) b a v
                (s.owned i p at) here low (omega (arith, fits)) (s.positive i p at).0)
        | inr differs ↦
            let other : i ≢ j = λ k. ground arith in
            IsOwned-agrees q w.memory (write a v w.memory) (served j w.held)
              (λ x h. write_other a v x w.memory (
                held_apart w i j p q b size a x s at place other inside low (omega (arith, fits))
                  h))
              (s.owned j q place)
      ];
    }

Step-IsSound : {u v : World} → Step u v → IsSound u → IsSound v
Step-IsSound (Shared.allocates {w} {b} {qs} {n} size base h fresh e) s =
    let (i, p, found, at, fits) = serving_pool size w.pools h s.sizes in
    let same =
      Option.some-injective _ _ (sym (allocate_at size base i p w.pools w.memory h found at) ∙ e) in
    subst
      (λ (t : ℕ × MemoryPool × Memory).
        IsSound (record { pools = t.1; memory = t.2; held = (t.0, size) ∷ w.held }))
      same (allocate-IsSound size base i p w h fresh found at s)
Step-IsSound (Shared.frees {w} {qs} {n} before after b size k e) s =
    let h = held_small w before after b size k s in
    let (i, p, found, at, fits) = serving_pool size w.pools h s.sizes in
    let same =
      Option.some-injective _ _ (sym (deallocate_at size b i p w.pools w.memory h found at) ∙ e) in
    subst
      (λ (t : MemoryPool × Memory).
        IsSound (record { pools = t.0; memory = t.1; held = before ++ after }))
      same (free-IsSound before after b size i p w k found at fits s)
Step-IsSound (Shared.writes {w} before after b size a v k low high) s =
    let h = held_small w before after b size k s in
    let (i, p, found, at, fits) = serving_pool size w.pools h s.sizes in
    write-IsSound before after b size a v i p w k low high found at fits s

pub Reach-IsSound : {u v : World} → Reach u v → IsSound u → IsSound v
Reach-IsSound r s = Steps-keep IsSound (λ u v t i. Step-IsSound t i) r s
