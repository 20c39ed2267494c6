-- ===== src/Pool/Memory/Shared/Held.antt =====
-- The blocks that clients hold, in the pools that they came from.
use mathlib.Core.List.{
  Mem, mem-append, mem-append_left, mem-append_right, mem-cons_self, mem-cons_of_mem, Mem-prop,
}
use mathlib.Core.Logic.Or
use lfgateway.Base.{
  ℕ, ◌+◌, ◌≤◌, ◌<◌, ◌≡◌, ◌≢◌, sym, ap, ◌∙◌, true, some, List, ◌∷◌, ◌++◌, arith, get_elem?,
}
use lfgateway.Pool.Memory.{Memory, FixedMemPool, find_pool, max_block_size}
use lfgateway.Pool.Memory.Ranges.{in_chunks}
use lfgateway.Pool.Memory.Blocks.{IsOwned}
use lfgateway.Pool.Memory.Frame.{AreForeign-blocks}
use lfgateway.Pool.Memory.Shared.{
  World, IsSound, served, serves_found, serves_other, served-append, served_here, served_there,
}

-- The block that a client holds, in the pool that it came from.
pub held_in :
    (w : World) (before after : List (ℕ × ℕ)) (b size i : ℕ)
    → w.held ≡ before ++ (b, size) ∷ after
    → find_pool size ≡ some i
    → served i w.held ≡ served i before ++ b ∷ served i after
held_in w before after b size i e found =
    ap (served i) e
    ∙ served-append i before ((b, size) ∷ after)
    ∙ ap (λ t. served i before ++ t) (served_here i b size after (serves_found size i found))

pub held_elsewhere :
    (w : World) (before after : List (ℕ × ℕ)) (b size i j : ℕ)
    → w.held ≡ before ++ (b, size) ∷ after
    → find_pool size ≡ some i
    → i ≢ j
    → served j w.held ≡ served j (before ++ after)
held_elsewhere w before after b size i j e found other =
    ap (served j) e
    ∙ served-append j before ((b, size) ∷ after)
    ∙ ap (λ t. served j before ++ t)
        (served_there j b size after (serves_other size i j found other))
    ∙ sym (served-append j before after)

pub held_small :
    (w : World) (before after : List (ℕ × ℕ)) (b size : ℕ)
    → w.held ≡ before ++ (b, size) ∷ after
    → IsSound w
    → size ≤ max_block_size
held_small w before after b size e s =
    let no = s.small b size (rw e (mem-append_right before mem-cons_self)) in ground (arith, no)

-- A byte of a held block is not where a block of another pool begins.
pub held_apart :
    (w : World) (i j : ℕ) (p q : FixedMemPool) (b size a x : ℕ)
    → IsSound w
    → get_elem? w.pools i ≡ some p
    → get_elem? w.pools j ≡ some q
    → i ≢ j
    → in_chunks p b ≡ true
    → b ≤ a
    → a < b + p.block_size
    → in_chunks q x ≡ true
    → x ≢ a
held_apart w i j p q b size a x s at place other inside low high h e =
    AreForeign-blocks p q b x (s.foreign i j p q other at place) inside h
      (omega (arith, e, (s.positive j q place).0), omega (arith, e))

pub held_inside :
    (p : FixedMemPool) (m : Memory) (held before after : List ℕ) (b : ℕ)
    → IsOwned p m held
    → held ≡ before ++ b ∷ after
    → in_chunks p b ≡ true
held_inside p m held before after b ((l, c, d), nonnull) e =
    d.2 b (mem-append_right l (rw e (mem-append_right before mem-cons_self)))

pub mem-middle :
    (before after : List (ℕ × ℕ)) (x y : ℕ × ℕ)
    → Mem y (before ++ after)
    → Mem y (before ++ x ∷ after)
mem-middle before after x y m =
    Or.elim Mem-prop (mem-append.0 m) (mem-append_left (x ∷ after))
      (λ k. mem-append_right before (mem-cons_of_mem x k))
