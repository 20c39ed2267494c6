-- ===== src/Gateway/Flow/Counted.antt =====
-- How often calls stand in the lists of the gateway's world.
use lfgateway.Base.{
  ℕ, ◌+◌, ◌≡◌, refl, ap, Bool, ◌&&◌, List, [], ◌∷◌, ◌++◌, map, arith, if◌then◌else◌,
}
use lfgateway.Base.Text.{Bytes, equal}
use lfgateway.Gateway.Flow.{Call, Outgoing}

same_call : Call → Call → Bool
same_call c d = equal c.0 d.0 && equal c.1 d.1

-- How often a call stands in a list.
unfoldable pub times : Call → List Call → ℕ
unfolding same_call
times c [] = 0
times c (d ∷ l) = (if same_call c d then 1 else 0) + times c l

pub times-append : (c : Call) (l m : List Call) → times c (l ++ m) ≡ times c l + times c m
unfolding times
times-append c [] m = omega arith
times-append c (d ∷ l) m = omega (arith, times-append c l m)

-- A call that is taken out of the middle.
pub times-middle :
    (c d : Call) (l m : List Call) → times c (l ++ d ∷ m) ≡ times c (l ++ m) + times c (d ∷ [])
unfolding times
times-middle c d l m = omega (arith, times-append c l (d ∷ m), times-append c l m)

abbrev pub calls : List (Call × Bytes) → List Call
calls l = map (λ a. a.0) l

abbrev pub outgoing : List (Call × Bytes) → List Outgoing
outgoing l = map (λ (a : Call × Bytes). (a.0.0, a.1)) l

pub calls-append_one :
    (l : List (Call × Bytes)) (a : Call × Bytes) → calls (l ++ a ∷ []) ≡ calls l ++ a.0 ∷ []
calls-append_one [] a = refl
calls-append_one (b ∷ l) a = ap (λ m. b.0 ∷ m) (calls-append_one l a)

pub outgoing-append_one :
    (l : List (Call × Bytes)) (a : Call × Bytes)
    → outgoing (l ++ a ∷ []) ≡ outgoing l ++ (a.0.0, a.1) ∷ []
outgoing-append_one [] a = refl
outgoing-append_one (b ∷ l) a =
    let o : Outgoing = (b.0.0, b.1) in ap (λ m. o ∷ m) (outgoing-append_one l a)
