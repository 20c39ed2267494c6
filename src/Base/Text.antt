-- ===== src/Base/Text.antt =====
-- `std::string` as a list of bytes, with the members of it that the program calls.
use Prim.Native.Char.{code}
use Prim.Native.String.{String}
use mathlib.Core.Option
use lfgateway.Base.Tests.{◌==◌, if◌then◌else◌}
use lfgateway.Base.Lists.{length}
use Prim.Native.Nat.{ℕ, suc, ◌+◌, ◌-◌, ◌≤◌}
use mathlib.Core.Path.{◌≡◌, refl, ap, ◌∙◌}
use mathlib.Core.Logic.{◌≢◌, ◌↔◌}
use mathlib.Core.Bool.{Bool, true, false, ◌&&◌}
use mathlib.Core.Option.{Option, none, some}
use mathlib.Core.List.{List, [], ◌∷◌, ◌++◌}
use native.Mathlib.Omega.{arith}

abbrev pub Bytes : Type 0
Bytes = List ℕ

-- The bytes of an ASCII literal.
abbrev pub codes : String → Bytes
codes String.[] = []
codes (String.◌∷◌ c s) = code c ∷ codes s

-- `operator==`
abbrev pub is_nil : Bytes → Bool
is_nil [] = true
is_nil (c ∷ s) = false

-- `==` on strings.
unfoldable pub equal : Bytes → Bytes → Bool
equal [] t = is_nil t
equal (c ∷ s) [] = false
equal (c ∷ s) (d ∷ t) = if c == d then equal s t else false

pub equal_iff : (s t : Bytes) → (equal s t ≡ true) ↔ (s ≡ t)
unfolding equal
equal_iff [] [] = ground arith
equal_iff [] (d ∷ t) = ground arith
equal_iff (c ∷ s) [] = ground arith
equal_iff (c ∷ s) (d ∷ t) = ground (arith, equal_iff s t)

pub equal_refl : (a : Bytes) → equal a a ≡ true
equal_refl a = (equal_iff a a).1 refl

-- `s.compare(0, p.size(), p) == 0`, which is also what `s.find(p) == 0` tests.
unfoldable pub starts_with : Bytes → Bytes → Bool
starts_with [] s = true
starts_with (p ∷ ps) [] = false
starts_with (p ∷ ps) (c ∷ s) = p == c && starts_with ps s

-- `s.find(p)`; `none` is `npos`.
unfoldable pub find : Bytes → Bytes → Option ℕ
unfolding starts_with
find p [] = if starts_with p [] then some 0 else none
find p (c ∷ s) = if starts_with p (c ∷ s) then some 0 else Option.map suc (find p s)

-- The first position at which a test holds, for `find_first_of` and `find_first_not_of`.
unfoldable pub find_if : (ℕ → Bool) → Bytes → Option ℕ
find_if t [] = none
find_if t (c ∷ s) = if t c then some 0 else Option.map suc (find_if t s)

-- The text does not hold the byte.
abbrev pub Lacks : ℕ → Bytes → Type 0
Lacks b [] = Unit {0}
Lacks b (c ∷ s) = (c ≢ b) × Lacks b s

pub starts_with-append : (p s : Bytes) → starts_with p (p ++ s) ≡ true
unfolding starts_with
starts_with-append [] s = refl
starts_with-append (c ∷ p) s = ground (arith, starts_with-append p s)

-- A text that is long enough decides the test.
pub starts_with_long :
    (p s t : Bytes) → length p ≤ length s → starts_with p (s ++ t) ≡ starts_with p s
unfolding starts_with
starts_with_long [] s t h = refl
starts_with_long (c ∷ p) [] t h = absurd (omega arith)
starts_with_long (c ∷ p) (d ∷ s) t h = ap (◌&&◌ (c == d)) (starts_with_long p s t (omega arith))

pub starts_with-le : (p s : Bytes) → starts_with p s ≡ true → length p ≤ length s
unfolding starts_with
starts_with-le [] s h = omega arith
starts_with-le (c ∷ p) [] h = ground arith
starts_with-le (c ∷ p) (d ∷ s) h = ground (arith, starts_with-le p s)

-- The match lies inside the text.
pub find_bound : (p s : Bytes) (n : ℕ) → find p s ≡ some n → n + length p ≤ length s
unfolding find
find_bound p [] n h = ground (arith, starts_with-le p [])
find_bound p (c ∷ s) n h = ground (arith, starts_with-le p (c ∷ s), find_bound p s (n - 1))

find_nil : (t : Bytes) → find [] t ≡ some 0
unfolding find
find_nil [] = refl
find_nil (c ∷ t) = refl

-- More input behind a match does not move it.
pub find-append : (p s t : Bytes) (n : ℕ) → find p s ≡ some n → find p (s ++ t) ≡ some n
unfolding find
find-append [] [] t n h = find_nil t ∙ h
find-append (d ∷ p) [] t n h = cc
find-append p (c ∷ s) t n h = ground (
  arith,
  starts_with-le p (c ∷ s),
  starts_with_long p (c ∷ s) t,
  find_bound p s (n - 1),
  find-append p s t (n - 1),
)

pub find-Lacks : (b : ℕ) (s t : Bytes) → Lacks b s → find (b ∷ []) (s ++ b ∷ t) ≡ some (length s)
unfolding find starts_with
find-Lacks b [] t h = ground arith
find-Lacks b (c ∷ s) t h = ground (arith, find-Lacks b s t h.1)

pub Lacks-append : (b : ℕ) (s t : Bytes) → Lacks b s → Lacks b t → Lacks b (s ++ t)
Lacks-append b [] t h k = k
Lacks-append b (c ∷ s) t h k = (h.0, Lacks-append b s t h.1 k)

-- A separator of two bytes, whose first is not in the text before it.
pub find-Lacks_two :
    (b d : ℕ) (s t : Bytes) → Lacks b s → find (b ∷ d ∷ []) (s ++ b ∷ d ∷ t) ≡ some (length s)
unfolding find starts_with
find-Lacks_two b d [] t h = ground arith
find-Lacks_two b d (c ∷ s) t h = ground (arith, find-Lacks_two b d s t h.1)
