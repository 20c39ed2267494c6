-- ===== src/Base/Int.antt =====
-- Signed integers over the native numbers, and `std::stoi`.
use Prim.Native.Nat.{ℕ, suc, ◌+◌, ◌-◌, ◌^◌, ◌≤◌, ◌<◌}
use mathlib.Core.Path.{◌≡◌, refl, ap, ◌∙◌}
use mathlib.Core.Bool.{Bool, true, false, ◌&&◌, ◌||◌}
use mathlib.Core.Logic.{◌≢◌, ◌⊎◌, inl, inr}
use mathlib.Core.List.{[], ◌∷◌, ◌++◌}
use native.Mathlib.Omega.{arith}
use lfgateway.Base.Tests.{ltb, leb, lt→ltb, ◌==◌, if◌then◌else◌}
use lfgateway.Base.Text.{Bytes, codes}
use lfgateway.Base.Decimal.{
  is_digit, to_string, value_from, leading_digits, NoDigit, AreDigits, to_string-AreDigits,
  to_string-value, to_string-ne-nil, leading_digits_all,
}

-- `negsuc n` is -(n + 1).
pub data ℤ : Type 0 where
  pos : ℕ → ℤ
  negsuc : ℕ → ℤ

abbrev pub pos_part : ℤ → ℕ
pos_part (pos n) = n
pos_part (negsuc n) = 0

abbrev pub neg_part : ℤ → ℕ
neg_part (pos n) = 0
neg_part (negsuc n) = suc n

infix 50 ◌≤ℤ◌
abbrev pub ◌≤ℤ◌ : ℤ → ℤ → Type 0
a ≤ℤ b = pos_part a + neg_part b ≤ pos_part b + neg_part a

abbrev pub leb_ℤ : ℤ → ℤ → Bool
leb_ℤ a b = leb (pos_part a + neg_part b) (pos_part b + neg_part a)

abbrev pub neg : ℕ → ℤ
neg n = if n == 0 then pos 0 else negsuc (n - 1)

-- `std::to_string`, and `%d`.
unfoldable pub print_int : ℤ → Bytes
unfolding to_string
print_int (pos n) = to_string n
print_int (negsuc n) = b'-' ∷ to_string (suc n)

pub print_int-value : (n : ℕ) → value_from 0 (print_int (pos n)) ≡ n
unfolding print_int
print_int-value n = to_string-value n

-- `static_cast<size_t>` on a 64-bit machine.
abbrev pub to_size : ℤ → ℕ
to_size (pos n) = n
to_size (negsuc n) = 2 ^ 64 - 1 - n

-- What `std::stoi` does: a value, or one of its two exceptions.
pub data Stoi : Type 0 where
  value : ℤ → Stoi
  invalid_argument out_of_range : Stoi

pub Stoi-cases :
    (r : Stoi) → ((r ≡ invalid_argument) ⊎ (r ≡ out_of_range)) ⊎ ((n : ℤ) × (r ≡ value n))
Stoi-cases (value n) = inr (n, refl)
Stoi-cases invalid_argument = inl (inl refl)
Stoi-cases out_of_range = inl (inr refl)

-- `isspace` in the "C" locale.
is_space : ℕ → Bool
is_space c = c == 32 || (leb 9 c && leb c 13)

skip_space : Bytes → Bytes
unfolding is_space
skip_space [] = []
skip_space (c ∷ s) = if is_space c then skip_space s else c ∷ s

-- The value of a non-empty run of digits under a sign, within `int`.
in_range : Bool → Bytes → Stoi
in_range minus [] = invalid_argument
in_range minus (c ∷ s) =
    let n = value_from 0 (c ∷ s) in
    if minus
    then (if leb n (2 ^ 31) then value (neg n) else out_of_range)
    else (if ltb n (2 ^ 31) then value (pos n) else out_of_range)

signed : Bytes → Stoi
signed [] = invalid_argument
signed (c ∷ s) =
    if c == b'-'
    then in_range true (leading_digits s)
    else if c == b'+'
    then in_range false (leading_digits s)
    else in_range false (leading_digits (c ∷ s))

unfoldable pub stoi : Bytes → Stoi
unfolding skip_space signed in_range leading_digits value_from is_digit
stoi s = signed (skip_space s)

stoi_digit :
    (c : ℕ) (s : Bytes) → is_digit c ≡ true → stoi (c ∷ s) ≡ in_range false (leading_digits (c ∷ s))
unfolding stoi
stoi_digit c s h = ground arith

in_range_small :
    (s : Bytes) → s ≢ [] → value_from 0 s < 2 ^ 31 → in_range false s ≡ value (pos (value_from 0 s))
unfolding in_range
in_range_small [] ne lt = absurd (ne refl)
in_range_small (c ∷ s) ne lt = rw (lt→ltb _ _ lt)

stoi_digits :
    (s rest : Bytes) → AreDigits s → s ≢ [] → NoDigit rest → stoi (s ++ rest) ≡ in_range false s
stoi_digits [] rest h ne k = absurd (ne refl)
stoi_digits (c ∷ s) rest h ne k =
    stoi_digit c (s ++ rest) h.0 ∙ ap (in_range false) (leading_digits_all (c ∷ s) rest h k)

-- `stoi` reads back what `to_string` prints, whatever stands behind the digits.
pub stoi-to_string :
    (n : ℕ) (rest : Bytes) → n < 2 ^ 31 → NoDigit rest → stoi (to_string n ++ rest) ≡ value (pos n)
stoi-to_string n rest lt k =
    stoi_digits (to_string n) rest (to_string-AreDigits n) (to_string-ne-nil n) k
    ∙ in_range_small (to_string n) (to_string-ne-nil n) (rw to_string-value lt)
    ∙ rw to_string-value

-- The values of an `int`.
abbrev pub IsInt : ℤ → Type 0
IsInt n = (pos_part n < 2 ^ 31) × (neg_part n ≤ 2 ^ 31)

in_range-IsInt : (minus : Bool) (s : Bytes) (n : ℤ) → in_range minus s ≡ value n → IsInt n
unfolding in_range
in_range-IsInt minus [] n h = absurd (ground arith)
in_range-IsInt true (c ∷ s) n h = ground arith
in_range-IsInt false (c ∷ s) n h = ground arith

signed-IsInt : (s : Bytes) (n : ℤ) → signed s ≡ value n → IsInt n
unfolding signed
signed-IsInt [] n h = absurd (ground arith)
signed-IsInt (c ∷ s) n h = ground (
  arith,
  in_range-IsInt true (leading_digits s) n,
  in_range-IsInt false (leading_digits s) n,
  in_range-IsInt false (leading_digits (c ∷ s)) n,
)

pub stoi-IsInt : (s : Bytes) (n : ℤ) → stoi s ≡ value n → IsInt n
unfolding stoi
stoi-IsInt s n h = signed-IsInt (skip_space s) n h

stoi_examples :
    (stoi (codes " -12x") ≡ value (negsuc 11))
    × (stoi (codes "x") ≡ invalid_argument)
    × (stoi (codes "2147483648") ≡ out_of_range)
unfolding stoi
stoi_examples = (refl, refl, refl)
