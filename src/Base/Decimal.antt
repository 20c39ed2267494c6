-- ===== src/Base/Decimal.antt =====
-- `std::to_string` of a non-negative number, and the digits that `std::stoi` reads.
use Prim.Native.Nat.{ℕ, zero, suc, ◌+◌, ◌-◌, ◌*◌, ◌/◌, ◌%◌, ◌<◌}
use mathlib.Core.Path.{◌≡◌, refl, ap}
use mathlib.Core.Logic.{◌≢◌}
use mathlib.Core.Bool.{Bool, true, false, ◌&&◌}
use mathlib.Core.List.{[], ◌∷◌, ◌++◌}
use native.Mathlib.Omega.{arith}
use lfgateway.Base.Tests.{ltb, leb, if◌then◌else◌}
use lfgateway.Base.Text.{Bytes, codes, Lacks}

unfoldable pub is_digit : ℕ → Bool
is_digit c = leb b'0' c && leb c b'9'

-- The decimal digits of `n` in front of `out`; `f` bounds their number.
unfoldable pub digits_onto : ℕ → ℕ → Bytes → Bytes
digits_onto zero n out = out
digits_onto (suc f) n out =
    let c = b'0' + n % 10 in
    let rest = digits_onto f (n / 10) (c ∷ out) in if ltb n 10 then c ∷ out else rest

unfoldable pub to_string : ℕ → Bytes
unfolding digits_onto
to_string n = digits_onto (suc n) n []

-- The number that a run of digits stands for, and the run in front of a text.
unfoldable pub value_from : ℕ → Bytes → ℕ
value_from n [] = n
value_from n (c ∷ s) = value_from (n * 10 + (c - b'0')) s

unfoldable pub leading_digits : Bytes → Bytes
unfolding is_digit
leading_digits [] = []
leading_digits (c ∷ s) = if is_digit c then c ∷ leading_digits s else []

abbrev pub AreDigits : Bytes → Type 0
AreDigits [] = Unit {0}
AreDigits (c ∷ s) = (is_digit c ≡ true) × AreDigits s

-- Where the text after the digits does not begin with one.
abbrev pub NoDigit : Bytes → Type 0
NoDigit [] = Unit {0}
NoDigit (c ∷ s) = is_digit c ≡ false

pub digits_onto-AreDigits :
    (f n : ℕ) (out : Bytes) → AreDigits out → AreDigits (digits_onto f n out)
unfolding digits_onto is_digit
digits_onto-AreDigits zero n out h = h
digits_onto-AreDigits (suc f) n out h =
    ground (arith, digits_onto-AreDigits f (n / 10) ((b'0' + n % 10) ∷ out))

pub to_string-AreDigits : (n : ℕ) → AreDigits (to_string n)
unfolding to_string
to_string-AreDigits n = digits_onto-AreDigits (suc n) n [] tt

-- Reading the digits back, whatever stands behind them.
digits_onto-value :
    (f n : ℕ) (out : Bytes) → n < f → value_from 0 (digits_onto f n out) ≡ value_from n out
unfolding digits_onto value_from
digits_onto-value zero n out h = absurd (omega arith)
digits_onto-value (suc f) n out h =
    ground (arith, digits_onto-value f (n / 10) ((b'0' + n % 10) ∷ out))

pub to_string-value : (n : ℕ) → value_from 0 (to_string n) ≡ n
unfolding to_string value_from
to_string-value n = digits_onto-value (suc n) n [] (omega arith)

pub leading_digits_all :
    (s rest : Bytes) → AreDigits s → NoDigit rest → leading_digits (s ++ rest) ≡ s
unfolding leading_digits
leading_digits_all [] [] h k = refl
leading_digits_all [] (c ∷ rest) h k = rw k
leading_digits_all (c ∷ s) rest h k = rw h.0 (ap (◌∷◌ c) (leading_digits_all s rest h.1 k))

pub AreDigits-Lacks : (b : ℕ) (s : Bytes) → is_digit b ≡ false → AreDigits s → Lacks b s
AreDigits-Lacks b [] n h = tt
AreDigits-Lacks b (c ∷ s) n h = ((λ e. cc), AreDigits-Lacks b s n h.1)

digits_onto-ne-nil : (f m c : ℕ) (out : Bytes) → digits_onto f m (c ∷ out) ≢ []
unfolding digits_onto
digits_onto-ne-nil zero m c out h = cc
digits_onto-ne-nil (suc f) m c out h =
    ground (arith, digits_onto-ne-nil f (m / 10) (b'0' + m % 10) (c ∷ out))

pub to_string-ne-nil : (n : ℕ) → to_string n ≢ []
unfolding to_string
to_string-ne-nil n h = ground (arith, digits_onto-ne-nil n (n / 10) (b'0' + n % 10) [])

to_string_example : to_string 1007 ≡ codes "1007"
unfolding to_string
to_string_example = refl
