-- ===== src/Base/Maps.antt =====
-- `std::map` and `std::unordered_map` as association lists: a key stands at most once.
use mathlib.Core.Path.{◌≡◌, refl}
use mathlib.Core.Option.{Option, none, some}
use mathlib.Core.List.{List, [], ◌∷◌}
use native.Mathlib.Omega.{arith}
use lfgateway.Base.Tests.{if◌then◌else◌, Bool-cases}
use mathlib.Core.Logic.{inl, inr}
use lfgateway.Base.Text.{Bytes, equal, equal_iff}

module _ {ℓ} {V : Type ℓ} where
  unfoldable pub lookup : Bytes → List (Bytes × V) → Option V
  unfolding equal
  lookup k [] = none
  lookup k ((j, v) ∷ m) = if equal j k then some v else lookup k m

  -- `m[k] = v`
  unfoldable pub insert : Bytes → V → List (Bytes × V) → List (Bytes × V)
  unfolding equal
  insert k v [] = (k, v) ∷ []
  insert k v ((j, w) ∷ m) = if equal j k then (k, v) ∷ m else (j, w) ∷ insert k v m

  -- `m.erase(k)`
  unfoldable pub erase : Bytes → List (Bytes × V) → List (Bytes × V)
  unfolding equal
  erase k [] = []
  erase k ((j, w) ∷ m) = if equal j k then m else (j, w) ∷ erase k m

  -- A key reads back what was stored under it last.
  pub lookup-insert :
      (key other : Bytes) (x : V) (es : List (Bytes × V))
      → lookup other (insert key x es) ≡ (if equal key other then some x else lookup other es)
  unfolding lookup insert
  lookup-insert key other x [] = refl
  lookup-insert key other x ((k, y) ∷ es) =
      let rest = lookup-insert key other x es in
      ground (arith, rest, equal_iff key other, equal_iff k key, equal_iff k other)

  -- Each key stands once.
  abbrev pub IsKeyed : List (Bytes × V) → Type ℓ
  IsKeyed [] = Unit
  IsKeyed ((k, x) ∷ es) = (lookup k es ≡ none) × IsKeyed es

  pub insert-IsKeyed :
      (key : Bytes) (x : V) (es : List (Bytes × V)) → IsKeyed es → IsKeyed (insert key x es)
  unfolding lookup insert
  insert-IsKeyed key x [] h = (refl, tt)
  insert-IsKeyed key x ((k, y) ∷ es) (new, h) = elim (Bool-cases (equal k key)) [
    | inl same ↦ let one : k ≡ key = (equal_iff k key).0 same in rw same (rw (← one) new, h)
    | inr other ↦ rw other (
      ground (arith, lookup-insert key k x es, equal_iff key k, equal_iff k key, new),
      insert-IsKeyed key x es h,
    )
  ]

  pub lookup-erase :
      (key other : Bytes) (es : List (Bytes × V))
      → IsKeyed es
      → lookup other (erase key es) ≡ (if equal key other then none else lookup other es)
  unfolding lookup erase
  lookup-erase key other [] h = ground arith
  lookup-erase key other ((k, y) ∷ es) (new, h) =
      let rest = lookup-erase key other es h in
      ground (arith, rest, equal_iff key other, equal_iff k key, equal_iff k other)

  pub erase-IsKeyed : (key : Bytes) (es : List (Bytes × V)) → IsKeyed es → IsKeyed (erase key es)
  unfolding lookup erase
  erase-IsKeyed key [] h = tt
  erase-IsKeyed key ((k, y) ∷ es) (new, h) = elim (Bool-cases (equal k key)) [
    | inl same ↦ rw same h
    | inr other ↦ rw other (ground (arith, lookup-erase key k es h, new), erase-IsKeyed key es h)
  ]
