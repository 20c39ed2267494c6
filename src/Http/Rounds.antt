-- ===== src/Http/Rounds.antt =====
-- One round of the parser's loop, alone and with more input behind its buffer.
use lfgateway.Base.{
  ℕ, ◌+◌, ◌≤◌, ◌<◌, ◌≡◌, refl, inl, inr, true, false, some, [], ◌∷◌, ◌++◌, arith, length, take,
  drop, length-drop, take-append, Option-cases, Bool-cases, subst, length-append, drop-append,
}
use lfgateway.Base.Text.{Bytes, codes, equal, find, find_bound, find-append}
use lfgateway.Base.Int.{stoi, to_size, Stoi-cases}
use lfgateway.Base.Maps.{lookup}
use lfgateway.Http.{
  HttpParser, State, method, path, version, header, body, done, Step, next, return, throw, crlf,
  round, fuel,
}

-- More input behind the buffer.
abbrev pub extend : HttpParser → Bytes → HttpParser
extend p t = record p { buffer = p.buffer ++ t }

-- What a round did is done as well where more input stands behind the buffer.
abbrev pub Grows : Step → HttpParser → Bytes → Type 0
Grows (next q) p t = (round (extend p t) ≡ next (extend q t)) × (fuel q < fuel p)
Grows (return true q) p t = (q ≡ p) × (round (extend p t) ≡ return true (extend p t))
Grows (return false q) p t = q ≡ p
Grows (throw q) p t = (q ≡ p) × (round (extend p t) ≡ throw (extend p t))

-- The facts about a match at `n` of a separator of `k` bytes.
abbrev Cuts : Bytes → Bytes → Bytes → ℕ → ℕ → Type 0
Cuts sep b t k n =
    (find sep (b ++ t) ≡ some n)
    × (n + k ≤ length b)
    × (take n (b ++ t) ≡ take n b)
    × (drop (n + k) (b ++ t) ≡ drop (n + k) b ++ t)
    × (length (drop (n + k) b) + (n + k) ≡ length b)

cut : (sep b t : Bytes) (n : ℕ) → find sep b ≡ some n → Cuts sep b t (length sep) n
cut sep b t n h =
    let bound = find_bound sep b n h in
    (
      find-append sep b t n h,
      bound,
      take-append n b t (omega arith),
      drop-append (n + length sep) b t bound,
      omega (arith, length-drop (n + length sep) b),
    )

method-Grows : (p : HttpParser) (t : Bytes) → p.state ≡ method → Grows (round p) p t
unfolding round fuel
method-Grows p t e = elim (Option-cases (find (b' ' ∷ []) p.buffer)) [
  | inl h ↦ ground arith
  | inr (n, h) ↦ ground (arith, cut (b' ' ∷ []) p.buffer t n h)
]

path-Grows : (p : HttpParser) (t : Bytes) → p.state ≡ path → Grows (round p) p t
unfolding round fuel
path-Grows p t e = elim (Option-cases (find (b' ' ∷ []) p.buffer)) [
  | inl h ↦ ground arith
  | inr (n, h) ↦ ground (arith, cut (b' ' ∷ []) p.buffer t n h)
]

version-Grows : (p : HttpParser) (t : Bytes) → p.state ≡ version → Grows (round p) p t
unfolding round fuel
version-Grows p t e = elim (Option-cases (find crlf p.buffer)) [
  | inl h ↦ ground arith
  | inr (n, h) ↦ ground (arith, cut crlf p.buffer t n h)
]

equal-take : (b : Bytes) → equal (take 2 b) crlf ≡ true → 2 ≤ length b
unfolding equal
equal-take [] h = cc
equal-take (x ∷ []) h = ground arith
equal-take (x ∷ y ∷ b) h = omega arith

header-Grows : (p : HttpParser) (t : Bytes) → p.state ≡ header → Grows (round p) p t
unfolding round fuel
header-Grows p t e = elim (Bool-cases (equal (take 2 p.buffer) crlf)) [
  | inl h ↦
      let two = equal-take p.buffer h in
      ground
        (arith, take-append 2 p.buffer t two, drop-append 2 p.buffer t two, length-drop 2 p.buffer)
  | inr h ↦ elim (Option-cases (find crlf p.buffer)) [
    | inl k ↦ ground arith
    | inr (n, k) ↦ ground (arith, cut crlf p.buffer t n k, take-append 2 p.buffer t)
  ]
]

body-Grows : (p : HttpParser) (t : Bytes) → p.state ≡ body → Grows (round p) p t
unfolding round fuel
body-Grows p t e = elim (Option-cases (lookup (codes "Content-Length") p.req.headers)) [
  | inl h ↦ ground arith
  | inr (v, h) ↦ elim (Stoi-cases (stoi v)) [
    | inl k ↦ ground arith
    | inr (n, k) ↦ ground (
      arith,
      take-append (to_size n) p.buffer t,
      drop-append (to_size n) p.buffer t,
      length-drop (to_size n) p.buffer,
      length-append p.buffer t,
    )
  ]
]

pub round-Grows : (s : State) (p : HttpParser) (t : Bytes) → p.state ≡ s → Grows (round p) p t
unfolding round fuel
round-Grows method p t e = method-Grows p t e
round-Grows path p t e = path-Grows p t e
round-Grows version p t e = version-Grows p t e
round-Grows header p t e = header-Grows p t e
round-Grows body p t e = body-Grows p t e
round-Grows done p t e = ground arith

-- Every round that goes on uses up some of the bound.
pub round-fuel : (p q : HttpParser) → round p ≡ next q → fuel q < fuel p
round-fuel p q h = (subst (λ r. Grows r p []) h (round-Grows p.state p [] refl)).1
