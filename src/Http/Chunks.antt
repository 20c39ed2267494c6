-- ===== src/Http/Chunks.antt =====
-- `parse` as a whole: it ends, and input may arrive in pieces.
use lfgateway.Base.{
  ℕ, zero, suc, ◌+◌, ◌≤◌, ◌≡◌, refl, sym, ap, ◌∙◌, ◌≢◌, ◌⊎◌, inl, inr, Bool, true, false, ◌++◌,
  arith, length, subst, length-append, append_assoc,
}
use lfgateway.Base.Text.{Bytes}
use lfgateway.Http.{
  HttpParser, Step, next, return, throw, round, run, fuel, Outcome, returned, threw, out_of_fuel,
  parse,
}
use lfgateway.Http.Rounds.{extend, Grows, round-Grows, round-fuel}

pub Step-cases :
    (r : Step)
    → ((q : HttpParser) × (r ≡ next q))
      ⊎ (((b : Bool) × (q : HttpParser) × (r ≡ return b q)) ⊎ ((q : HttpParser) × (r ≡ throw q)))
Step-cases (next q) = inl (q, refl)
Step-cases (return b q) = inr (inl (b, q, refl))
Step-cases (throw q) = inr (inr (q, refl))

run-ne-out_of_fuel : (f : ℕ) (p : HttpParser) → fuel p ≤ f → run f p ≢ out_of_fuel
unfolding run
run-ne-out_of_fuel zero p h = unfold fuel in absurd (omega arith)
run-ne-out_of_fuel (suc f) p h = elim (Step-cases (round p)) [
  | inl (q, e) ↦ rw (e, run) (run-ne-out_of_fuel f q (omega (arith, round-fuel p q e)))
  | inr (inl (b, q, e)) ↦ rw (e, run) (λ k. cc)
  | inr (inr (q, e)) ↦ rw (e, run) (λ k. cc)
]

-- The loop of `parse` ends: no call runs out of rounds, whatever the buffer holds.
pub parse-ne-out_of_fuel : (p : HttpParser) (chunk : Bytes) → parse p chunk ≢ out_of_fuel
unfolding parse
parse-ne-out_of_fuel p chunk = run-ne-out_of_fuel _ (extend p chunk) (omega arith)

-- The bound does not matter once it is large enough.
pub run_enough : (f g : ℕ) (p : HttpParser) → fuel p ≤ f → fuel p ≤ g → run f p ≡ run g p
unfolding run
run_enough zero g p h k = unfold fuel in absurd (omega arith)
run_enough (suc f) zero p h k = unfold fuel in absurd (omega arith)
run_enough (suc f) (suc g) p h k = elim (Step-cases (round p)) [
  | inl (q, e) ↦
      let less = round-fuel p q e in rw (e, run) (run_enough f g q (omega arith) (omega arith))
  | inr (inl (b, q, e)) ↦ rw (e, run)
  | inr (inr (q, e)) ↦ rw (e, run)
]

-- The next call of `parse`, on the parser that the last one left behind.
abbrev pub resume : Outcome → Bytes → Outcome
resume (returned b p) t = parse p t
resume (threw p) t = parse p t
resume out_of_fuel t = out_of_fuel

fuel-extend : (p : HttpParser) (t : Bytes) → fuel (extend p t) ≡ fuel p + length t
unfolding fuel
fuel-extend p t = omega (arith, length-append p.buffer t)

-- A round that does not go on is made again by the next call.
parse_again :
    (p : HttpParser) (t : Bytes) (f : ℕ) → fuel (extend p t) ≤ f → run f (extend p t) ≡ parse p t
unfolding parse
parse_again p t f h = run_enough f _ (extend p t) h (omega arith)

run-extend :
    (f g : ℕ) (p : HttpParser) (t : Bytes)
    → fuel p ≤ f
    → fuel (extend p t) ≤ g
    → run g (extend p t) ≡ resume (run f p) t
unfolding run
run-extend zero g p t h k = unfold fuel in absurd (omega arith)
run-extend (suc f) zero p t h k = unfold fuel in absurd (omega arith)
run-extend (suc f) (suc g) p t h k = elim (Step-cases (round p)) [
  | inl (q, e) ↦
      let grown = subst (λ r. Grows r p t) e (round-Grows p.state p t refl) in
      rw (e, grown.0, run)
        (run-extend f g q t (omega arith) (omega (arith, fuel-extend p t, fuel-extend q t)))
  | inr (inl (true, q, e)) ↦
      let grown = subst (λ r. Grows r p t) e (round-Grows p.state p t refl) in
      rw (e, run) (parse_again p t (suc g) k ∙ ap (λ r. parse r t) (sym grown.0))
  | inr (inl (false, q, e)) ↦
      let same = subst (λ r. Grows r p t) e (round-Grows p.state p t refl) in
      rw (e, run) (parse_again p t (suc g) k ∙ ap (λ r. parse r t) (sym same))
  | inr (inr (q, e)) ↦
      let grown = subst (λ r. Grows r p t) e (round-Grows p.state p t refl) in
      rw (e, run) (parse_again p t (suc g) k ∙ ap (λ r. parse r t) (sym grown.0))
]

-- How the input is cut into pieces makes no difference: parsing `a ++ b` in one call ends as the
-- call on `b` does that follows the call on `a`, with the same parser and request, whether the
-- first call asked for more, was done or threw.
pub parse-append : (p : HttpParser) (a b : Bytes) → parse p (a ++ b) ≡ resume (parse p a) b
unfolding parse
parse-append p a b =
    rw (← append_assoc p.buffer a b) (run-extend _ _ (extend p a) b (omega arith) (omega arith))
