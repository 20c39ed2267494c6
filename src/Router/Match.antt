-- ===== src/Router/Match.antt =====
-- Which rule a path gets.
use lfgateway.Base.{
  Bool-cases, ◌≡◌, ◌≢◌, refl, ◌⊎◌, inl, inr, true, false, none, some, List, [], ◌∷◌, ◌++◌, arith,
  ap,
}
use lfgateway.Base.Text.{Bytes, starts_with, starts_with-append}
use lfgateway.Router.{RouteRule, Router, matches, first_match, match}

-- No rule of the list has a pattern that the path begins with.
abbrev pub NoneMatches : Bytes → List RouteRule → Type 0
NoneMatches path [] = Unit {0}
NoneMatches path (r ∷ rs) = ((rest : Bytes) → path ≢ r.path_pattern ++ rest) × NoneMatches path rs

-- The rule is the first one of the list, in order, whose pattern the path begins with.
pub record IsFirst (path : Bytes) (rules : List RouteRule) (r : RouteRule) : Type 0 where
  pub before : List RouteRule
  pub after : List RouteRule
  pub splits : rules ≡ before ++ r ∷ after
  pub none_before : NoneMatches path before
  pub rest : Bytes
  pub prefix : path ≡ r.path_pattern ++ rest

-- The rest of the path behind a pattern that fits.
starts_with-split : (p s : Bytes) → starts_with p s ≡ true → (rest : Bytes) × (s ≡ p ++ rest)
unfolding starts_with
starts_with-split [] s h = (s, refl)
starts_with-split (c ∷ p) [] h = cc
starts_with-split (c ∷ p) (d ∷ s) h =
    let (rest, e) = starts_with-split p s (ground arith) in (rest, ground arith)

no_match :
    (r : RouteRule) (path : Bytes)
    → matches r path ≡ false
    → (rest : Bytes) → path ≢ r.path_pattern ++ rest
unfolding matches
no_match r path h rest e = ground (arith, starts_with-append r.path_pattern rest)

IsFirst-here :
    (path : Bytes) (r : RouteRule) (rs : List RouteRule) (rest : Bytes)
    → path ≡ r.path_pattern ++ rest
    → IsFirst path (r ∷ rs) r
IsFirst-here path r rs rest e = record {
  before = [];
  after = rs;
  splits = refl;
  none_before = tt;
  rest = rest;
  prefix = e;
}

IsFirst-later :
    (path : Bytes) (r x : RouteRule) (rs : List RouteRule)
    → ((rest : Bytes) → path ≢ r.path_pattern ++ rest)
    → IsFirst path rs x
    → IsFirst path (r ∷ rs) x
IsFirst-later path r x rs miss f = record {
  before = r ∷ f.before;
  after = f.after;
  splits = ap (◌∷◌ r) f.splits;
  none_before = (miss, f.none_before);
  rest = f.rest;
  prefix = f.prefix;
}

later :
    (path : Bytes) (r : RouteRule) (rs : List RouteRule)
    → ((rest : Bytes) → path ≢ r.path_pattern ++ rest)
    → ((first_match path rs ≡ none) × NoneMatches path rs)
      ⊎ ((x : RouteRule) × (first_match path rs ≡ some x) × IsFirst path rs x)
    → ((first_match path rs ≡ none) × NoneMatches path (r ∷ rs))
      ⊎ ((x : RouteRule) × (first_match path rs ≡ some x) × IsFirst path (r ∷ rs) x)
later path r rs miss (inl (e, none_there)) = inl (e, (miss, none_there))
later path r rs miss (inr (x, e, f)) = inr (x, e, IsFirst-later path r x rs miss f)

first_match_lem :
    (path : Bytes) (rules : List RouteRule)
    → ((first_match path rules ≡ none) × NoneMatches path rules)
      ⊎ ((r : RouteRule) × (first_match path rules ≡ some r) × IsFirst path rules r)
unfolding first_match
first_match_lem path [] = inl (refl, tt)
first_match_lem path (r ∷ rs) = elim (Bool-cases (matches r path)) [
  | inl hit ↦
      let (rest, e) = starts_with-split r.path_pattern path (unfold matches in hit) in
      inr (r, rw hit, IsFirst-here path r rs rest e)
  | inr miss ↦ rw miss (later path r rs (no_match r path miss) (first_match_lem path rs))
]

-- `match` finds the first rule of the table whose pattern is a prefix of the path, and finds
-- nothing only where no rule has such a pattern.
pub match_lem :
    (t : Router) (path : Bytes)
    → ((match t path ≡ none) × NoneMatches path t.rules)
      ⊎ ((r : RouteRule) × (match t path ≡ some r) × IsFirst path t.rules r)
unfolding match
match_lem t path = first_match_lem path t.rules
