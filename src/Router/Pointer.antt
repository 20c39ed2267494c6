-- ===== src/Router/Pointer.antt =====
-- The pointer that `Router::match` returns, into a vector that `loadFromMySQL` replaces.
use lfgateway.Base.{
  ℕ, suc, ◌≤◌, ◌<◌, ◌≡◌, refl, ap, inl, inr, Bool, true, false, ◌||◌, Option, none, some, List, [],
  ◌∷◌, if◌then◌else◌, ◌==◌, arith, get_elem?, Bool-cases, Option-cases,
}
use lfgateway.Base.Text.{Bytes}
use lfgateway.Mysql.Pool.{MysqlPool, Connect, Acquired, lent, acquire}
use lfgateway.Router.{
  Router, RouteRule, Answer, query_failed, no_result, rows, rules_of, load_with, Loaded, returned,
  threw, load_from_mysql, match, first_match, matches,
}

-- The table, with the number of the array in which its rules lie. The arrays before it are freed.
pub record Store : Type 0 where
  pub array : ℕ
  pub router : Router

-- A pointer to a rule.
pub record Pointer : Type 0 where
  pub array : ℕ
  pub index : ℕ

abbrev next_index : Option ℕ → Option ℕ
next_index none = none
next_index (some i) = some (suc i)

unfoldable pub first_index : Bytes → List RouteRule → Option ℕ
first_index path [] = none
first_index path (r ∷ rs) = if matches r path then some 0 else next_index (first_index path rs)

pointer_to : ℕ → Option ℕ → Option Pointer
pointer_to a none = none
pointer_to a (some i) = some (record { array = a; index = i })

-- `Router::match`, with the pointer that it returns.
unfoldable pub match_pointer : Store → Bytes → Option Pointer
unfolding first_index pointer_to
match_pointer s path = pointer_to s.array (first_index path s.router.rules)

-- What a read through a pointer gives; `none` if the array is freed.
unfoldable pub read_rule : Store → Pointer → Option RouteRule
read_rule s p = if p.array == s.array then get_elem? s.router.rules p.index else none

-- What a reload meets.
pub record Load : Type 0 where
  pub pool : MysqlPool
  pub code : ℕ
  pub fresh : Connect
  pub answer : Answer

replaced : Store → Loaded → Store
replaced s (returned true t p) = record { array = suc s.array; router = t }
replaced s (returned false t p) = record s { router = t }
replaced s (threw t p) = record s { router = t }

replaces : Loaded → Bool
replaces (returned ok t p) = ok
replaces (threw t p) = false

-- The store behind `loadFromMySQL`: a reload that returned true moved a new array into `rules_`, and
-- any other leaves the array with what the reload made of the table.
unfoldable pub reload : Load → Store → Store
unfolding replaced
reload l s = replaced s (load_from_mysql s.router l.pool l.code l.fresh l.answer)

unfoldable pub reloads : List Load → Store → Store
reloads [] s = s
reloads (l ∷ ls) s = reloads ls (reload l s)

-- Whether one of the reloads returned true.
unfoldable pub any_replaced : List Load → Store → Bool
unfolding replaces
any_replaced [] s = false
any_replaced (l ∷ ls) s =
    replaces (load_from_mysql s.router l.pool l.code l.fresh l.answer)
    || any_replaced ls (reload l s)

first_index-match :
    (path : Bytes) (rs : List RouteRule) (i : ℕ)
    → first_index path rs ≡ some i
    → get_elem? rs i ≡ first_match path rs
unfolding first_index first_match
first_index-match path [] i h = cc
first_index-match path (r ∷ rs) i h = elim (Bool-cases (matches r path)) [
  | inl hit ↦ let first : i ≡ 0 = ground arith in rw (hit, first) refl
  | inr miss ↦ elim (Option-cases (first_index path rs)) [
    | inl e ↦ absurd (ground arith)
    | inr (j, e) ↦
        let later : i ≡ suc j = ground arith in rw (miss, later) (first_index-match path rs j e)
  ]
]

replaced-array : (s : Store) (l : Loaded) → replaces l ≡ true → (replaced s l).array ≡ suc s.array
unfolding replaced replaces
replaced-array s (returned true t p) h = refl
replaced-array s (returned false t p) h = cc
replaced-array s (threw t p) h = cc

router_of : Loaded → Router
router_of (returned ok t p) = t
router_of (threw t p) = t

load_with-keeps :
    (t : Router) (p : MysqlPool) (c : ℕ) (answer : Answer)
    → replaces (load_with t p c answer) ≡ false
    → router_of (load_with t p c answer) ≡ t
unfolding load_with replaces router_of
load_with-keeps t p c query_failed h = refl
load_with-keeps t p c no_result h = refl
load_with-keeps t p c (rows rs) h = elim (Option-cases (rules_of rs)) [
  | inl bad ↦ rw (bad, load_with, router_of) refl
  | inr (new, good) ↦ absurd (ground arith)
]

-- A reload that returns false or throws leaves the table as it was.
load-keeps :
    (t : Router) (p : MysqlPool) (code : ℕ) (fresh : Connect) (answer : Answer) (a : Acquired)
    → acquire p code fresh ≡ a
    → replaces (load_from_mysql t p code fresh answer) ≡ false
    → router_of (load_from_mysql t p code fresh answer) ≡ t
unfolding load_from_mysql router_of
load-keeps t p code fresh answer (lent c q) e h =
    rw (e, load_from_mysql) (load_with-keeps t q c answer (rw (e, load_from_mysql) at h))
load-keeps t p code fresh answer (Acquired.threw err q) e h = rw (e, load_from_mysql) refl

replaced_same :
    (s : Store) (l : Loaded) → replaces l ≡ false → router_of l ≡ s.router → replaced s l ≡ s
unfolding replaced replaces router_of
replaced_same s (returned true t p) h e = cc
replaced_same s (returned false t p) h e = ap (λ (r : Router). record s { router = r }) e
replaced_same s (threw t p) h e = ap (λ (r : Router). record s { router = r }) e

-- The arrays only go up.
reloads-newer : (ls : List Load) (s : Store) → s.array ≤ (reloads ls s).array
unfolding reloads reload replaced
reloads-newer [] s = omega arith
reloads-newer (l ∷ ls) s = ground (arith, reloads-newer ls (reload l s))

abbrev load_of : Load → Store → Loaded
load_of l s = load_from_mysql s.router l.pool l.code l.fresh l.answer

reload-array :
    (l : Load) (s : Store) → replaces (load_of l s) ≡ true → (reload l s).array ≡ suc s.array
unfolding reload
reload-array l s h = replaced-array s (load_of l s) h

reload_same : (l : Load) (s : Store) → replaces (load_of l s) ≡ false → reload l s ≡ s
unfolding reload
reload_same l s h =
    replaced_same s (load_of l s) h
      (load-keeps s.router l.pool l.code l.fresh l.answer (acquire l.pool l.code l.fresh) refl h)

read_freed : (s : Store) (p : Pointer) → p.array < s.array → read_rule s p ≡ none
unfolding read_rule
read_freed s p h = ground arith

reloads_read :
    (ls : List Load) (s : Store) (p : Pointer)
    → p.array ≡ s.array
    → read_rule (reloads ls s) p
      ≡ (if any_replaced ls s then none else get_elem? s.router.rules p.index)
unfolding reloads any_replaced
reloads_read [] s p h = unfold read_rule in ground arith
reloads_read (l ∷ ls) s p h = elim (Bool-cases (replaces (load_of l s))) [
  | inl e ↦ rw e (
      read_freed (reloads ls (reload l s)) p
        (omega (arith, reloads-newer ls (reload l s), reload-array l s e)))
  | inr e ↦ rw (e, reload_same l s e) (reloads_read ls s p h)
]

-- A pointer that `match` returned reads the rule that was found as long as every reload since then
-- returned false or threw; behind a reload that returned true its memory is freed.
pub read_rule-reloads :
    (s : Store) (path : Bytes) (p : Pointer) (ls : List Load)
    → match_pointer s path ≡ some p
    → read_rule (reloads ls s) p ≡ (if any_replaced ls s then none else match s.router path)
unfolding match_pointer match
read_rule-reloads s path p ls h = elim (Option-cases (first_index path s.router.rules)) [
  | inl e ↦ absurd (ground arith)
  | inr (i, e) ↦
      let at : p ≡ record { array = s.array; index = i } = ground arith in
      rw (at, ← first_index-match path s.router.rules i e)
        (reloads_read ls s (record { array = s.array; index = i }) refl)
]
