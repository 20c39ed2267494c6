-- ===== src/Router.antt =====
-- gateway/include/router.h and gateway/src/router.cpp: the table of routes and its reload.
pub mod Match
pub mod Load
pub mod Pointer
mod Tests
use lfgateway.Base.{
  ℕ, ◌+◌, Bool, true, false, not, Option, none, some, List, [], ◌∷◌, ◌++◌, if◌then◌else◌, ◌==◌,
}
use lfgateway.Base.Text.{Bytes, starts_with}
use lfgateway.Base.Int.{ℤ, pos, negsuc, Stoi, value, invalid_argument, out_of_range, stoi}
use lfgateway.Mysql.Pool.{MysqlPool, Connect, Acquired, lent, acquire, release}
use lfgateway.Mysql.Pool

pub record RouteRule : Type 0 where
  pub id : ℤ
  pub path_pattern : Bytes
  pub target_host : Bytes
  pub target_port : ℤ
  pub need_auth : Bool
  pub rate_limit : ℤ

-- `RouteRule::match`
unfoldable pub matches : RouteRule → Bytes → Bool
matches r path = starts_with r.path_pattern path

pub record Router : Type 0 where
  pub rules : List RouteRule

-- The loop of `Router::match`; the code returns a pointer into `rules_`.
unfoldable pub first_match : Bytes → List RouteRule → Option RouteRule
first_match path [] = none
first_match path (r ∷ rs) = if matches r path then some r else first_match path rs

unfoldable pub match : Router → Bytes → Option RouteRule
match t path = first_match path t.rules

-- A row of the SELECT: six columns, each of which may be NULL.
pub record Row : Type 0 where
  pub id : Option Bytes
  pub path_pattern : Option Bytes
  pub target_host : Option Bytes
  pub target_port : Option Bytes
  pub need_auth : Option Bytes
  pub rate_limit : Option Bytes

-- What the query and `mysql_store_result` gave.
pub data Answer : Type 0 where
  query_failed no_result : Answer
  rows : List Row → Answer

abbrev pub text_or_empty : Option Bytes → Bytes
text_or_empty none = []
text_or_empty (some s) = s

-- `row[i] ? std::stoi(row[i]) : 0`
unfoldable pub int_or_zero : Option Bytes → Stoi
int_or_zero none = value (pos 0)
int_or_zero (some s) = stoi s

abbrev pub is_nonzero : ℤ → Bool
is_nonzero (pos n) = not (n == 0)
is_nonzero (negsuc n) = true

-- `none` where `stoi` throws.
abbrev pub and_then {ℓ} : {A : Type ℓ} → Stoi → (ℤ → Option A) → Option A
and_then (value n) f = f n
and_then invalid_argument f = none
and_then out_of_range f = none

abbrev auth_of : Option Bytes → Stoi
auth_of none = value (pos 1)
auth_of (some s) = stoi s

unfoldable pub rule_of : Row → Option RouteRule
rule_of row = and_then (int_or_zero row.id) λ id. and_then (int_or_zero row.target_port) λ port.
    and_then (auth_of row.need_auth) λ auth. and_then (int_or_zero row.rate_limit) λ limit.
      some (record {
        id = id;
        path_pattern = text_or_empty row.path_pattern;
        target_host = text_or_empty row.target_host;
        target_port = port;
        need_auth = is_nonzero auth;
        rate_limit = limit;
      })

-- The loop over the rows.
unfoldable pub rules_of : List Row → Option (List RouteRule)
rules_of [] = some []
rules_of (r ∷ rs) = elim (rule_of r) [
  | none ↦ none
  | some x ↦ elim (rules_of rs) [ none ↦ none | some xs ↦ some (x ∷ xs) ]
]

-- A call returns, or an exception of the pool or of `stoi` leaves it.
pub data Loaded : Type 0 where
  returned : Bool → Router → MysqlPool → Loaded
  threw : Router → MysqlPool → Loaded

-- With the connection `c` in hand.
unfoldable pub load_with : Router → MysqlPool → ℕ → Answer → Loaded
load_with t p c query_failed = returned false t (release p (some c))
load_with t p c no_result = returned false t (release p (some c))
load_with t p c (rows rs) = elim (rules_of rs) [
  | none ↦ threw t p
  | some new ↦ returned true (record { rules = new }) (release p (some c))
]

-- `loadFromMySQL`, and `reload`, which calls it. The arguments say what the health check, a
-- reconnection and the query give.
unfoldable pub load_from_mysql : Router → MysqlPool → ℕ → Connect → Answer → Loaded
unfolding load_with
load_from_mysql t p code fresh answer = elim (acquire p code fresh) [
  | lent c q ↦ load_with t q c answer
  | Acquired.threw e q ↦ threw t q
]
