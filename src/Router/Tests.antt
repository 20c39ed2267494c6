-- ===== src/Router/Tests.antt =====
-- The table at concrete rules and rows.
use lfgateway.Base.{if◌then◌else◌, ◌≡◌, refl, ◌⊎◌, true, none, some, [], ◌∷◌, arith}
use lfgateway.Base.Text.{Bytes, codes, starts_with}
use lfgateway.Base.Int.{pos}
use lfgateway.Mysql.Pool.{MysqlPool, no_handle, acquire, release}
use lfgateway.Router.{
  RouteRule, Router, Row, rules_of, rows, load_from_mysql, match, first_match, matches,
}
use lfgateway.Router.Match.{NoneMatches, IsFirst, match_lem}
use lfgateway.Router.Pointer.{
  Store, Load, match_pointer, first_index, read_rule, reloads, any_replaced, read_rule-reloads,
}
use lfgateway.Router.Load.{Returns, load-Returns}

abbrev rule_at : Bytes → RouteRule
rule_at p = record {
  id = pos 1;
  path_pattern = p;
  target_host = codes "h";
  target_port = pos 80;
  need_auth = true;
  rate_limit = pos 10;
}

abbrev table : Router
table = record { rules = rule_at (codes "/api/test") ∷ rule_at (codes "/api") ∷ [] }

first_wins : match table (codes "/api/tests") ≡ some (rule_at (codes "/api/test"))
unfolding match first_match matches starts_with
first_wins = refl

match_lem_example :
    ((match table (codes "/x") ≡ none) × NoneMatches (codes "/x") table.rules)
    ⊎ ((r : RouteRule) × (match table (codes "/x") ≡ some r) × IsFirst (codes "/x") table.rules r)
match_lem_example = match_lem table (codes "/x")

abbrev pool_of_one : MysqlPool
pool_of_one = record { pool = 4 ∷ []; active_count = 0; total_acquires = 0; total_timeouts = 0 }

abbrev row_with : Bytes → Row
row_with port = record {
  id = some (codes "1");
  path_pattern = some (codes "/api/test");
  target_host = some (codes "localhost");
  target_port = some port;
  need_auth = none;
  rate_limit = none;
}

empty_reload :
    Returns table pool_of_one
      (rows [])
      true
      (record { rules = [] })
      (record { pool = 4 ∷ []; active_count = 0; total_acquires = 1; total_timeouts = 0 })
unfolding load_from_mysql acquire release rules_of
empty_reload =
    load-Returns table (record { rules = [] }) pool_of_one _ 4 [] no_handle (rows []) true refl
      (omega arith) refl

abbrev store : Store
store = record { array = 0; router = table }

abbrev emptied : Load
emptied = record { pool = pool_of_one; code = 0; fresh = no_handle; answer = rows [] }

-- The second rule is found, and the table is replaced.
read_rule-reloads_example :
    read_rule (reloads (emptied ∷ []) store) (record { array = 0; index = 1 })
    ≡ (if any_replaced (emptied ∷ []) store then none else match table (codes "/api/x"))
unfolding match_pointer first_index matches starts_with
read_rule-reloads_example =
    read_rule-reloads store (codes "/api/x") (record { array = 0; index = 1 }) (emptied ∷ []) refl
