-- ===== src/Gateway/Json.antt =====
-- The JSON texts of the management commands: `getStatsJson`, `getHealthJson`, `getLogsJson`,
-- `getRouteListJson`.
pub mod Auth
use lfgateway.Base.{
  ℕ, Bool, true, false, Option, none, some, List, [], ◌∷◌, ◌++◌, if◌then◌else◌, length,
}
use lfgateway.Base.Text.{Bytes, codes, equal}
use lfgateway.Base.Decimal.{to_string}
use lfgateway.Mysql.Pool.{MysqlPool, Connect, Acquired, Error, lent, acquire, release, idle_count}
use lfgateway.Router.{Row}
use lfgateway.Gateway.{Counters}

abbrev pub text_or : Bytes → Option Bytes → Bytes
text_or d none = d
text_or d (some s) = s

-- `print_avg` stands for the average latency, computed and printed as a `double`.
unfoldable pub get_stats_json : (ℕ → ℕ → Bytes) → Counters → Bytes
get_stats_json print_avg c =
    codes "{\"totalRequests\":"
    ++ (to_string c.total_requests
        ++ (codes ",\"avgLatencyMs\":"
            ++ (print_avg c.total_latency_us c.total_requests
                ++ (codes ",\"rejectedAuth\":"
                    ++ (to_string c.rejected_auth
                        ++ (codes ",\"rejectedLimit\":"
                            ++ (to_string c.rejected_limit ++ codes "}")))))))

-- The API server exists from the constructor on.
unfoldable pub get_health_json : Counters → MysqlPool → Bytes
get_health_json c p =
    codes "{\"status\":\"running\",\"totalRequests\":"
    ++ (to_string c.total_requests
        ++ (codes ",\"activeConnections\":running,\"mysqlPool\":{\"active\":"
            ++ (to_string p.active_count
                ++ (codes ",\"idle\":"
                    ++ (to_string (idle_count p)
                        ++ (codes ",\"totalAcquires\":"
                            ++ (to_string p.total_acquires
                                ++ (codes ",\"totalTimeouts\":"
                                    ++ (to_string p.total_timeouts
                                        ++ codes "},\"redisPool\":\"connected\"}")))))))))

-- A row of the log table.
pub record LogRow : Type 0 where
  pub path : Option Bytes
  pub user_id : Option Bytes
  pub status_code : Option Bytes
  pub latency_ms : Option Bytes
  pub created_at : Option Bytes

unfoldable pub log_object : LogRow → Bytes
log_object r =
    codes "{\"path\":\""
    ++ (text_or [] r.path
        ++ (codes "\",\"userId\":"
            ++ (text_or (codes "0") r.user_id
                ++ (codes ",\"status\":"
                    ++ (text_or (codes "0") r.status_code
                        ++ (codes ",\"latency\":"
                            ++ (text_or (codes "0") r.latency_ms
                                ++ (codes ",\"time\":\""
                                    ++ (text_or [] r.created_at ++ codes "\"}")))))))))

-- `row[4] ? (strcmp(row[4], "1") == 0 ? "true" : "false") : "true"`
unfoldable pub auth_text : Option Bytes → Bytes
unfolding equal
auth_text none = codes "true"
auth_text (some s) = if equal s (codes "1") then codes "true" else codes "false"

unfoldable pub route_object : Row → Bytes
unfolding auth_text
route_object r =
    codes "{\"id\":"
    ++ (text_or (codes "0") r.id
        ++ (codes ",\"path\":\""
            ++ (text_or [] r.path_pattern
                ++ (codes "\",\"target\":\""
                    ++ (text_or [] r.target_host
                        ++ (codes ":"
                            ++ (text_or (codes "0") r.target_port
                                ++ (codes "\",\"auth\":"
                                    ++ (auth_text r.need_auth
                                        ++ (codes ",\"rateLimit\":"
                                            ++ (text_or (codes "0") r.rate_limit
                                                ++ codes "}")))))))))))

-- The loop over the rows with its flag `first`.
unfoldable pub objects {ℓ} : {A : Type ℓ} → (A → Bytes) → Bool → List A → Bytes
objects print first [] = []
objects print first (r ∷ rs) =
    (if first then [] else codes ",") ++ (print r ++ objects print false rs)

-- A query that failed, or its rows; a null result set has none.
pub data Query {ℓ} (A : Type ℓ) : Type ℓ where
  failed : Query A
  fetched : List A → Query A

unfoldable pub array_text {ℓ} : {A : Type ℓ} → (A → Bytes) → Query A → Bytes
unfolding objects
array_text print failed = codes "[]"
array_text print (fetched rs) = codes "[" ++ (objects print true rs ++ codes "]")

-- A text, or an exception of the pool.
pub data Listed : Type 0 where
  listed : Bytes → MysqlPool → Listed
  threw : Error → MysqlPool → Listed

unfoldable pub get_logs_json : MysqlPool → ℕ → Connect → Query LogRow → Listed
get_logs_json p code fresh q = elim (acquire p code fresh) [
  | lent c p1 ↦ listed (array_text log_object q) (release p1 (some c))
  | Acquired.threw e p1 ↦ threw e p1
]

unfoldable pub get_route_list_json : MysqlPool → ℕ → Connect → Query Row → Listed
get_route_list_json p code fresh q = elim (acquire p code fresh) [
  | lent c p1 ↦ listed (array_text route_object q) (release p1 (some c))
  | Acquired.threw e p1 ↦ threw e p1
]
