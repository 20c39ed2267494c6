-- ===== src/Mgmt.antt =====
-- gateway/src/mgmt_handler.cpp: the commands of the management port.
pub mod Dispatch
mod Tests
use lfgateway.Base.{
  ℕ, Bool, true, false, Option, none, some, List, [], ◌∷◌, ◌++◌, if◌then◌else◌, leb, length, drop,
}
use lfgateway.Base.Text.{Bytes, codes, starts_with}
use lfgateway.Mysql.Pool.{MysqlPool, Connect}
use lfgateway.Router.{Router, Row, Answer, Loaded}
use lfgateway.Router
use lfgateway.Gateway.{Counters}
use lfgateway.Gateway.Json.{
  LogRow, Query, Listed, listed, get_stats_json, get_health_json, get_logs_json,
  get_route_list_json,
}
use lfgateway.Gateway.Json
use lfgateway.Gateway.Delete.{DeleteEnv, Deleted, add_route, delete_route}

-- What `onMessage` decides to do; `out_of_range` is the exception of `substr`.
pub data Command : Type 0 where
  stats health route_list unknown out_of_range : Command
  route_add route_delete log_query : Bytes → Command

-- `data.substr(n)`
abbrev pub substr : ℕ → Bytes → Option Bytes
substr n s = if leb n (length s) then some (drop n s) else none

with_body : (Bytes → Command) → Option Bytes → Command
with_body f none = out_of_range
with_body f (some body) = f body

unfoldable pub dispatch : Bytes → Command
unfolding with_body
dispatch s =
    if starts_with (codes "STATS") s
    then stats
    else if starts_with (codes "HEALTH") s
    then health
    else if starts_with (codes "ROUTE_LIST") s
    then route_list
    else if starts_with (codes "ROUTE_ADD") s
    then with_body route_add (substr 10 s)
    else if starts_with (codes "ROUTE_DELETE") s
    then with_body route_delete (substr 13 s)
    else if starts_with (codes "LOG_QUERY") s
    then with_body log_query (substr 10 s)
    else unknown

-- What the commands read and change, and what the database gives them.
pub record World : Type 0 where
  pub counters : Counters
  pub router : Router
  pub pool : MysqlPool

pub record MgmtEnv : Type 0 where
  pub print_avg : ℕ → ℕ → Bytes
  pub code : ℕ
  pub fresh : Connect
  pub logs : Query LogRow
  pub routes : Query Row
  pub answer : Answer
  pub delete_env : DeleteEnv

-- The text that goes back, or `none` for an exception.
pub record Reply : Type 0 where
  pub world : World
  pub text : Option Bytes

abbrev pub verdict : Bool → Bytes
verdict true = codes "{\"result\": \"ok\"}\n"
verdict false = codes "{\"error\": \"failed\"}\n"

of_listed : World → Listed → Reply
of_listed w (listed s p) = record { world = record w { pool = p }; text = some (s ++ codes "\n") }
of_listed w (Listed.threw e p) = record { world = record w { pool = p }; text = none }

of_loaded : World → Loaded → Reply
of_loaded w (Loaded.returned ok t p) = record {
  world = record w { router = t; pool = p };
  text = some (verdict ok);
}
of_loaded w (Loaded.threw t p) = record { world = record w { router = t; pool = p }; text = none }

of_deleted : World → Deleted → Reply
of_deleted w (Deleted.returned ok sql t p) = record {
  world = record w { router = t; pool = p };
  text = some (verdict ok);
}
of_deleted w (Deleted.threw sql t p) = record {
  world = record w { router = t; pool = p };
  text = none;
}

-- The handlers.
unfoldable pub handle : World → MgmtEnv → Command → Reply
unfolding of_listed of_loaded of_deleted
handle w e stats = record {
  world = w;
  text = some (get_stats_json e.print_avg w.counters ++ codes "\n");
}
handle w e health = record {
  world = w;
  text = some (get_health_json w.counters w.pool ++ codes "\n");
}
handle w e route_list = of_listed w (get_route_list_json w.pool e.code e.fresh e.routes)
handle w e (route_add body) = of_loaded w (add_route w.router w.pool e.code e.fresh e.answer)
handle w e (route_delete body) = of_deleted w (delete_route w.router w.pool e.delete_env body)
handle w e (log_query body) = of_listed w (get_logs_json w.pool e.code e.fresh e.logs)
handle w e unknown = record { world = w; text = some (codes "{\"error\": \"unknown command\"}\n") }
handle w e out_of_range = record { world = w; text = none }

unfoldable pub on_message : World → MgmtEnv → Bytes → Reply
on_message w e s = handle w e (dispatch s)
