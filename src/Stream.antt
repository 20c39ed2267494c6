-- ===== src/Stream.antt =====
-- gateway/src/stream_writer.cpp: log entries from the Redis stream into MySQL.
pub mod Lost
mod Tests
use lfgateway.Base.{
  ℕ, Bool, true, false, Option, none, some, List, [], ◌∷◌, ◌++◌, if◌then◌else◌, ◌==◌,
}
use lfgateway.Base.Text.{Bytes, codes}
use lfgateway.Base.Int.{ℤ, pos}
use lfgateway.Base.Maps.{lookup}
use lfgateway.Redis.{Server}
use lfgateway.Redis.Streams.{Message, xreadgroup, xack, xgroup_create}
use lfgateway.Mysql.Pool.{MysqlPool, Connect, Acquired, lent, acquire, release}

-- `running_` and whether the thread can be joined.
pub record StreamWriter : Type 0 where
  pub running : Bool
  pub joinable : Bool

abbrev pub start : StreamWriter → StreamWriter
start w = record { running = true; joinable = true }

-- `stop` waits for the thread, whose loop ends once `running_` is false.
abbrev pub stop : StreamWriter → StreamWriter
stop w = record { running = false; joinable = false }

abbrev pub stream : Bytes
stream = codes "log_stream"

abbrev pub group : Bytes
group = codes "log_writers"

abbrev pub consumer : Bytes
consumer = codes "writer_1"

-- `msg[key]`: a key that is not there gives the empty text.
unfoldable pub field : Message → Bytes → Bytes
field m k = elim (lookup k m) [ none ↦ [] | some v ↦ v ]

unfoldable pub row_sql : Message → Bytes
row_sql m =
    codes "('"
    ++ (field m (codes "path")
        ++ (codes "', "
            ++ (field m (codes "user_id")
                ++ (codes ", "
                    ++ (field m (codes "status_code")
                        ++ (codes ", " ++ (field m (codes "latency_ms") ++ codes ")")))))))

-- The loop over the messages with its flag `first`.
unfoldable pub rows_sql : Bool → List Message → Bytes
rows_sql first [] = []
rows_sql first (m ∷ ms) = (if first then [] else codes ", ") ++ (row_sql m ++ rows_sql false ms)

unfoldable pub insert_sql : List Message → Bytes
insert_sql ms =
    codes "INSERT INTO api_call_logs (path, user_id, status_code, latency_ms) VALUES "
    ++ rows_sql true ms

-- One round of `run`: the statement that went to MySQL, the entries that were acknowledged, and how
-- the round ended. `caught` is an exception of the pool, `fault` a read past a reply's end.
pub data End : Type 0 where
  slept wrote caught fault : End

module _ (s : Server) where
  open s use {State}

  pub record Round : Type 0 where
    pub redis : State
    pub pool : MysqlPool
    pub sql : Option Bytes
    pub acked : List Bytes
    pub ended : End

  -- `xack` for every message, in order; the results are not looked at.
  unfoldable pub ack_all : List Message → State → State
  ack_all [] st = st
  ack_all (m ∷ ms) st = ack_all ms (xack s stream group (field m (codes "id")) st).1

  abbrev pub ids : List Message → List Bytes
  ids [] = []
  ids (m ∷ ms) = field m (codes "id") ∷ ids ms

  write_with : MysqlPool → ℕ → ℕ → List Message → State → Round
  write_with p c insert_code ms st =
      if insert_code == 0
      then record {
        redis = ack_all ms st;
        pool = release p (some c);
        sql = some (insert_sql ms);
        acked = ids ms;
        ended = wrote;
      }
      else record {
        redis = st;
        pool = release p (some c);
        sql = some (insert_sql ms);
        acked = [];
        ended = wrote;
      }

  write_messages : MysqlPool → ℕ → Connect → ℕ → List Message → State → Round
  unfolding write_with
  write_messages p code fresh insert_code [] st = record {
    redis = st;
    pool = p;
    sql = none;
    acked = [];
    ended = slept;
  }
  write_messages p code fresh insert_code (m ∷ ms) st = elim (acquire p code fresh) [
    | lent c q ↦ write_with q c insert_code (m ∷ ms) st
    | Acquired.threw e q ↦ record { redis = st; pool = q; sql = none; acked = []; ended = caught }
  ]

  after_read : MysqlPool → ℕ → Connect → ℕ → Option (List Message) × State → Round
  unfolding write_messages
  after_read p code fresh insert_code (none, st) = record {
    redis = st;
    pool = p;
    sql = none;
    acked = [];
    ended = fault;
  }
  after_read p code fresh insert_code (some ms, st) = write_messages p code fresh insert_code ms st

  unfoldable pub round : MysqlPool → ℕ → Connect → ℕ → State → Round
  unfolding after_read
  round p code fresh insert_code st =
      after_read p code fresh insert_code
        (xreadgroup s group consumer stream (codes ">") (pos 10) st)

  -- The start of `run`.
  abbrev pub prepare : State → State
  prepare st = (xgroup_create s stream group (codes "0") st).1
