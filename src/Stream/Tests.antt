-- ===== src/Stream/Tests.antt =====
-- A round of the writer at concrete replies.
use lfgateway.Base.{ℕ, ◌≡◌, some, List, [], ◌∷◌}
use lfgateway.Base.Text.{Bytes, codes}
use lfgateway.Base.Int.{pos}
use lfgateway.Base.Maps.{lookup, insert}
use lfgateway.Redis.{Server, Reply, array, string, element, end}
use lfgateway.Redis.Streams.{Message, messages_of, xreadgroup}
use lfgateway.Redis.Streams.Documented.{Entry, field_replies}
use lfgateway.Mysql.Pool.{MysqlPool, no_handle, acquire}
use lfgateway.Stream.{round, insert_sql, ids, stream, group, consumer, field}
use lfgateway.Stream.Lost.{acked_inserted}

abbrev pool_of_one : MysqlPool
pool_of_one = record { pool = 4 ∷ []; active_count = 0; total_acquires = 0; total_timeouts = 0 }

-- A reply in the layout that the code reads: one entry in the place of a stream's entries.
abbrev flat_reply : Reply
flat_reply = array (
    element
      (array (
        element
          (array (
            element (string (codes "1-0"))
              (element (array (field_replies ((codes "path", codes "/a") ∷ []))) end)))
          end))
      end)

abbrev flat : Server
flat = record { State = Unit {0}; send = λ c st. (some flat_reply, st) }

flat_acked :
    (ms : List Message) × ((xreadgroup flat group consumer stream (codes ">") (pos 10) tt).0
      ≡ some ms)
    × ((round flat pool_of_one 0 no_handle 0 tt).sql ≡ some (insert_sql ms))
    × (◌≡◌ {A = ℕ} 0 0)
    × ((round flat pool_of_one 0 no_handle 0 tt).acked ≡ ids flat ms)
unfolding round acquire xreadgroup messages_of field lookup insert
flat_acked = acked_inserted flat pool_of_one 0 0 no_handle tt (λ e. cc)

abbrev entry : Bytes → Entry
entry id = (id, (codes "path", codes "/a") ∷ [])
