-- ===== src/Stream/Lost.antt =====
-- What the writer puts into MySQL.
use lfgateway.Base.{ℕ, ◌≡◌, ◌≢◌, refl, Option, none, some, List, [], ◌∷◌, arith}
use lfgateway.Base.Text.{Bytes, codes}
use lfgateway.Base.Int.{pos}
use lfgateway.Base.Maps.{insert}
use lfgateway.Redis.{Server}
use lfgateway.Redis.Streams.{Message, xreadgroup}
use lfgateway.Mysql.Pool.{MysqlPool, Connect}
use lfgateway.Stream.{insert_sql, round, stream, group, consumer, ids, after_read, write_messages}

write_acked :
    (s : Server) (p : MysqlPool) (code insert_code : ℕ) (fresh : Connect) (ms : List Message)
    (st : s.State)
    → (write_messages s p code fresh insert_code ms st).acked ≢ []
    → ((write_messages s p code fresh insert_code ms st).sql ≡ some (insert_sql ms))
      × (insert_code ≡ 0)
      × ((write_messages s p code fresh insert_code ms st).acked ≡ ids s ms)
unfolding write_messages
write_acked s p code insert_code fresh [] st h = absurd (h refl)
write_acked s p code insert_code fresh (m ∷ ms) st h = ground arith

read_acked :
    (s : Server) (p : MysqlPool) (code insert_code : ℕ) (fresh : Connect)
    (o : Option (List Message)) (st : s.State)
    → (after_read s p code fresh insert_code (o, st)).acked ≢ []
    → (ms : List Message) × (o ≡ some ms)
      × ((after_read s p code fresh insert_code (o, st)).sql ≡ some (insert_sql ms))
      × (insert_code ≡ 0)
      × ((after_read s p code fresh insert_code (o, st)).acked ≡ ids s ms)
unfolding after_read
read_acked s p code insert_code fresh none st h = absurd (h refl)
read_acked s p code insert_code fresh (some ms) st h =
    let (sent, taken, all) = write_acked s p code insert_code fresh ms st h in
    (ms, refl, sent, taken, all)

-- Entries are acknowledged only after a statement that holds all of them went through: a round that
-- acknowledged anything sent the insertion of some messages, which MySQL took, and acknowledged
-- the identifiers of just these messages.
pub acked_inserted :
    (s : Server) (p : MysqlPool) (code insert_code : ℕ) (fresh : Connect) (st : s.State)
    → (round s p code fresh insert_code st).acked ≢ []
    → (ms : List Message) × ((xreadgroup s group consumer stream (codes ">") (pos 10) st).0
        ≡ some ms)
      × ((round s p code fresh insert_code st).sql ≡ some (insert_sql ms))
      × (insert_code ≡ 0)
      × ((round s p code fresh insert_code st).acked ≡ ids s ms)
unfolding round
acked_inserted s p code insert_code fresh st h =
    let r = xreadgroup s group consumer stream (codes ">") (pos 10) st in
    read_acked s p code insert_code fresh r.0 r.1 h

abbrev pub no_values : Bytes
no_values =
    codes "INSERT INTO api_call_logs (path, user_id, status_code, latency_ms) VALUES ('', , , )"

-- The map with an empty `id` and one more key with an empty value.
abbrev hollow : Bytes → Message
hollow id = insert {V = Bytes} id [] (insert {V = Bytes} (codes "id") [] [])
