-- ===== src/Log.antt =====
-- gateway/src/log_consumer.cpp: log entries go to a Redis stream.
use lfgateway.Base.{Bool, true, false, List, [], ◌∷◌}
use lfgateway.Base.Text.{Bytes, codes}
use lfgateway.Base.Int.{ℤ, print_int}
use lfgateway.Redis.{Server}
use lfgateway.Redis.Streams.{xadd}

-- `latency_ms` is the text that `std::to_string` makes of the number.
pub record LogEntry : Type 0 where
  pub path : Bytes
  pub user_id : ℤ
  pub status_code : ℤ
  pub latency_ms : Bytes

-- The map of the fields, in the order of its keys.
abbrev pub fields_of : LogEntry → List (Bytes × Bytes)
fields_of e =
    (codes "latency_ms", e.latency_ms)
    ∷ (codes "path", e.path)
    ∷ (codes "status_code", print_int e.status_code)
    ∷ (codes "user_id", print_int e.user_id)
    ∷ []

pub record LogConsumer : Type 0 where
  pub running : Bool

abbrev pub start : LogConsumer → LogConsumer
start c = record c { running = true }

abbrev pub stop : LogConsumer → LogConsumer
stop c = record c { running = false }

module _ (s : Server) where
  open s use {State}

  -- `push`; the result of `xadd` is not looked at.
  unfoldable pub push : LogEntry → State → State
  push e st = (xadd s (codes "log_stream") (codes "*") (fields_of e) st).1
