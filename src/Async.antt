-- ===== src/Async.antt =====
-- `AsyncLogger` (include/log/async_logger.hpp): its two buffers, its file and its thread.
pub mod Order
mod Tests
use lfgateway.Base.{Bool, true, false, List, [], ◌∷◌, ◌++◌, if◌then◌else◌}
use lfgateway.Base.Text.{Bytes}

-- Where the backend's loop is: in its wait, behind the swap, before the test of `running_`, or over.
pub data Phase : Type 0 where
  waiting swapped testing ended : Phase

pub record AsyncLogger : Type 0 where
  pub running : Bool
  pub front_buffer : List Bytes
  pub back_buffer : List Bytes
  pub file : List Bytes
  pub phase : Phase

-- After `init`.
abbrev pub init : AsyncLogger
init = record { running = true; front_buffer = []; back_buffer = []; file = []; phase = testing }

abbrev pub log : Bytes → AsyncLogger → AsyncLogger
log msg l = record l { front_buffer = l.front_buffer ++ msg ∷ [] }

-- The destructor, before it joins the thread.
abbrev pub begin_stop : AsyncLogger → AsyncLogger
begin_stop l = record l { running = false }

-- What the backend does next. The wait can end at any time, by the interval if by nothing else.
unfoldable pub backend_step : AsyncLogger → AsyncLogger
backend_step l = elim l.phase [
  | waiting ↦ record l {
    front_buffer = l.back_buffer;
    back_buffer = l.front_buffer;
    phase = swapped;
  }
  | swapped ↦ record l { file = l.file ++ l.back_buffer; back_buffer = []; phase = testing }
  | testing ↦ record l { phase = if l.running then waiting else ended }
  | ended ↦ l
]
