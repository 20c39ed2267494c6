-- ===== src/Limiter/Window.antt =====
-- gateway/src/ratelimit_plugin.cpp: a counter in Redis for each second.
pub mod Counted
use lfgateway.Base.{
  ℕ, ◌+◌, ◌++◌, Bool, true, false, Option, none, some, List, [], ◌∷◌, if◌then◌else◌, ◌==◌,
}
use lfgateway.Base.Text.{Bytes}
use lfgateway.Base.Decimal.{to_string}
use lfgateway.Base.Int.{ℤ, pos, negsuc, leb_ℤ}
use lfgateway.Redis.{Server}
use lfgateway.Redis.Client.{incr, expire}

abbrev pub window_key : Bytes → ℕ → Bytes
window_key key_prefix now = key_prefix ++ b':' ∷ to_string now

abbrev pub is_pos_one : ℤ → Bool
is_pos_one (pos n) = n == 1
is_pos_one (negsuc n) = false

module _ (s : Server) where
  open s use {State}

  -- `now` is the system clock's time in seconds.
  unfoldable pub is_allowed : ℕ → Bytes → ℤ → State → Bool × State
  is_allowed now key_prefix max_per_second st =
      if leb_ℤ max_per_second (pos 0)
      then (true, st)
      else (let key = window_key key_prefix now in
          let (count, st1) = incr s key st in
          let st2 = if is_pos_one count then (expire s key (pos 2) st1).1 else st1 in
          (leb_ℤ count max_per_second, st2))
