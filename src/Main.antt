-- ===== src/Main.antt =====
-- The process (src/main_gateway.cpp): its two global pointers and the handler of its signals.
pub mod Boot
mod Tests
use lfgateway.Base.{◌≡◌, refl, Bool, true, false, Option, none, some, if◌then◌else◌}
use lfgateway.Net.EventLoop.{EventLoop, wakeup, set_quit}
use lfgateway.Gateway.Flow.{Outgoing}
use lfgateway.Gateway.Start.{Application, stop}

-- `g_loop` and `g_gw`, null or what they point to.
pub record Process : Type 0 where
  pub loop : Option (EventLoop Outgoing)
  pub gateway : Option Application

abbrev pub main_start : Process
main_start = record { loop = none; gateway = none }

-- `EventLoop::quit`; a call on the loop's own thread needs no wakeup.
unfoldable pub quit : Bool → EventLoop Outgoing → EventLoop Outgoing
quit in_loop_thread l = if in_loop_thread then set_quit l else wakeup (set_quit l)

-- `EventLoop::loop` up to its first test of `quit_`.
unfoldable pub begin_loop : EventLoop Outgoing → EventLoop Outgoing
begin_loop l = record l { quit = false }

stop_gateway : Option Application → Option Application
stop_gateway none = none
stop_gateway (some a) = some (stop a)

quit_loop : Bool → Option (EventLoop Outgoing) → Option (EventLoop Outgoing)
unfolding quit
quit_loop in_loop_thread none = none
quit_loop in_loop_thread (some l) = some (quit in_loop_thread l)

-- `handleSig`, on the thread that the signal is delivered to.
unfoldable pub handle_sig : Bool → Process → Process
unfolding stop_gateway quit_loop
handle_sig in_loop_thread p = record {
  loop = quit_loop in_loop_thread p.loop;
  gateway = stop_gateway p.gateway;
}

-- A signal while the loop has not begun leaves the loop as it would begin without it.
begin_loop-quit : (l : EventLoop Outgoing) → begin_loop (quit true l) ≡ begin_loop l
unfolding begin_loop quit
begin_loop-quit l = refl
