-- ===== src/Net/Acceptor.antt =====
-- `Acceptor` (src/net/acceptor.cpp). The calls of the socket interface that fail at the start end the
-- process; what `accept4` gives is an argument.
use lfgateway.Base.{ℕ, Bool, Option, none, some, List, if◌then◌else◌}
use lfgateway.Net.Channel.{Channel, channel, EpollCtl, enable_reading, disable_all}

pub record Acceptor : Type 0 where
  pub listenfd : ℕ
  pub accept_channel : Channel

-- The constructor, with what `socket` and `bind` gave; `none` is the exit.
unfoldable pub acceptor : Option ℕ → Bool → Option Acceptor
acceptor none bound = none
acceptor (some fd) bound =
    if bound then some (record { listenfd = fd; accept_channel = channel fd }) else none

-- `listen`, with whether the call of that name succeeded.
unfoldable pub listen : Bool → Acceptor → Option (Acceptor × List EpollCtl)
listen listening a =
    let (k, calls) = enable_reading a.accept_channel in
    if listening then some (record a { accept_channel = k }, calls) else none

-- What `accept4` gives: a descriptor, `EAGAIN`, or another error, which is only reported.
pub data Accept : Type 0 where
  accepted : ℕ → Accept
  accept_again accept_failed : Accept

-- `handleRead`: the descriptor that the callback is called with.
unfoldable pub accept_read : Accept → Option ℕ
accept_read (accepted connfd) = some connfd
accept_read accept_again = none
accept_read accept_failed = none

-- `~Acceptor`: the calls of `epoll_ctl`, and the descriptor that is closed behind them.
unfoldable pub close_acceptor : Acceptor → List EpollCtl × ℕ
close_acceptor a = ((disable_all a.accept_channel).1, a.listenfd)
