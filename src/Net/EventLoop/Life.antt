-- ===== src/Net/EventLoop/Life.antt =====
-- The constructor of `EventLoop` and its destructor (src/net/eventloop.cpp), with the channel of the
-- eventfd.
use lfgateway.Base.{ℕ, Option, none, some, List, [], ◌∷◌}
use lfgateway.Net.Channel.{Channel, channel, EpollCtl, enable_reading, disable_all}

-- The descriptors of a loop, that of the eventfd in its channel.
pub record Descriptors : Type 0 where
  pub epollfd : ℕ
  pub wakeup_channel : Channel

-- `createEventfd`, with what `eventfd` gave; `none` is the exit.
abbrev pub create_eventfd : Option ℕ → Option ℕ
create_eventfd fd = fd

watch_wakeup : Option ℕ → ℕ → Option (Descriptors × List EpollCtl)
watch_wakeup none wakeup_fd = none
watch_wakeup (some epollfd) wakeup_fd =
    let (k, calls) = enable_reading (channel wakeup_fd) in
    some (record { epollfd = epollfd; wakeup_channel = k }, calls)

-- The constructor, with what `epoll_create1` and `eventfd` gave: `epollfd_` is tested behind the other.
unfoldable pub construct : Option ℕ → Option ℕ → Option (Descriptors × List EpollCtl)
unfolding watch_wakeup
construct epollfd eventfd = elim (create_eventfd eventfd) [
  | none ↦ none
  | some wakeup_fd ↦ watch_wakeup epollfd wakeup_fd
]

-- The destructor: its calls of `epoll_ctl`, then the files that it closes.
unfoldable pub destruct : Descriptors → List EpollCtl × List ℕ
destruct d = ((disable_all d.wakeup_channel).1, d.wakeup_channel.fd ∷ d.epollfd ∷ [])
