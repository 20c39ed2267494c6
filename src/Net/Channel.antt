-- ===== src/Net/Channel.antt =====
-- `Channel` (src/net/channel.cpp) with the two functions of the loop that it calls,
-- `updateChannel` and `removeChannel` (src/net/eventloop.cpp). What happens at the kernel is the
-- list of `epoll_ctl` calls; a call that fails is only reported by the code.
pub mod Contract
use lfgateway.Base.{ℕ, Bool, true, false, ◌&&◌, ◌||◌, not, List, [], ◌∷◌, ◌++◌, if◌then◌else◌}

-- `events_`, of which `EPOLLIN | EPOLLPRI` are only ever set together.
pub record Events : Type 0 where
  pub reading : Bool
  pub writing : Bool

-- `index_` is -1 or 1; `indexed` is `index_ >= 0`.
pub record Channel : Type 0 where
  pub fd : ℕ
  pub events : Events
  pub indexed : Bool
  pub removed : Bool

pub data EpollCtl : Type 0 where
  ctl_add : ℕ → Events → EpollCtl
  ctl_mod : ℕ → Events → EpollCtl
  ctl_del : ℕ → EpollCtl

abbrev pub no_events : Events
no_events = record { reading = false; writing = false }

abbrev pub channel : ℕ → Channel
channel fd = record { fd = fd; events = no_events; indexed = false; removed = false }

-- `EventLoop::updateChannel`
unfoldable pub update_channel : Channel → Channel × List EpollCtl
update_channel c =
    if c.indexed
    then (c, ctl_mod c.fd c.events ∷ [])
    else (record c { indexed = true }, ctl_add c.fd c.events ∷ [])

-- `EventLoop::removeChannel`
unfoldable pub remove_channel : Channel → Channel × List EpollCtl
remove_channel c = if c.indexed then (record c { indexed = false }, ctl_del c.fd ∷ []) else (c, [])

unfoldable pub update : Channel → Channel × List EpollCtl
unfolding update_channel
update c = if c.removed then (c, []) else update_channel c

unfoldable pub enable_reading : Channel → Channel × List EpollCtl
unfolding update
enable_reading c =
    if c.removed then (c, []) else update (record c { events = record c.events { reading = true } })

unfoldable pub enable_writing : Channel → Channel × List EpollCtl
unfolding update
enable_writing c =
    if c.removed then (c, []) else update (record c { events = record c.events { writing = true } })

unfoldable pub disable_writing : Channel → Channel × List EpollCtl
unfolding update
disable_writing c =
    if c.removed
    then (c, [])
    else update (record c { events = record c.events { writing = false } })

unfoldable pub disable_all : Channel → Channel × List EpollCtl
unfolding update
disable_all c = if c.removed then (c, []) else update (record c { events = no_events })

abbrev pub mark_as_removed : Channel → Channel
mark_as_removed c = record c { removed = true }

unfoldable pub remove : Channel → Channel × List EpollCtl
unfolding remove_channel
remove c = remove_channel (record c { removed = true })

-- `revents_`
pub record Revents : Type 0 where
  pub hup : Bool
  pub readable : Bool
  pub pri : Bool
  pub err : Bool
  pub rdhup : Bool
  pub writable : Bool

-- The callbacks that `handleEvent` makes.
pub data Callback : Type 0 where
  close_callback read_callback write_callback : Callback

abbrev when : Bool → Callback → List Callback
when b k = if b then k ∷ [] else []

-- `handleEvent`: the callbacks it makes, in order. It looks at `removed_` only before the first.
unfoldable pub handle_event : Channel → Revents → List Callback
handle_event c r =
    if c.removed
    then []
    else when (r.hup && not r.readable) close_callback
      ++ (when (r.err || r.rdhup) close_callback
          ++ (when (r.readable || (r.pri || r.rdhup)) read_callback
              ++ when r.writable write_callback))
