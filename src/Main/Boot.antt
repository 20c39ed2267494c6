-- ===== src/Main/Boot.antt =====
-- `main` (src/main_gateway.cpp) up to its loop.
use mathlib.Core.Path.{ap₂}
use lfgateway.Base.{
  ℕ, ◌≡◌, refl, ◌∙◌, inl, inr, Bool, true, Option, none, some, List, [], ◌∷◌, ◌++◌, arith,
  Option-cases,
}
use lfgateway.Net.Channel.{EpollCtl, ctl_add, enable_reading, update, update_channel}
use lfgateway.Net.EventLoop.{loop_start}
use lfgateway.Net.EventLoop.Life as Loop
use lfgateway.Gateway.Start
use lfgateway.Gateway.Start.{Outside, Application, Built, built, failed, exited}
use lfgateway.Gateway.Start.Listening.{to_read, start_watches}
use lfgateway.Main.{Process, begin_loop}

-- `EXIT_FAILURE`, an exception that nothing catches, or the loop, with the calls of `epoll_ctl` so far.
pub data Booted : Type 0 where
  left terminated : Booted
  running : Process → Loop.Descriptors → List EpollCtl → Booted

with_servers : Loop.Descriptors → List EpollCtl → Option (Application × List EpollCtl) → Booted
with_servers d cs none = left
with_servers d cs (some (a, ds)) =
    running (record { loop = some (begin_loop (loop_start [] 0)); gateway = some a }) d (cs ++ ds)

with_gateway : Bool → Bool → Loop.Descriptors → List EpollCtl → Built → Booted
unfolding with_servers
with_gateway api_listens mgmt_listens d cs failed = terminated
with_gateway api_listens mgmt_listens d cs exited = left
with_gateway api_listens mgmt_listens d cs (built a) =
    with_servers d cs (Start.start api_listens mgmt_listens a)

with_loop : Outside → Bool → Bool → Option (Loop.Descriptors × List EpollCtl) → Booted
unfolding with_gateway
with_loop o api_listens mgmt_listens none = left
with_loop o api_listens mgmt_listens (some (d, cs)) =
    with_gateway api_listens mgmt_listens d cs (Start.construct o)

-- With what `epoll_create1` and `eventfd` gave, and whether `listen` succeeds for either server.
unfoldable pub boot : Option ℕ → Option ℕ → Outside → Bool → Bool → Booted
unfolding with_loop
boot epollfd eventfd o api_listens mgmt_listens =
    with_loop o api_listens mgmt_listens (Loop.construct epollfd eventfd)

built_runs :
    (al ml : Bool) (d : Loop.Descriptors) (xs : List EpollCtl) (p : Process) (d' : Loop.Descriptors)
    (cs : List EpollCtl) (r : Built)
    → with_gateway al ml d xs r ≡ running p d' cs
    → (a : Application) × (ys : List EpollCtl) × (b : Application) × (r ≡ built b)
      × (Start.start al ml b ≡ some (a, ys))
      × (cs ≡ xs ++ ys)
      × (p ≡ record { loop = some (begin_loop (loop_start [] 0)); gateway = some a })
unfolding with_gateway
built_runs al ml d xs p d' cs failed h = absurd (ground arith)
built_runs al ml d xs p d' cs exited h = absurd (ground arith)
built_runs al ml d xs p d' cs (built b) h = elim (Option-cases (Start.start al ml b)) [
  | inl e ↦ absurd (ground arith)
  | inr ((a, ys), e) ↦ (a, ys, b, refl, e, ground arith, ground arith)
]

gateway_runs :
    (o : Outside) (al ml : Bool) (d : Loop.Descriptors) (xs : List EpollCtl) (p : Process)
    (d' : Loop.Descriptors) (cs : List EpollCtl)
    → with_loop o al ml (some (d, xs)) ≡ running p d' cs
    → (a : Application) × (ys : List EpollCtl) × (b : Application) × (Start.construct o ≡ built b)
      × (Start.start al ml b ≡ some (a, ys))
      × (cs ≡ xs ++ ys)
      × (p ≡ record { loop = some (begin_loop (loop_start [] 0)); gateway = some a })
unfolding with_loop
gateway_runs o al ml d xs p d' cs h = built_runs al ml d xs p d' cs (Start.construct o) h

loop_watches :
    (epollfd eventfd : Option ℕ) (d : Loop.Descriptors) (cs : List EpollCtl)
    → Loop.construct epollfd eventfd ≡ some (d, cs)
    → (w : ℕ) × (eventfd ≡ some w) × (cs ≡ ctl_add w to_read ∷ [])
unfolding Loop.construct enable_reading update update_channel
loop_watches none none d cs h = absurd (ground arith)
loop_watches (some e) none d cs h = absurd (ground arith)
loop_watches none (some w) d cs h = absurd (ground arith)
loop_watches (some e) (some w) d cs h = (w, refl, ground arith)

-- If `main` comes to its loop, both servers listen, and epoll watches three files for reading and no
-- other: the eventfd of the loop and the sockets of the two servers. The loop begins with nothing pending
-- and no `quit`, and both global pointers are set.
pub boot_watches :
    (epollfd eventfd : Option ℕ) (o : Outside) (api_listens mgmt_listens : Bool) (p : Process)
    (d : Loop.Descriptors) (cs : List EpollCtl)
    → boot epollfd eventfd o api_listens mgmt_listens ≡ running p d cs
    → (w : ℕ) × (m : ℕ) × (n : ℕ) × (a : Application) × (eventfd ≡ some w)
      × (o.api_socket.fd ≡ some m)
      × (o.mgmt_socket.fd ≡ some n)
      × (cs ≡ ctl_add w to_read ∷ ctl_add m to_read ∷ ctl_add n to_read ∷ [])
      × (api_listens ≡ true)
      × (mgmt_listens ≡ true)
      × (p ≡ record { loop = some (loop_start [] 0); gateway = some a })
unfolding boot begin_loop
boot_watches epollfd eventfd o al ml p d cs h =
    elim (Option-cases (Loop.construct epollfd eventfd)) [
      | inl e ↦ absurd (ground arith)
      | inr ((d', xs), e) ↦
          let (w, at_w, first) = loop_watches epollfd eventfd d' xs e in
          let (a, ys, b, made, started, calls, process) =
            gateway_runs o al ml d' xs p d cs (rw e at h) in
          let (m, n, at_m, at_n, rest, l, l') = start_watches o al ml b a ys made started in
          (w, m, n, a, at_w, at_m, at_n, calls ∙ ap₂ ◌++◌ first rest, l, l', process)
    ]
