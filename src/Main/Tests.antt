-- ===== src/Main/Tests.antt =====
-- A start at which everything is there.
use lfgateway.Base.{ℕ, ◌≡◌, refl, true, false, Option, some, List, [], ◌∷◌}
use lfgateway.Net.Channel.{Channel, EpollCtl, ctl_add, enable_reading, update, update_channel}
use lfgateway.Net.Acceptor.{acceptor, listen}
use lfgateway.Net.EventLoop.{loop_start}
use lfgateway.Net.EventLoop.Life as Loop
use lfgateway.Mysql.Pool as Mysql
use lfgateway.Redis.Pool as Redis
use lfgateway.Router.{load_from_mysql}
use lfgateway.Gateway.Start
use lfgateway.Gateway.Start.{Application}
use lfgateway.Gateway.Start.Sample.{outside, application}
use lfgateway.Gateway.Start.Listening.{to_read}
use lfgateway.Main.{Process, begin_loop}
use lfgateway.Main.Boot.{running, boot, boot_watches}

abbrev watching : ℕ → Channel
watching fd = record { fd = fd; events = to_read; indexed = true; removed = false }

abbrev descriptors : Loop.Descriptors
descriptors = record { epollfd = 3; wakeup_channel = watching 4 }

abbrev started : Application
started = record application {
  api_server = record application.api_server {
    acceptor = record { listenfd = 20; accept_channel = watching 20 };
  };
  mgmt_server = record application.mgmt_server {
    acceptor = record { listenfd = 21; accept_channel = watching 21 };
  };
}

abbrev process : Process
process = record { loop = some (loop_start [] 0); gateway = some started }

abbrev calls : List EpollCtl
calls = ctl_add 4 to_read ∷ ctl_add 20 to_read ∷ ctl_add 21 to_read ∷ []

boots : boot (some 3) (some 4) outside true true ≡ running process descriptors calls
unfolding boot begin_loop Loop.construct Start.construct Mysql.construct Redis.construct
    load_from_mysql Mysql.acquire Mysql.release acceptor Start.start listen enable_reading update
    update_channel
boots = refl

boot_watches_example :
    (w : ℕ) × (m : ℕ) × (n : ℕ) × (a : Application) × (◌≡◌ {A = Option ℕ} (some 4) (some w))
    × (outside.api_socket.fd ≡ some m)
    × (outside.mgmt_socket.fd ≡ some n)
    × (calls ≡ ctl_add w to_read ∷ ctl_add m to_read ∷ ctl_add n to_read ∷ [])
    × (true ≡ true)
    × (true ≡ true)
    × (process ≡ record { loop = some (loop_start [] 0); gateway = some a })
boot_watches_example =
    boot_watches (some 3) (some 4) outside true true process descriptors calls boots
