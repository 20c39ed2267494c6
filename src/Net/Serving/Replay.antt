-- ===== src/Net/Serving/Replay.antt =====
-- Each connection of a server at work is a connection by itself with the inputs that it had.
use lfgateway.Base.{◌≡◌, refl, List, [], ◌∷◌, ◌++◌, append_assoc, append-nil, ℕ}
use lfgateway.Base.Text.{Bytes}
use lfgateway.Base.Reach.{Steps-keep}
use lfgateway.Base.Maps.{lookup}
use lfgateway.Net.Connection.{TcpConnection, Input, establish, run_input, run_inputs, on_channel}
use lfgateway.Net.Connection.Written.{
  bytes_written, bytes_queued, inputs-Flows, written-append, queued-append,
}
use lfgateway.Net.Serving.{Serving, Life, serving}
use lfgateway.Net.Serving.Keeps.{All, first_life, next_life, accept-All, input-All}
use lfgateway.Net.Serving.Open.{Step, accepts, handles, Reach}

-- What becomes of the file `fd` with some inputs, on its own.
abbrev pub life_of : (Bytes → List Bytes) → ℕ → List Input → Life
life_of reply fd is =
    let start = establish fd in
    let r = run_inputs reply is start.0 in record { connection = r.0; effects = start.1 ++ r.1 }

abbrev pub Replays : (Bytes → List Bytes) → Life → Type 0
Replays reply l = (fd : ℕ) × (is : List Input) × (l ≡ life_of reply fd is)

inputs-append_one :
    (reply : Bytes → List Bytes) (is : List Input) (i : Input) (c : TcpConnection)
    → run_inputs reply (is ++ i ∷ []) c
      ≡ (let (d, es) = run_inputs reply is c in let (e, fs) = run_input reply i d in (e, es ++ fs))
unfolding run_inputs
inputs-append_one reply [] i c = rw (append-nil (run_input reply i c).1) refl
inputs-append_one reply (j ∷ is) i c =
    let (d, es) = run_input reply j c in
    rw
      (
        inputs-append_one reply is i d,
        append_assoc es (run_inputs reply is d).1 (run_input reply i (run_inputs reply is d).0).1,
      )
      refl

Replays-next :
    (reply : Bytes → List Bytes) (i : Input) (l : Life)
    → Replays reply l
    → Replays reply (next_life reply i l)
Replays-next reply i l (fd, is, e) =
    let start = establish fd in
    let r = run_inputs reply is start.0 in
    (
      fd,
      is ++ i ∷ [],
      rw
          (
            e,
            inputs-append_one reply is i start.0,
            append_assoc start.1 r.1 (run_input reply i r.0).1,
          )
          refl,
    )

Replays-first : (reply : Bytes → List Bytes) (fd : ℕ) → Replays reply (first_life fd)
unfolding run_inputs
Replays-first reply fd = (fd, [], rw (append-nil (establish fd).1) refl)

-- Each connection that was made.
abbrev pub AllReplay : (Bytes → List Bytes) → Serving → Type 0
AllReplay reply = All (λ name l. Replays reply l)

Step-AllReplay :
    (reply : Bytes → List Bytes) {s t : Serving}
    → Step reply s t
    → AllReplay reply s
    → AllReplay reply t
Step-AllReplay reply {s} (accepts a free new) all =
    accept-All (λ name l. Replays reply l) a s (λ fd e. Replays-first reply fd) all
Step-AllReplay reply {s} (handles name i) all =
    input-All (λ name l. Replays reply l) (λ name l. Replays reply l) reply name i s
      (λ l k. Replays-next reply i l k) (λ other l e k. k) all

-- Every connection of a server that has run is what its file makes of some inputs, on its own: what
-- holds of a single connection holds of each of them.
pub Reach-AllReplay :
    (reply : Bytes → List Bytes) (name : Bytes) (s : Serving)
    → Reach reply (serving name) s
    → AllReplay reply s
unfolding lookup
Reach-AllReplay reply name s r =
    Steps-keep (AllReplay reply) (λ u v t h. Step-AllReplay reply t h) r (λ k l h. cc)

-- So for each connection what the kernel took and what is left to write is what was queued.
pub Replays-written :
    (reply : Bytes → List Bytes) (l : Life)
    → Replays reply l
    → bytes_written l.effects ++ l.connection.output_buffer ≡ bytes_queued l.effects
unfolding establish on_channel bytes_written bytes_queued
Replays-written reply l (fd, is, e) =
    let start = establish fd in
    let r = run_inputs reply is start.0 in
    rw (e, written-append start.1 r.1, queued-append start.1 r.1) (inputs-Flows reply is start.0)
