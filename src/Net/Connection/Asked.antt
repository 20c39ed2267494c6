-- ===== src/Net/Connection/Asked.antt =====
-- What an event of a connection queues, against the messages it has.
use lfgateway.Base.{
  ℕ, zero, suc, ◌≤◌, ◌≡◌, refl, sym, ap, inl, inr, false, List, [], ◌∷◌, ◌++◌, arith, append_assoc,
  append-nil, length, length-append, Bool-cases,
}
use lfgateway.Base.Text.{Bytes}
use lfgateway.Net.Channel.{
  Channel, Callback, close_callback, read_callback, write_callback, handle_event, Revents,
  enable_writing,
}
use lfgateway.Net.Connection.{
  TcpConnection, Effect, ctl, queued, written, message, closed_callback, closed, on_channel,
  connect_destroyed, handle_close, handle_read, handle_write, run_callback, run_callbacks,
  run_input, send_in_loop, send_all, is_closed, deliver, after_write, Read, got, end_of_input,
  read_again, read_failed, Write, took, write_again, write_failed, event, close_socket,
  run_close_callback,
}
use lfgateway.Net.Connection.Written.{bytes_queued, queued-append, close-IsQuiet}

-- The messages among the effects.
unfoldable pub asked : List Effect → List Bytes
asked [] = []
asked (message buf ∷ es) = buf ∷ asked es
asked (e ∷ es) = asked es

abbrev pub joined : List Bytes → Bytes
joined [] = []
joined (t ∷ ts) = t ++ joined ts

asked-append : (es fs : List Effect) → asked (es ++ fs) ≡ asked es ++ asked fs
unfolding asked
asked-append [] fs = refl
asked-append (ctl k ∷ es) fs = asked-append es fs
asked-append (queued m ∷ es) fs = asked-append es fs
asked-append (written m ∷ es) fs = asked-append es fs
asked-append (message m ∷ es) fs = rw (asked-append es fs) refl
asked-append (closed_callback ∷ es) fs = asked-append es fs
asked-append (closed fd ∷ es) fs = asked-append es fs

-- The texts for some messages, one after the other.
unfoldable pub answered : (Bytes → List Bytes) → List Bytes → Bytes
answered reply [] = []
answered reply (b ∷ bs) = joined (reply b) ++ answered reply bs

answered-append :
    (reply : Bytes → List Bytes) (l m : List Bytes)
    → answered reply (l ++ m) ≡ answered reply l ++ answered reply m
unfolding answered
answered-append reply [] m = refl
answered-append reply (b ∷ l) m =
    rw
      (
        answered-append reply l m,
        append_assoc (joined (reply b)) (answered reply l) (answered reply m),
      )
      refl

close_asks_nothing : (c : TcpConnection) → asked (handle_close c).1 ≡ []
unfolding handle_close close_socket run_close_callback connect_destroyed on_channel asked
close_asks_nothing c = ground arith

-- An open connection takes all that the callback sends.
send_all-open :
    (ms : List Bytes) (c : TcpConnection)
    → is_closed c ≡ false
    → (bytes_queued (send_all ms c).1 ≡ joined ms) × (asked (send_all ms c).1 ≡ [])
unfolding send_all send_in_loop on_channel enable_writing bytes_queued asked
send_all-open [] c h = (refl, refl)
send_all-open (m ∷ ms) c h =
    let (d, es) = send_in_loop m c in
    let still : is_closed d ≡ false = ground arith in
    let (q, a) = send_all-open ms d still in (ground (arith, q), ground (arith, a))

-- A handler queues the texts for its messages and nothing else.
abbrev pub Answers : (Bytes → List Bytes) → List Effect → Type 0
Answers reply es = bytes_queued es ≡ answered reply (asked es)

Answers-append :
    (reply : Bytes → List Bytes) (es fs : List Effect)
    → Answers reply es
    → Answers reply fs
    → Answers reply (es ++ fs)
Answers-append reply es fs h k =
    rw (queued-append es fs, asked-append es fs, answered-append reply (asked es) (asked fs), h, k)
      refl

close-Answers : (reply : Bytes → List Bytes) (c : TcpConnection) → Answers reply (handle_close c).1
unfolding answered
close-Answers reply c = let (same, w, q) = close-IsQuiet c in rw (close_asks_nothing c) q

read-Answers :
    (reply : Bytes → List Bytes) (r : Read) (c : TcpConnection)
    → Answers reply (handle_read reply r c).1
unfolding handle_read deliver bytes_queued asked answered
read-Answers reply (got b bs) c = elim (Bool-cases (is_closed c)) [
  | inl e ↦ rw e refl
  | inr e ↦
      let input = c.input_buffer ++ b ∷ bs in
      let (q, a) = send_all-open (reply input) (record c { input_buffer = input }) e in
      rw (e, q, a) (sym (append-nil (joined (reply input))))
]
read-Answers reply end_of_input c = ground (arith, close-Answers reply c)
read-Answers reply read_again c = ground arith
read-Answers reply read_failed c = ground (arith, close-Answers reply c)

write-Answers :
    (reply : Bytes → List Bytes) (w : Write) (c : TcpConnection)
    → Answers reply (handle_write w c).1
unfolding handle_write after_write on_channel bytes_queued asked answered
write-Answers reply (took zero) c = ground (arith, close-Answers reply c)
write-Answers reply (took (suc n)) c = ground arith
write-Answers reply write_again c = ground arith
write-Answers reply write_failed c = ground (arith, close-Answers reply c)

callbacks-Answers :
    (reply : Bytes → List Bytes) (r : Read) (w : Write) (ks : List Callback) (c : TcpConnection)
    → Answers reply (run_callbacks reply r w ks c).1
unfolding run_callbacks run_callback
callbacks-Answers reply r w [] c = unfold bytes_queued asked answered in refl
callbacks-Answers reply r w (close_callback ∷ ks) c =
    let (d, es) = handle_close c in
    Answers-append reply es (run_callbacks reply r w ks d).1 (close-Answers reply c)
      (callbacks-Answers reply r w ks d)
callbacks-Answers reply r w (read_callback ∷ ks) c =
    let (d, es) = handle_read reply r c in
    Answers-append reply es (run_callbacks reply r w ks d).1 (read-Answers reply r c)
      (callbacks-Answers reply r w ks d)
callbacks-Answers reply r w (write_callback ∷ ks) c =
    let (d, es) = handle_write w c in
    Answers-append reply es (run_callbacks reply r w ks d).1 (write-Answers reply w c)
      (callbacks-Answers reply r w ks d)

-- So an event of a connection queues exactly what the callback sends at its messages.
pub event-Answers :
    (reply : Bytes → List Bytes) (v : Revents) (r : Read) (w : Write) (c : TcpConnection)
    → Answers reply (run_input reply (event v r w) c).1
unfolding run_input
event-Answers reply v r w c = callbacks-Answers reply r w (handle_event c.channel v) c

-- The callback of a read asks at most once, the others never.
reads : List Callback → ℕ
reads [] = 0
reads (read_callback ∷ ks) = suc (reads ks)
reads (k ∷ ks) = reads ks

read_asks :
    (reply : Bytes → List Bytes) (r : Read) (c : TcpConnection)
    → length (asked (handle_read reply r c).1) ≤ 1
unfolding handle_read deliver asked
read_asks reply (got b bs) c = elim (Bool-cases (is_closed c)) [
  | inl e ↦ rw e (omega arith)
  | inr e ↦
      let input = c.input_buffer ++ b ∷ bs in
      let (q, a) = send_all-open (reply input) (record c { input_buffer = input }) e in
      rw (e, a) (omega arith)
]
read_asks reply end_of_input c = ground (arith, close_asks_nothing c)
read_asks reply read_again c = ground arith
read_asks reply read_failed c = ground (arith, close_asks_nothing c)

write_asks : (w : Write) (c : TcpConnection) → asked (handle_write w c).1 ≡ []
unfolding handle_write after_write on_channel asked
write_asks (took zero) c = ground (arith, close_asks_nothing c)
write_asks (took (suc n)) c = ground arith
write_asks write_again c = ground arith
write_asks write_failed c = ground (arith, close_asks_nothing c)

callbacks_ask :
    (reply : Bytes → List Bytes) (r : Read) (w : Write) (ks : List Callback) (c : TcpConnection)
    → length (asked (run_callbacks reply r w ks c).1) ≤ reads ks
unfolding run_callbacks run_callback reads
callbacks_ask reply r w [] c = unfold asked in omega arith
callbacks_ask reply r w (close_callback ∷ ks) c =
    let (d, es) = handle_close c in
    rw (asked-append es (run_callbacks reply r w ks d).1, close_asks_nothing c)
      (callbacks_ask reply r w ks d)
callbacks_ask reply r w (write_callback ∷ ks) c =
    let (d, es) = handle_write w c in
    rw (asked-append es (run_callbacks reply r w ks d).1, write_asks w c)
      (callbacks_ask reply r w ks d)
callbacks_ask reply r w (read_callback ∷ ks) c =
    let (d, es) = handle_read reply r c in
    let fs = (run_callbacks reply r w ks d).1 in
    omega (
      arith,
      ap length (asked-append es fs),
      length-append (asked es) (asked fs),
      read_asks reply r c,
      callbacks_ask reply r w ks d,
    )

event_reads : (k : Channel) (v : Revents) → reads (handle_event k v) ≤ 1
unfolding handle_event reads
event_reads k v = ground arith

-- An event has one message at most.
pub event_asks_once :
    (reply : Bytes → List Bytes) (v : Revents) (r : Read) (w : Write) (c : TcpConnection)
    → length (asked (run_input reply (event v r w) c).1) ≤ 1
unfolding run_input
event_asks_once reply v r w c =
    omega (arith, callbacks_ask reply r w (handle_event c.channel v) c, event_reads c.channel v)
