-- ===== src/Net/Connection/Written.antt =====
-- What a connection writes, against what was sent on it.
use lfgateway.Base.{
  ℕ, zero, suc, ◌≡◌, refl, sym, inl, inr, List, [], ◌∷◌, ◌++◌, append_assoc, append-nil, arith,
  list_laws, Option-cases, take, take-append-drop,
}
use lfgateway.Base.Text.{Bytes}
use lfgateway.Net.Channel.{remove}
use lfgateway.Net.Connection.{
  TcpConnection, Effect, ctl, queued, written, message, closed_callback, closed, on_channel,
  connect_destroyed, handle_close, send_in_loop, handle_read, handle_write, run_input, run_inputs,
  Read, got, end_of_input, read_again, read_failed, Write, took, write_again, write_failed, Input,
  close_socket, run_close_callback, deliver, after_write,
}
use lfgateway.Net.Connection.Law.{IsSequential, IsHandled, send_all-law, input-law, inputs-law}

-- The bytes that `write` took, in order.
unfoldable pub bytes_written : List Effect → Bytes
bytes_written [] = []
bytes_written (written b ∷ es) = b ++ bytes_written es
bytes_written (e ∷ es) = bytes_written es

-- The messages that went to the output buffer, in order.
unfoldable pub bytes_queued : List Effect → Bytes
bytes_queued [] = []
bytes_queued (queued b ∷ es) = b ++ bytes_queued es
bytes_queued (e ∷ es) = bytes_queued es

-- What the kernel took and what is left to write is what was there and what was added.
abbrev pub Flows : TcpConnection → TcpConnection × List Effect → Type 0
Flows c r = bytes_written r.1 ++ r.0.output_buffer ≡ c.output_buffer ++ bytes_queued r.1

pub written-append :
    (es fs : List Effect) → bytes_written (es ++ fs) ≡ bytes_written es ++ bytes_written fs
unfolding bytes_written
written-append [] fs = refl
written-append (ctl k ∷ es) fs = written-append es fs
written-append (queued m ∷ es) fs = written-append es fs
written-append (written m ∷ es) fs = simp (list_laws, written-append es fs)
written-append (message m ∷ es) fs = written-append es fs
written-append (closed_callback ∷ es) fs = written-append es fs
written-append (closed fd ∷ es) fs = written-append es fs

pub queued-append :
    (es fs : List Effect) → bytes_queued (es ++ fs) ≡ bytes_queued es ++ bytes_queued fs
unfolding bytes_queued
queued-append [] fs = refl
queued-append (ctl k ∷ es) fs = queued-append es fs
queued-append (queued m ∷ es) fs = simp (list_laws, queued-append es fs)
queued-append (written m ∷ es) fs = queued-append es fs
queued-append (message m ∷ es) fs = queued-append es fs
queued-append (closed_callback ∷ es) fs = queued-append es fs
queued-append (closed fd ∷ es) fs = queued-append es fs

Flows-append :
    (c d e : TcpConnection) (es fs : List Effect)
    → Flows c (d, es)
    → Flows d (e, fs)
    → Flows c (e, es ++ fs)
Flows-append c d e es fs h k =
    rw
      (
        written-append es fs,
        queued-append es fs,
        append_assoc (bytes_written es) (bytes_written fs) e.output_buffer,
        k,
        ← append_assoc (bytes_written es) d.output_buffer (bytes_queued fs),
        h,
      )
      (append_assoc c.output_buffer (bytes_queued es) (bytes_queued fs))

-- Steps that neither write nor queue.
quiet-Flows :
    (c d : TcpConnection) (es : List Effect)
    → d.output_buffer ≡ c.output_buffer
    → bytes_written es ≡ []
    → bytes_queued es ≡ []
    → Flows c (d, es)
quiet-Flows c d es same w q = rw (same, w, q) (sym (append-nil c.output_buffer))

abbrev pub IsQuiet : TcpConnection → TcpConnection × List Effect → Type 0
IsQuiet c r =
    (r.0.output_buffer ≡ c.output_buffer) × (bytes_written r.1 ≡ []) × (bytes_queued r.1 ≡ [])

destroyed-IsQuiet : (c : TcpConnection) → IsQuiet c (connect_destroyed c)
unfolding connect_destroyed on_channel bytes_written bytes_queued
destroyed-IsQuiet c = (ground arith, ground arith, ground arith)

callback-IsQuiet : (c : TcpConnection) → IsQuiet c (run_close_callback (on_channel remove c))
unfolding run_close_callback on_channel bytes_written bytes_queued
callback-IsQuiet c =
    let (same, w, q) = destroyed-IsQuiet (record c { channel = (remove c.channel).0 }) in
    (same, w, q)

pub close-IsQuiet : (c : TcpConnection) → IsQuiet c (handle_close c)
unfolding handle_close close_socket bytes_written bytes_queued
close-IsQuiet c = elim (Option-cases c.sockfd) [
  | inl e ↦ (ground arith, ground arith, ground arith)
  | inr (fd, e) ↦
      let (same, w, q) = callback-IsQuiet c in
      let before = (run_close_callback (on_channel remove c)).1 in
      let no_write = written-append before (closed fd ∷ []) in
      let no_queue = queued-append before (closed fd ∷ []) in
      (ground (arith, same), ground (arith, w, no_write), ground (arith, q, no_queue))
]

close-Flows : (c : TcpConnection) → Flows c (handle_close c)
close-Flows c =
    let (same, w, q) = close-IsQuiet c in
    quiet-Flows c (handle_close c).0 (handle_close c).1 same w q

send-Flows : (m : Bytes) (c : TcpConnection) → Flows c (send_in_loop m c)
unfolding send_in_loop on_channel bytes_written bytes_queued
send-Flows m c = ground (arith, append-nil c.output_buffer, append-nil m)

sequential : IsSequential Flows
unfolding bytes_written bytes_queued
sequential = record { nothing = λ c. sym (append-nil c.output_buffer); both = Flows-append }

read-Flows :
    (reply : Bytes → List Bytes) (r : Read) (c : TcpConnection) → Flows c (handle_read reply r c)
unfolding handle_read deliver bytes_written bytes_queued
read-Flows reply (got b bs) c =
    let d = record c { input_buffer = c.input_buffer ++ b ∷ bs } in
    ground (
      arith,
      append-nil c.output_buffer,
      send_all-law Flows sequential send-Flows (reply d.input_buffer) d,
    )
read-Flows reply end_of_input c = ground (arith, append-nil c.output_buffer, close-Flows c)
read-Flows reply read_again c = ground (arith, append-nil c.output_buffer)
read-Flows reply read_failed c = ground (arith, append-nil c.output_buffer, close-Flows c)

after_write-Flows : (n : ℕ) (c : TcpConnection) → Flows c (after_write n c)
unfolding after_write on_channel bytes_written bytes_queued
after_write-Flows n c = ground (
  arith,
  append-nil (take n c.output_buffer),
  append-nil c.output_buffer,
  take-append-drop n c.output_buffer,
)

write-Flows : (w : Write) (c : TcpConnection) → Flows c (handle_write w c)
unfolding handle_write bytes_written bytes_queued
write-Flows (took zero) c = ground (arith, append-nil c.output_buffer, close-Flows c)
write-Flows (took (suc n)) c =
    ground (arith, append-nil c.output_buffer, after_write-Flows (suc n) c)
write-Flows write_again c = ground (arith, append-nil c.output_buffer)
write-Flows write_failed c = ground (arith, append-nil c.output_buffer, close-Flows c)

destroyed-Flows : (c : TcpConnection) → Flows c (connect_destroyed c)
destroyed-Flows c =
    let (same, w, q) = destroyed-IsQuiet c in
    quiet-Flows c (connect_destroyed c).0 (connect_destroyed c).1 same w q

handled : IsHandled Flows
handled = record {
  closes = close-Flows;
  sent = send-Flows;
  reads = read-Flows;
  writes = write-Flows;
  destroyed = destroyed-Flows;
}

pub input-Flows :
    (reply : Bytes → List Bytes) (i : Input) (c : TcpConnection) → Flows c (run_input reply i c)
input-Flows = input-law Flows sequential handled

-- No byte is lost, added or reordered on the way out: over any events, what the kernel has taken
-- followed by the output buffer is the buffer at the start followed by the messages that were
-- put into it, also where the kernel takes a part of the buffer or reports an error.
pub inputs-Flows :
    (reply : Bytes → List Bytes) (is : List Input) (c : TcpConnection)
    → Flows c (run_inputs reply is c)
inputs-Flows = inputs-law Flows sequential handled
