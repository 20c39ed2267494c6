-- ===== src/Net/Connection/Silent.antt =====
-- A connection whose message callback sends nothing itself.
use lfgateway.Base.{zero, suc, ◌≡◌, refl, List, [], ◌∷◌, arith, append-nil, false}
use lfgateway.Base.Text.{Bytes}
use lfgateway.Net.Channel.{
  Callback, close_callback, read_callback, write_callback, handle_event, Revents,
}
use lfgateway.Net.Connection.{
  TcpConnection, handle_close, handle_read, handle_write, run_callback, run_callbacks, run_input,
  send_in_loop, on_channel, send_all, is_closed, deliver, after_write, Read, got, end_of_input,
  read_again, read_failed, Write, took, write_again, write_failed, event, sends,
}
use lfgateway.Net.Connection.Written.{bytes_queued, queued-append, close-IsQuiet}

abbrev pub no_reply : Bytes → List Bytes
no_reply b = []

read_silent : (r : Read) (c : TcpConnection) → bytes_queued (handle_read no_reply r c).1 ≡ []
unfolding handle_read deliver send_all bytes_queued
read_silent (got b bs) c = ground arith
read_silent end_of_input c = let (same, w, q) = close-IsQuiet c in ground arith
read_silent read_again c = ground arith
read_silent read_failed c = let (same, w, q) = close-IsQuiet c in ground arith

write_silent : (w : Write) (c : TcpConnection) → bytes_queued (handle_write w c).1 ≡ []
unfolding handle_write after_write on_channel bytes_queued
write_silent (took zero) c = let (same, w, q) = close-IsQuiet c in ground arith
write_silent (took (suc n)) c = ground arith
write_silent write_again c = ground arith
write_silent write_failed c = let (same, w, q) = close-IsQuiet c in ground arith

callbacks_silent :
    (r : Read) (w : Write) (ks : List Callback) (c : TcpConnection)
    → bytes_queued (run_callbacks no_reply r w ks c).1 ≡ []
unfolding run_callbacks run_callback
callbacks_silent r w [] c = unfold bytes_queued in refl
callbacks_silent r w (close_callback ∷ ks) c =
    let (same, none_written, q) = close-IsQuiet c in
    let (d, es) = handle_close c in
    let rest = run_callbacks no_reply r w ks d in
    rw (queued-append es rest.1, q, callbacks_silent r w ks d) refl
callbacks_silent r w (read_callback ∷ ks) c =
    let (d, es) = handle_read no_reply r c in
    let rest = run_callbacks no_reply r w ks d in
    rw (queued-append es rest.1, read_silent r c, callbacks_silent r w ks d) refl
callbacks_silent r w (write_callback ∷ ks) c =
    let (d, es) = handle_write w c in
    let rest = run_callbacks no_reply r w ks d in
    rw (queued-append es rest.1, write_silent w c, callbacks_silent r w ks d) refl

-- An event queues nothing.
pub event_silent :
    (v : Revents) (r : Read) (w : Write) (c : TcpConnection)
    → bytes_queued (run_input no_reply (event v r w) c).1 ≡ []
unfolding run_input
event_silent v r w c = callbacks_silent r w (handle_event c.channel v) c

-- A message that is sent to an open connection is queued.
pub open_queues :
    (m : Bytes) (c : TcpConnection)
    → is_closed c ≡ false
    → bytes_queued (run_input no_reply (sends m) c).1 ≡ m
unfolding run_input send_in_loop on_channel bytes_queued
open_queues m c h = ground (arith, append-nil m)
