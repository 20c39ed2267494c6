-- ===== src/Net/Connection/Armed.antt =====
-- A connection with something to write waits for the socket to take it.
use lfgateway.Base.{
  ℕ, zero, suc, ◌≡◌, ◌⊎◌, inl, inr, refl, true, none, List, [], ◌∷◌, ◌++◌, arith, Option-cases,
  Bool-cases, drop,
}
use lfgateway.Base.Text.{Bytes, is_nil}
use lfgateway.Net.Channel.{
  Callback, close_callback, read_callback, write_callback, handle_event, enable_writing, update,
  update_channel,
}
use lfgateway.Net.Connection.{
  TcpConnection, on_channel, connect_destroyed, handle_close, send_in_loop, send_all, handle_read,
  handle_write, run_callback, run_callbacks, run_input, run_inputs, Read, got, end_of_input,
  read_again, read_failed, Write, took, write_again, write_failed, Input, event, sends, destroys,
  close_socket, deliver, after_write, is_closed,
}

-- The connection is closed or `EPOLLOUT` is set where the output buffer has bytes.
abbrev pub IsArmed : TcpConnection → Type 0
IsArmed c = (is_closed c ≡ true) ⊎ ((c.output_buffer ≡ []) ⊎ (c.channel.events.writing ≡ true))

close-closed : (c : TcpConnection) → (handle_close c).0.sockfd ≡ none
unfolding handle_close close_socket
close-closed c = elim (Option-cases c.sockfd) [ inl e ↦ ground arith | inr (fd, e) ↦ ground arith ]

close-IsArmed : (c : TcpConnection) → IsArmed (handle_close c).0
close-IsArmed c = let e = close-closed c in inl (ground arith)

send-IsArmed : (m : Bytes) (c : TcpConnection) → IsArmed c → IsArmed (send_in_loop m c).0
unfolding send_in_loop on_channel enable_writing update update_channel
send-IsArmed m c h = ground arith

send_all-IsArmed : (ms : List Bytes) (c : TcpConnection) → IsArmed c → IsArmed (send_all ms c).0
unfolding send_all
send_all-IsArmed [] c h = h
send_all-IsArmed (m ∷ ms) c h = send_all-IsArmed ms (send_in_loop m c).0 (send-IsArmed m c h)

read-IsArmed :
    (reply : Bytes → List Bytes) (r : Read) (c : TcpConnection)
    → IsArmed c
    → IsArmed (handle_read reply r c).0
unfolding handle_read deliver
read-IsArmed reply (got b bs) c h =
    let d = record c { input_buffer = c.input_buffer ++ b ∷ bs } in
    let sent = send_all-IsArmed (reply d.input_buffer) d h in ground arith
read-IsArmed reply end_of_input c h = let e = close-IsArmed c in ground arith
read-IsArmed reply read_again c h = ground arith
read-IsArmed reply read_failed c h = let e = close-IsArmed c in ground arith

is_nil_iff : (s : Bytes) → is_nil s ≡ true → s ≡ []
is_nil_iff [] h = refl
is_nil_iff (b ∷ s) h = cc

after_write-IsArmed :
    (n : ℕ) (c : TcpConnection) → c.channel.events.writing ≡ true → IsArmed (after_write n c).0
unfolding after_write on_channel
after_write-IsArmed n c h = elim (Bool-cases (is_nil (drop n c.output_buffer))) [
  | inl e ↦ let gone = is_nil_iff (drop n c.output_buffer) e in inr (inl (ground arith))
  | inr e ↦ inr (inr (ground arith))
]

write-IsArmed : (w : Write) (c : TcpConnection) → IsArmed c → IsArmed (handle_write w c).0
unfolding handle_write
write-IsArmed (took zero) c h = let e = close-IsArmed c in ground arith
write-IsArmed (took (suc n)) c h = elim (Bool-cases (c.channel.events.writing)) [
  | inl e ↦ let armed = after_write-IsArmed (suc n) c e in ground arith
  | inr e ↦ ground arith
]
write-IsArmed write_again c h = ground arith
write-IsArmed write_failed c h = let e = close-IsArmed c in ground arith

callbacks-IsArmed :
    (reply : Bytes → List Bytes) (r : Read) (w : Write) (ks : List Callback) (c : TcpConnection)
    → IsArmed c
    → IsArmed (run_callbacks reply r w ks c).0
unfolding run_callbacks run_callback
callbacks-IsArmed reply r w [] c h = h
callbacks-IsArmed reply r w (close_callback ∷ ks) c h =
    callbacks-IsArmed reply r w ks (handle_close c).0 (close-IsArmed c)
callbacks-IsArmed reply r w (read_callback ∷ ks) c h =
    callbacks-IsArmed reply r w ks (handle_read reply r c).0 (read-IsArmed reply r c h)
callbacks-IsArmed reply r w (write_callback ∷ ks) c h =
    callbacks-IsArmed reply r w ks (handle_write w c).0 (write-IsArmed w c h)

destroyed-IsArmed : (c : TcpConnection) → IsArmed c → IsArmed (connect_destroyed c).0
unfolding connect_destroyed on_channel
destroyed-IsArmed c h = ground arith

input-IsArmed :
    (reply : Bytes → List Bytes) (i : Input) (c : TcpConnection)
    → IsArmed c
    → IsArmed (run_input reply i c).0
unfolding run_input
input-IsArmed reply (event v r w) c h = callbacks-IsArmed reply r w (handle_event c.channel v) c h
input-IsArmed reply (sends m) c h = send-IsArmed m c h
input-IsArmed reply destroys c h = destroyed-IsArmed c h

-- Nothing gets stuck in the output buffer: from a connection that is closed, has nothing to write or
-- asks for `EPOLLOUT`, over any events, a connection that is open and has bytes to write asks
-- for `EPOLLOUT`.
pub inputs-IsArmed :
    (reply : Bytes → List Bytes) (is : List Input) (c : TcpConnection)
    → IsArmed c
    → IsArmed (run_inputs reply is c).0
unfolding run_inputs
inputs-IsArmed reply [] c h = h
inputs-IsArmed reply (i ∷ is) c h =
    inputs-IsArmed reply is (run_input reply i c).0 (input-IsArmed reply i c h)
