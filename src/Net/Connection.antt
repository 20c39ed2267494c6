-- ===== src/Net/Connection.antt =====
-- `TcpConnection` (src/net/tcp_connection.cpp), on the loop's thread. Its callbacks are those that
-- `TcpServer::newConnection` sets: the close callback takes the connection out of the server's
-- map and calls `connectDestroyed`; what the message callback sends at once is a parameter.
pub mod Law
pub mod Armed
pub mod Closed
pub mod Told
pub mod Written
pub mod Silent
pub mod Asked
pub mod Marked
pub mod Final
use lfgateway.Base.{
  ℕ, zero, suc, Bool, true, false, Option, none, some, List, [], ◌∷◌, ◌++◌, if◌then◌else◌, take,
  drop,
}
use lfgateway.Base.Text.{Bytes, is_nil}
use lfgateway.Net.Channel.{
  Channel, channel, EpollCtl, enable_reading, enable_writing, disable_writing, disable_all,
  mark_as_removed, remove, Revents, Callback, close_callback, read_callback, write_callback,
  handle_event,
}

-- `sockfd` is `none` for -1.
pub record TcpConnection : Type 0 where
  pub sockfd : Option ℕ
  pub channel : Channel
  pub input_buffer : Bytes
  pub output_buffer : Bytes

-- What a handler does, in order: calls of the kernel and of its callbacks, and `queued` for each
-- message that goes to the output buffer.
pub data Effect : Type 0 where
  ctl : List EpollCtl → Effect
  queued : Bytes → Effect
  written : Bytes → Effect
  message : Bytes → Effect
  closed_callback : Effect
  closed : ℕ → Effect

-- What `read` gives: bytes, of which there is one at least, the end, `EAGAIN` or another error.
pub data Read : Type 0 where
  got : ℕ → Bytes → Read
  end_of_input read_again read_failed : Read

-- What `write` gives: the number of bytes it took, `EAGAIN` or another error.
pub data Write : Type 0 where
  took : ℕ → Write
  write_again write_failed : Write

unfoldable pub on_channel :
    (Channel → Channel × List EpollCtl) → TcpConnection → TcpConnection × List Effect
on_channel f c = let (k, calls) = f c.channel in (record c { channel = k }, ctl calls ∷ [])

-- `sockfd_ < 0 || channel_.isRemoved()`
abbrev pub is_closed : TcpConnection → Bool
is_closed c = elim c.sockfd [ none ↦ true | some fd ↦ c.channel.removed ]

abbrev marked : TcpConnection × List Effect → TcpConnection × List Effect
marked (c, es) = (record c { channel = mark_as_removed c.channel }, es)

unfoldable pub connect_destroyed : TcpConnection → TcpConnection × List Effect
unfolding on_channel
connect_destroyed c = if c.channel.indexed then marked (on_channel disable_all c) else (c, [])

close_socket : ℕ → TcpConnection × List Effect → TcpConnection × List Effect
close_socket fd (c, es) = (record c { sockfd = none }, es ++ closed fd ∷ [])

run_close_callback : TcpConnection × List Effect → TcpConnection × List Effect
unfolding connect_destroyed
run_close_callback (c, es) = let (d, fs) = connect_destroyed c in (d, es ++ closed_callback ∷ fs)

unfoldable pub handle_close : TcpConnection → TcpConnection × List Effect
unfolding on_channel close_socket run_close_callback
handle_close c = elim c.sockfd [
  | none ↦ (c, [])
  | some fd ↦ close_socket fd (run_close_callback (on_channel remove c))
]

unfoldable pub send_in_loop : Bytes → TcpConnection → TcpConnection × List Effect
unfolding on_channel
send_in_loop msg c =
    if is_closed c
    then (c, [])
    else let d = record c { output_buffer = c.output_buffer ++ msg } in
      if d.channel.events.writing
      then (d, queued msg ∷ [])
      else let (e, es) = on_channel enable_writing d in (e, queued msg ∷ es)

unfoldable pub send_all : List Bytes → TcpConnection → TcpConnection × List Effect
unfolding send_in_loop
send_all [] c = (c, [])
send_all (m ∷ ms) c = let (d, es) = send_in_loop m c in let (e, fs) = send_all ms d in (e, es ++ fs)

-- The message callback on the input so far, which sends `reply` of it, and the clearing of the input.
deliver : (Bytes → List Bytes) → TcpConnection → TcpConnection × List Effect
unfolding send_all
deliver reply c =
    let (d, es) = send_all (reply c.input_buffer) c in
    (record d { input_buffer = [] }, message c.input_buffer ∷ es)

unfoldable pub handle_read :
    (Bytes → List Bytes) → Read → TcpConnection → TcpConnection × List Effect
unfolding handle_close deliver
handle_read reply r c = if is_closed c then (c, []) else elim r [
  | got b bs ↦ deliver reply (record c { input_buffer = c.input_buffer ++ b ∷ bs })
  | end_of_input ↦ handle_close c
  | read_again ↦ (c, [])
  | read_failed ↦ handle_close c
]

-- `outputBuffer_.erase(0, n)` and the end of the waiting for more room.
after_write : ℕ → TcpConnection → TcpConnection × List Effect
unfolding on_channel
after_write n c =
    let d = record c { output_buffer = drop n c.output_buffer } in
    let (e, es) = (if is_nil d.output_buffer then on_channel disable_writing d else (d, [])) in
    (e, written (take n c.output_buffer) ∷ es)

unfoldable pub handle_write : Write → TcpConnection → TcpConnection × List Effect
unfolding handle_close after_write
handle_write w c =
    if is_closed c
    then (c, [])
    else if c.channel.events.writing
    then elim w [
      | took zero ↦ handle_close c
      | took (suc n) ↦ after_write (suc n) c
      | write_again ↦ (c, [])
      | write_failed ↦ handle_close c
    ]
    else (c, [])

-- What the loop runs for a connection: an event, with what `read` and `write` will give, a message
-- sent from another thread, or the server's destructor.
pub data Input : Type 0 where
  event : Revents → Read → Write → Input
  sends : Bytes → Input
  destroys : Input

unfoldable pub run_callback :
    (Bytes → List Bytes) → Read → Write → Callback → TcpConnection → TcpConnection × List Effect
unfolding handle_close handle_read handle_write
run_callback reply r w close_callback c = handle_close c
run_callback reply r w read_callback c = handle_read reply r c
run_callback reply r w write_callback c = handle_write w c

unfoldable pub run_callbacks :
    (Bytes → List Bytes)
    → Read
    → Write
    → List Callback
    → TcpConnection
    → TcpConnection × List Effect
unfolding run_callback
run_callbacks reply r w [] c = (c, [])
run_callbacks reply r w (k ∷ ks) c =
    let (d, es) = run_callback reply r w k c in
    let (e, fs) = run_callbacks reply r w ks d in (e, es ++ fs)

unfoldable pub run_input :
    (Bytes → List Bytes) → Input → TcpConnection → TcpConnection × List Effect
unfolding run_callbacks
run_input reply (event v r w) c = run_callbacks reply r w (handle_event c.channel v) c
run_input reply (sends m) c = send_in_loop m c
run_input reply destroys c = connect_destroyed c

unfoldable pub run_inputs :
    (Bytes → List Bytes) → List Input → TcpConnection → TcpConnection × List Effect
unfolding run_input
run_inputs reply [] c = (c, [])
run_inputs reply (i ∷ is) c =
    let (d, es) = run_input reply i c in let (e, fs) = run_inputs reply is d in (e, es ++ fs)

-- `TcpConnection::TcpConnection`, then `connectEstablished`.
unfoldable pub establish : ℕ → TcpConnection × List Effect
unfolding on_channel
establish fd =
    on_channel enable_reading
      (record { sockfd = some fd; channel = channel fd; input_buffer = []; output_buffer = [] })
