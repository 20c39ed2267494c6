-- ===== src/Net/Connection/Final.antt =====
-- A connection that is closed stays closed, and takes no message.
use lfgateway.Base.{◌≡◌, true, List, [], arith, Option-cases, inl, inr}
use lfgateway.Base.Text.{Bytes}
use lfgateway.Net.Connection.{
  TcpConnection, Effect, is_closed, on_channel, handle_close, close_socket, connect_destroyed,
  send_in_loop, handle_read, handle_write, Input, run_input, Read, Write, sends,
}
use lfgateway.Net.Connection.Law.{IsSequential, IsHandled, input-law}
use lfgateway.Net.Connection.Silent.{no_reply}
use lfgateway.Net.Connection.Written.{bytes_queued}

abbrev pub StaysClosed : TcpConnection → TcpConnection × List Effect → Type 0
StaysClosed c r = is_closed c ≡ true → is_closed r.0 ≡ true

sequential : IsSequential StaysClosed
sequential = record { nothing = λ c h. h; both = λ c d e es fs h k x. k (h x) }

close-StaysClosed : (c : TcpConnection) → StaysClosed c (handle_close c)
unfolding handle_close close_socket
close-StaysClosed c h = elim (Option-cases c.sockfd) [
  | inl e ↦ ground arith
  | inr (fd, e) ↦ ground arith
]

send-StaysClosed : (m : Bytes) (c : TcpConnection) → StaysClosed c (send_in_loop m c)
unfolding send_in_loop
send-StaysClosed m c h = ground arith

read-StaysClosed :
    (reply : Bytes → List Bytes) (r : Read) (c : TcpConnection)
    → StaysClosed c (handle_read reply r c)
unfolding handle_read
read-StaysClosed reply r c h = ground arith

write-StaysClosed : (w : Write) (c : TcpConnection) → StaysClosed c (handle_write w c)
unfolding handle_write
write-StaysClosed w c h = ground arith

destroyed-StaysClosed : (c : TcpConnection) → StaysClosed c (connect_destroyed c)
unfolding connect_destroyed on_channel
destroyed-StaysClosed c h = ground arith

handled : IsHandled StaysClosed
handled = record {
  closes = close-StaysClosed;
  sent = send-StaysClosed;
  reads = read-StaysClosed;
  writes = write-StaysClosed;
  destroyed = destroyed-StaysClosed;
}

pub input-StaysClosed :
    (reply : Bytes → List Bytes) (i : Input) (c : TcpConnection)
    → StaysClosed c (run_input reply i c)
input-StaysClosed = input-law StaysClosed sequential handled

-- Nothing is queued on it.
pub closed_takes_nothing :
    (m : Bytes) (c : TcpConnection)
    → is_closed c ≡ true
    → bytes_queued (run_input no_reply (sends m) c).1 ≡ []
unfolding run_input send_in_loop bytes_queued
closed_takes_nothing m c h = ground arith
