-- ===== src/Net/Connection/Marked.antt =====
-- A connection's channel is removed or registered, and `connectDestroyed` makes it removed.
use lfgateway.Base.{ℕ, zero, suc, ◌≡◌, ◌⊎◌, inl, true, false, List, [], ◌∷◌, ◌++◌, arith}
use lfgateway.Base.Text.{Bytes}
use lfgateway.Net.Channel.{
  Revents, handle_event, enable_reading, enable_writing, disable_writing, disable_all, update,
  update_channel, remove, remove_channel,
}
use lfgateway.Net.Connection.{
  TcpConnection, Effect, on_channel, connect_destroyed, handle_close, send_in_loop, handle_read,
  handle_write, run_input, establish, Read, got, end_of_input, read_again, read_failed, Write, took,
  write_again, write_failed, Input, close_socket, run_close_callback, deliver, after_write,
  is_closed,
}
use lfgateway.Net.Connection.Law.{IsSequential, IsHandled, send_all-law, input-law}

-- The channel is removed, or it is registered and the socket open.
abbrev pub IsMarked : TcpConnection → Type 0
IsMarked c = (c.channel.removed ≡ true) ⊎ ((c.channel.indexed ≡ true) × (is_closed c ≡ false))

abbrev KeepsMark : TcpConnection → TcpConnection × List Effect → Type 0
KeepsMark c r = IsMarked c → IsMarked r.0

sequential : IsSequential KeepsMark
sequential = record { nothing = λ c h. h; both = λ c d e es fs h k x. k (h x) }

pub establish-IsMarked : (fd : ℕ) → IsMarked (establish fd).0
unfolding establish on_channel enable_reading update update_channel
establish-IsMarked fd = ground arith

-- From a channel that is removed or registered, `connectDestroyed` makes one that is removed.
pub destroyed-removed :
    (c : TcpConnection) → IsMarked c → (connect_destroyed c).0.channel.removed ≡ true
unfolding connect_destroyed on_channel
destroyed-removed c h = ground arith

destroyed-KeepsMark : (c : TcpConnection) → KeepsMark c (connect_destroyed c)
destroyed-KeepsMark c h = inl (destroyed-removed c h)

close-KeepsMark : (c : TcpConnection) → KeepsMark c (handle_close c)
unfolding handle_close close_socket run_close_callback connect_destroyed on_channel remove
    remove_channel disable_all
close-KeepsMark c h = ground arith

send-KeepsMark : (m : Bytes) (c : TcpConnection) → KeepsMark c (send_in_loop m c)
unfolding send_in_loop on_channel enable_writing update update_channel
send-KeepsMark m c h = ground arith

read-KeepsMark :
    (reply : Bytes → List Bytes) (r : Read) (c : TcpConnection)
    → KeepsMark c (handle_read reply r c)
unfolding handle_read deliver
read-KeepsMark reply (got b bs) c h =
    let d = record c { input_buffer = c.input_buffer ++ b ∷ bs } in
    let sent = send_all-law KeepsMark sequential send-KeepsMark (reply d.input_buffer) d h in
    ground arith
read-KeepsMark reply end_of_input c h = let k = close-KeepsMark c h in ground arith
read-KeepsMark reply read_again c h = ground arith
read-KeepsMark reply read_failed c h = let k = close-KeepsMark c h in ground arith

after_write-KeepsMark : (n : ℕ) (c : TcpConnection) → KeepsMark c (after_write n c)
unfolding after_write on_channel disable_writing update update_channel
after_write-KeepsMark n c h = ground arith

write-KeepsMark : (w : Write) (c : TcpConnection) → KeepsMark c (handle_write w c)
unfolding handle_write
write-KeepsMark (took zero) c h = let k = close-KeepsMark c h in ground arith
write-KeepsMark (took (suc n)) c h = let k = after_write-KeepsMark (suc n) c h in ground arith
write-KeepsMark write_again c h = ground arith
write-KeepsMark write_failed c h = let k = close-KeepsMark c h in ground arith

handled : IsHandled KeepsMark
handled = record {
  closes = close-KeepsMark;
  sent = send-KeepsMark;
  reads = read-KeepsMark;
  writes = write-KeepsMark;
  destroyed = destroyed-KeepsMark;
}

pub input-KeepsMark :
    (reply : Bytes → List Bytes) (i : Input) (c : TcpConnection) → KeepsMark c (run_input reply i c)
input-KeepsMark = input-law KeepsMark sequential handled

-- A removed channel makes no callback.
pub removed_is_silent :
    (c : TcpConnection) (v : Revents) → c.channel.removed ≡ true → handle_event c.channel v ≡ []
unfolding handle_event
removed_is_silent c v h = rw h
