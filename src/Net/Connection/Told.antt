-- ===== src/Net/Connection/Told.antt =====
-- When the close callback of a connection is called.
use lfgateway.Base.{
  zero, suc, ◌≡◌, refl, inl, inr, Bool, true, false, none, List, [], ◌∷◌, ◌++◌, arith,
  if◌then◌else◌, Option-cases,
}
use lfgateway.Base.Text.{Bytes}
use lfgateway.Net.Channel.{remove}
use lfgateway.Net.Connection.{
  TcpConnection, Effect, ctl, queued, written, message, closed_callback, closed, on_channel,
  connect_destroyed, handle_close, send_in_loop, handle_read, handle_write, run_input, Read, got,
  end_of_input, read_again, read_failed, Write, took, write_again, write_failed, Input,
  close_socket, run_close_callback, deliver, after_write,
}
use lfgateway.Net.Connection.Law.{IsSequential, IsHandled, send_all-law, input-law}

-- Whether the close callback was called, which is `removeConnection`.
unfoldable pub calls_back : List Effect → Bool
calls_back [] = false
calls_back (closed_callback ∷ es) = true
calls_back (e ∷ es) = calls_back es

calls_back-append :
    (es fs : List Effect) → calls_back (es ++ fs) ≡ (if calls_back es then true else calls_back fs)
unfolding calls_back
calls_back-append [] fs = refl
calls_back-append (ctl k ∷ es) fs = calls_back-append es fs
calls_back-append (queued m ∷ es) fs = calls_back-append es fs
calls_back-append (written m ∷ es) fs = calls_back-append es fs
calls_back-append (message m ∷ es) fs = calls_back-append es fs
calls_back-append (closed_callback ∷ es) fs = refl
calls_back-append (closed fd ∷ es) fs = calls_back-append es fs

-- A connection that has its socket loses it exactly with the call of the close callback, and one that
-- has none does nothing of either.
abbrev pub Tells : TcpConnection → TcpConnection × List Effect → Type 0
Tells c r = r.0.sockfd ≡ (if calls_back r.1 then none else c.sockfd)

Tells-append :
    (c d e : TcpConnection) (es fs : List Effect)
    → Tells c (d, es)
    → Tells d (e, fs)
    → Tells c (e, es ++ fs)
Tells-append c d e es fs h k = ground (arith, calls_back-append es fs)

close-Tells : (c : TcpConnection) → Tells c (handle_close c)
unfolding handle_close close_socket run_close_callback calls_back
close-Tells c = elim (Option-cases c.sockfd) [
  | inl e ↦ ground arith
  | inr (fd, e) ↦
      let before = (on_channel remove c).1 in
      let rest = (connect_destroyed (on_channel remove c).0).1 in
      ground (
        arith,
        calls_back-append (before ++ closed_callback ∷ rest) (closed fd ∷ []),
        calls_back-append before (closed_callback ∷ rest),
      )
]

-- Steps that call nothing back and leave the socket.
quiet-Tells :
    (c d : TcpConnection) (es : List Effect)
    → d.sockfd ≡ c.sockfd
    → calls_back es ≡ false
    → Tells c (d, es)
quiet-Tells c d es same silent = ground arith

send-Tells : (m : Bytes) (c : TcpConnection) → Tells c (send_in_loop m c)
unfolding send_in_loop on_channel calls_back
send-Tells m c = ground arith

sequential : IsSequential Tells
unfolding calls_back
sequential = record { nothing = λ c. refl; both = Tells-append }

read-Tells :
    (reply : Bytes → List Bytes) (r : Read) (c : TcpConnection) → Tells c (handle_read reply r c)
unfolding handle_read deliver calls_back
read-Tells reply (got b bs) c =
    let d = record c { input_buffer = c.input_buffer ++ b ∷ bs } in
    ground (arith, send_all-law Tells sequential send-Tells (reply d.input_buffer) d)
read-Tells reply end_of_input c = ground (arith, close-Tells c)
read-Tells reply read_again c = ground arith
read-Tells reply read_failed c = ground (arith, close-Tells c)

write-Tells : (w : Write) (c : TcpConnection) → Tells c (handle_write w c)
unfolding handle_write after_write on_channel calls_back
write-Tells (took zero) c = ground (arith, close-Tells c)
write-Tells (took (suc n)) c = ground arith
write-Tells write_again c = ground arith
write-Tells write_failed c = ground (arith, close-Tells c)

destroyed-Tells : (c : TcpConnection) → Tells c (connect_destroyed c)
unfolding connect_destroyed on_channel calls_back
destroyed-Tells c = ground arith

handled : IsHandled Tells
handled = record {
  closes = close-Tells;
  sent = send-Tells;
  reads = read-Tells;
  writes = write-Tells;
  destroyed = destroyed-Tells;
}

pub input-Tells :
    (reply : Bytes → List Bytes) (i : Input) (c : TcpConnection) → Tells c (run_input reply i c)
input-Tells = input-law Tells sequential handled
