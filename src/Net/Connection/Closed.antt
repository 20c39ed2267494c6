-- ===== src/Net/Connection/Closed.antt =====
-- How often the file of a connection is closed.
use lfgateway.Base.{
  ℕ, zero, suc, ◌≡◌, refl, ap, inl, inr, none, some, List, [], ◌∷◌, ◌++◌, append_assoc, arith,
  Option-cases,
}
use lfgateway.Base.Text.{Bytes}
use lfgateway.Net.Channel.{Channel, EpollCtl, remove}
use lfgateway.Net.Connection.{
  TcpConnection, Effect, ctl, queued, written, message, closed_callback, closed, on_channel,
  connect_destroyed, handle_close, send_in_loop, handle_read, handle_write, run_inputs, establish,
  Read, got, end_of_input, read_again, read_failed, Write, took, write_again, write_failed, Input,
  close_socket, run_close_callback, deliver, after_write,
}
use lfgateway.Net.Connection.Law.{IsSequential, IsHandled, send_all-law, inputs-law}

-- The files that are closed, in order.
unfoldable pub closes : List Effect → List ℕ
closes [] = []
closes (closed fd ∷ es) = fd ∷ closes es
closes (e ∷ es) = closes es

abbrev pub owned : TcpConnection → List ℕ
owned c = elim c.sockfd [ none ↦ [] | some fd ↦ fd ∷ [] ]

-- What was closed and what is still owned is what was owned.
abbrev KeepsFile : TcpConnection → TcpConnection × List Effect → Type 0
KeepsFile c r = closes r.1 ++ owned r.0 ≡ owned c

pub closes-append : (es fs : List Effect) → closes (es ++ fs) ≡ closes es ++ closes fs
unfolding closes
closes-append [] fs = refl
closes-append (ctl k ∷ es) fs = closes-append es fs
closes-append (queued m ∷ es) fs = closes-append es fs
closes-append (written m ∷ es) fs = closes-append es fs
closes-append (message m ∷ es) fs = closes-append es fs
closes-append (closed_callback ∷ es) fs = closes-append es fs
closes-append (closed fd ∷ es) fs = ap (λ l. fd ∷ l) (closes-append es fs)

KeepsFile-append :
    (c d e : TcpConnection) (es fs : List Effect)
    → KeepsFile c (d, es)
    → KeepsFile d (e, fs)
    → KeepsFile c (e, es ++ fs)
KeepsFile-append c d e es fs h k = rw (closes-append es fs, append_assoc, k) h

on_channel-keeps :
    (f : Channel → Channel × List EpollCtl) (c : TcpConnection)
    → ((on_channel f c).0.sockfd ≡ c.sockfd) × (closes (on_channel f c).1 ≡ [])
unfolding on_channel closes
on_channel-keeps f c = (refl, refl)

pub connect_destroyed-keeps :
    (c : TcpConnection)
    → ((connect_destroyed c).0.sockfd ≡ c.sockfd) × (closes (connect_destroyed c).1 ≡ [])
unfolding connect_destroyed on_channel closes
connect_destroyed-keeps c = (ground arith, ground arith)

-- Everything before `::close` closes nothing.
callback-keeps : (c : TcpConnection) → closes (run_close_callback (on_channel remove c)).1 ≡ []
unfolding run_close_callback closes
callback-keeps c =
    let r = on_channel remove c in
    ground (
      arith,
      closes-append r.1 (closed_callback ∷ (connect_destroyed r.0).1),
      (on_channel-keeps remove c).1,
      (connect_destroyed-keeps r.0).1,
    )

close-KeepsFile : (c : TcpConnection) → KeepsFile c (handle_close c)
unfolding handle_close close_socket closes
close-KeepsFile c = elim (Option-cases c.sockfd) [
  | inl e ↦ ground arith
  | inr (fd, e) ↦
      let before = (run_close_callback (on_channel remove c)).1 in
      ground (arith, closes-append before (closed fd ∷ []), callback-keeps c)
]

quiet-KeepsFile :
    (c d : TcpConnection) (es : List Effect)
    → d.sockfd ≡ c.sockfd
    → closes es ≡ []
    → KeepsFile c (d, es)
quiet-KeepsFile c d es same no_close = ground arith

send-keeps :
    (m : Bytes) (c : TcpConnection)
    → ((send_in_loop m c).0.sockfd ≡ c.sockfd) × (closes (send_in_loop m c).1 ≡ [])
unfolding send_in_loop on_channel closes
send-keeps m c = (ground arith, ground arith)

send-KeepsFile : (m : Bytes) (c : TcpConnection) → KeepsFile c (send_in_loop m c)
send-KeepsFile m c =
    let (same, no_close) = send-keeps m c in
    quiet-KeepsFile c (send_in_loop m c).0 (send_in_loop m c).1 same no_close

sequential : IsSequential KeepsFile
unfolding closes
sequential = record { nothing = λ c. refl; both = KeepsFile-append }

read-KeepsFile :
    (reply : Bytes → List Bytes) (r : Read) (c : TcpConnection)
    → KeepsFile c (handle_read reply r c)
unfolding handle_read deliver closes
read-KeepsFile reply (got b bs) c =
    let d = record c { input_buffer = c.input_buffer ++ b ∷ bs } in
    ground (arith, send_all-law KeepsFile sequential send-KeepsFile (reply d.input_buffer) d)
read-KeepsFile reply end_of_input c = ground (arith, close-KeepsFile c)
read-KeepsFile reply read_again c = ground arith
read-KeepsFile reply read_failed c = ground (arith, close-KeepsFile c)

after_write-KeepsFile : (n : ℕ) (c : TcpConnection) → KeepsFile c (after_write n c)
unfolding after_write on_channel closes
after_write-KeepsFile n c = ground arith

write-KeepsFile : (w : Write) (c : TcpConnection) → KeepsFile c (handle_write w c)
unfolding handle_write closes
write-KeepsFile (took zero) c = ground (arith, close-KeepsFile c)
write-KeepsFile (took (suc n)) c = ground (arith, after_write-KeepsFile (suc n) c)
write-KeepsFile write_again c = ground arith
write-KeepsFile write_failed c = ground (arith, close-KeepsFile c)

destroyed-KeepsFile : (c : TcpConnection) → KeepsFile c (connect_destroyed c)
destroyed-KeepsFile c =
    let (same, no_close) = connect_destroyed-keeps c in
    quiet-KeepsFile c (connect_destroyed c).0 (connect_destroyed c).1 same no_close

handled : IsHandled KeepsFile
handled = record {
  closes = close-KeepsFile;
  sent = send-KeepsFile;
  reads = read-KeepsFile;
  writes = write-KeepsFile;
  destroyed = destroyed-KeepsFile;
}

-- A connection closes its file once at most, and no other: whatever events, messages and errors it meets
-- from `connectEstablished` on, the files that it closed, followed by the one that it still has, are its
-- file alone.
pub life-closes :
    (reply : Bytes → List Bytes) (is : List Input) (fd : ℕ)
    → let (c, es) = establish fd in
      let (d, fs) = run_inputs reply is c in closes (es ++ fs) ++ owned d ≡ fd ∷ []
unfolding establish
life-closes reply is fd =
    let start = establish fd in
    let r = run_inputs reply is start.0 in
    rw
      (
        closes-append start.1 r.1,
        append_assoc,
        inputs-law KeepsFile sequential handled reply is start.0,
      )
      (unfold on_channel closes in refl)
