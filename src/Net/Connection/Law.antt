-- ===== src/Net/Connection/Law.antt =====
-- How a law of the handlers becomes one of a connection's whole life.
use lfgateway.Base.{List, [], ◌∷◌, ◌++◌}
use lfgateway.Base.Text.{Bytes}
use lfgateway.Net.Channel.{Callback, close_callback, read_callback, write_callback, handle_event}
use lfgateway.Net.Connection.{
  TcpConnection, Effect, connect_destroyed, handle_close, send_in_loop, send_all, handle_read,
  handle_write, run_callback, run_callbacks, run_input, run_inputs, Read, Write, Input, event,
  sends, destroys,
}

-- What a sequence of handlers obeys: `P c (d, es)` says that `c` may become `d` with the effects `es`.
pub record IsSequential (P : TcpConnection → TcpConnection × List Effect → Type 0) : Type 0 where
  pub nothing : (c : TcpConnection) → P c (c, [])
  pub both :
      (c d e : TcpConnection) (es fs : List Effect) → P c (d, es) → P d (e, fs) → P c (e, es ++ fs)

-- What holds of each handler by itself.
pub record IsHandled (P : TcpConnection → TcpConnection × List Effect → Type 0) : Type 0 where
  pub closes : (c : TcpConnection) → P c (handle_close c)
  pub sent : (m : Bytes) (c : TcpConnection) → P c (send_in_loop m c)
  pub reads :
      (reply : Bytes → List Bytes) (r : Read) (c : TcpConnection) → P c (handle_read reply r c)
  pub writes : (w : Write) (c : TcpConnection) → P c (handle_write w c)
  pub destroyed : (c : TcpConnection) → P c (connect_destroyed c)

module _ (P : TcpConnection → TcpConnection × List Effect → Type 0) (s : IsSequential P) where
  pub send_all-law :
      ((m : Bytes) (c : TcpConnection) → P c (send_in_loop m c))
      → (ms : List Bytes) (c : TcpConnection) → P c (send_all ms c)
  unfolding send_all
  send_all-law sent [] c = s.nothing c
  send_all-law sent (m ∷ ms) c =
      let (d, es) = send_in_loop m c in
      let (e, fs) = send_all ms d in s.both c d e es fs (sent m c) (send_all-law sent ms d)

  module _ (h : IsHandled P) where
    callback-law :
        (reply : Bytes → List Bytes) (r : Read) (w : Write) (k : Callback) (c : TcpConnection)
        → P c (run_callback reply r w k c)
    unfolding run_callback
    callback-law reply r w close_callback c = h.closes c
    callback-law reply r w read_callback c = h.reads reply r c
    callback-law reply r w write_callback c = h.writes w c

    callbacks-law :
        (reply : Bytes → List Bytes) (r : Read) (w : Write) (ks : List Callback) (c : TcpConnection)
        → P c (run_callbacks reply r w ks c)
    unfolding run_callbacks
    callbacks-law reply r w [] c = s.nothing c
    callbacks-law reply r w (k ∷ ks) c =
        let (d, es) = run_callback reply r w k c in
        let (e, fs) = run_callbacks reply r w ks d in
        s.both c d e es fs (callback-law reply r w k c) (callbacks-law reply r w ks d)

    pub input-law :
        (reply : Bytes → List Bytes) (i : Input) (c : TcpConnection) → P c (run_input reply i c)
    unfolding run_input
    input-law reply (event v r w) c = callbacks-law reply r w (handle_event c.channel v) c
    input-law reply (sends m) c = h.sent m c
    input-law reply destroys c = h.destroyed c

    pub inputs-law :
        (reply : Bytes → List Bytes) (is : List Input) (c : TcpConnection)
        → P c (run_inputs reply is c)
    unfolding run_inputs
    inputs-law reply [] c = s.nothing c
    inputs-law reply (i ∷ is) c =
        let (d, es) = run_input reply i c in
        let (e, fs) = run_inputs reply is d in
        s.both c d e es fs (input-law reply i c) (inputs-law reply is d)
