-- ===== src/Net/Serving/Open.antt =====
-- The map of the server against the connections themselves, over any run.
use lfgateway.Base.{
  ◌++◌, ℕ, ◌≡◌, ◌≢◌, refl, ap, ◌∙◌, inl, inr, Option, none, some, List, arith, if◌then◌else◌,
  Option-cases, Bool-cases,
}
use lfgateway.Base.Text.{Bytes, equal_iff}
use lfgateway.Base.Reach.{Steps, Steps-keep}
use lfgateway.Base.Maps.{
  lookup, lookup-insert, lookup-erase, IsKeyed, insert-IsKeyed, erase-IsKeyed,
}
use lfgateway.Net.Acceptor.{Accept, accepted, accept_again, accept_failed, accept_read}
use lfgateway.Net.Connection.{TcpConnection, Effect, Input, establish, run_input, on_channel}
use lfgateway.Net.Connection.Told.{calls_back, Tells, input-Tells}
use lfgateway.Net.Server.{conn_name, new_connection, remove_connection}
use lfgateway.Net.Serving.{
  Serving, Life, serving, serve_accept, serve_input, take_connection, after_input,
}

-- What `accept4` gives is no descriptor that a connection in the map still has.
abbrev pub IsFree : Accept → Serving → Type 0
IsFree (accepted fd) s = (name : Bytes) → lookup name s.server.connections ≢ some fd
IsFree a s = Unit {0}

-- The name that a new connection gets is new among all that were made. So it is until the
-- counter of the names wraps, for a server whose name leaves room for the number in 64 bytes.
abbrev pub IsNew : Accept → Serving → Type 0
IsNew (accepted fd) v = lookup (conn_name v.server.name v.server.next_conn_id) v.objects ≡ none
IsNew a v = Unit {0}

-- One turn of the loop's dispatch.
pub data Step (reply : Bytes → List Bytes) (s : Serving) : Serving → Type 0 where
  accepts : (a : Accept) → IsFree a s → IsNew a s → Step reply s (serve_accept a s).0
  handles : (name : Bytes) (i : Input) → Step reply s (serve_input reply name i s).0

abbrev pub Reach : (Bytes → List Bytes) → Serving → Serving → Type 0
Reach reply = Steps (Step reply)

-- The socket that a connection has, if it was made and is not closed.
abbrev pub open_socket : Option Life → Option ℕ
open_socket none = none
open_socket (some l) = l.connection.sockfd

-- The map has the connections whose socket is open, each once, and no two have one socket.
pub record IsOpenMap (s : Serving) : Type 0 where
  pub keyed : IsKeyed s.server.connections
  pub exact :
      (name : Bytes) → lookup name s.server.connections ≡ open_socket (lookup name s.objects)
  pub apart :
      (a b : Bytes) (fd : ℕ)
      → lookup a s.server.connections ≡ some fd
      → lookup b s.server.connections ≡ some fd
      → a ≡ b

establish-socket : (fd : ℕ) → (establish fd).0.sockfd ≡ some fd
unfolding establish on_channel
establish-socket fd = refl

accept-IsOpenMap :
    (a : Accept) (s : Serving) → IsFree a s → IsOpenMap s → IsOpenMap (serve_accept a s).0
unfolding serve_accept accept_read take_connection new_connection
accept-IsOpenMap accept_again s free h = h
accept-IsOpenMap accept_failed s free h = h
accept-IsOpenMap (accepted fd) s free h =
    let key = conn_name s.server.name s.server.next_conn_id in
    let before = s.server.connections in
    record {
      keyed = insert-IsKeyed key fd before h.keyed;
      exact = λ name. ground (
        arith,
        lookup-insert key name fd before,
        lookup-insert key name
            (record { connection = (establish fd).0; effects = (establish fd).1 }) s.objects,
        h.exact name,
        establish-socket fd,
      );
      apart = λ a b n p q. ground (
        arith,
        lookup-insert key a fd before,
        lookup-insert key b fd before,
        equal_iff key a,
        equal_iff key b,
        h.apart a b n,
        free a,
        free b,
      );
    }

after-IsOpenMap :
    (name : Bytes) (l : Life) (r : TcpConnection × List Effect) (s : Serving)
    → lookup name s.objects ≡ some l
    → Tells l.connection r
    → IsOpenMap s
    → IsOpenMap (after_input name l.effects r s).0
unfolding after_input remove_connection
after-IsOpenMap name l (d, es) s here tells h =
    let before = s.server.connections in
    let there : lookup name before ≡ l.connection.sockfd = h.exact name ∙ ap open_socket here in
    elim (Bool-cases (calls_back es)) [
      | inl e ↦
          rw (e, if◌then◌else◌)
            (record {
              keyed = erase-IsKeyed name before h.keyed;
              exact = λ other. ground (
                arith,
                lookup-erase name other before h.keyed,
                lookup-insert name other (record { connection = d; effects = l.effects ++ es })
                    s.objects,
                h.exact other,
              );
              apart = λ a b n p q. ground (
                arith,
                lookup-erase name a before h.keyed,
                lookup-erase name b before h.keyed,
                h.apart a b n,
              );
            })
      | inr e ↦
          rw (e, if◌then◌else◌)
            (record {
              keyed = h.keyed;
              exact = λ other. ground (
                arith,
                lookup-insert name other (record { connection = d; effects = l.effects ++ es })
                    s.objects,
                h.exact other,
                equal_iff name other,
              );
              apart = h.apart;
            })
    ]

input-IsOpenMap :
    (reply : Bytes → List Bytes) (name : Bytes) (i : Input) (s : Serving)
    → IsOpenMap s
    → IsOpenMap (serve_input reply name i s).0
unfolding serve_input
input-IsOpenMap reply name i s h = elim (Option-cases (lookup name s.objects)) [
  | inl e ↦ rw (e, serve_input) h
  | inr (l, e) ↦
      rw (e, serve_input)
        (after-IsOpenMap name l (run_input reply i l.connection) s e
          (input-Tells reply i l.connection) h)
]

Step-IsOpenMap :
    (reply : Bytes → List Bytes) {s t : Serving} → Step reply s t → IsOpenMap s → IsOpenMap t
Step-IsOpenMap reply {s} (accepts a free new) h = accept-IsOpenMap a s free h
Step-IsOpenMap reply {s} (handles name i) h = input-IsOpenMap reply name i s h

-- At any time the server's map has each connection once, under its name and with its socket, exactly
-- if the connection's socket is open, and no two have one socket. Descriptors that `accept4` gives
-- are taken to be none of those in the map, and each new connection's name to be new.
pub Reach-IsOpenMap :
    (reply : Bytes → List Bytes) (name : Bytes) (s : Serving)
    → Reach reply (serving name) s
    → IsOpenMap s
unfolding lookup
Reach-IsOpenMap reply name s r =
    Steps-keep IsOpenMap (λ u v t h. Step-IsOpenMap reply t h) r
      (record { keyed = tt; exact = λ k. refl; apart = λ a b n p q. cc })
