-- ===== src/Gateway/Flow/Wire.antt =====
-- The bytes that go out on the connections of the API server.
use lfgateway.Base.{
  ℕ, ◌≡◌, refl, ◌∙◌, inl, inr, ◌⊎◌, Bool-cases, true, none, some, List, [], ◌∷◌, ◌++◌, append_assoc,
  append-nil, arith,
}
use lfgateway.Base.Text.{Bytes, codes, equal, equal_iff}
use lfgateway.Base.Maps.{lookup}
use lfgateway.Base.Reach.{Steps-keep}
use lfgateway.Redis.{Server}
use lfgateway.Net.Channel.{Revents}
use lfgateway.Net.Acceptor.{Accept}
use lfgateway.Net.Connection.{Read, Write, event, sends, establish, on_channel, is_closed}
use lfgateway.Net.Connection.Asked.{joined}
use lfgateway.Net.Connection.Silent.{no_reply, event_silent}
use lfgateway.Net.Connection.Written.{bytes_written, bytes_queued}
use lfgateway.Net.Server.{conn_name}
use lfgateway.Net.Serving.{Serving, Life, serve_input, serve_accept}
use lfgateway.Net.Serving.Keeps.{first_life, accept-All, input-All}
use lfgateway.Net.Serving.Replay.{Reach-AllReplay, Replays-written}
use lfgateway.Gateway.{Gateway}
use lfgateway.Gateway.Flow.Known.{AllHave, IsKnown, Step-IsKnown}
use lfgateway.Net.Serving.Open.{IsNew}
use lfgateway.Gateway.Flow.{Outgoing, World, Step, Reach, fresh, run_sends}
use lfgateway.Gateway.Flow.Serves.{flow_serves}
use lfgateway.Gateway.Flow.Took.{texts, Took, AllTook, texts-append, Took-still, Took-sent}

-- One functor, which may find the connection closed.
send-AllTook :
    (out : List Outgoing) (conn text : Bytes) (v : Serving)
    → AllTook out v
    → AllTook (out ++ (conn, text) ∷ []) (serve_input no_reply conn (sends text) v).0
send-AllTook out conn text v =
    input-All (λ name l. Took (texts name out) l)
      (λ name l. Took (texts name (out ++ (conn, text) ∷ [])) l) no_reply conn (sends text) v
      (λ l h.
        rw (texts-append conn out ((conn, text) ∷ []), (equal_iff conn conn).1 refl)
          (Took-sent (texts conn out) text l h))
      (λ other l e h.
        rw (texts-append other out ((conn, text) ∷ []), e, append-nil (texts other out)) h)

run_sends-AllTook :
    (fs out : List Outgoing) (v : Serving) → AllTook out v → AllTook (out ++ fs) (run_sends fs v)
unfolding run_sends
run_sends-AllTook [] out v all = rw (append-nil out) all
run_sends-AllTook ((conn, text) ∷ fs) out v all = rw (← append_assoc out ((conn, text) ∷ []) fs) (
    run_sends-AllTook fs (out ++ (conn, text) ∷ []) (serve_input no_reply conn (sends text) v).0
      (send-AllTook out conn text v all))

event-AllTook :
    (out : List Outgoing) (conn : Bytes) (e : Revents) (r : Read) (w : Write) (v : Serving)
    → AllTook out v
    → AllTook out (serve_input no_reply conn (event e r w) v).0
event-AllTook out conn e r w v =
    input-All (λ name l. Took (texts name out) l) (λ name l. Took (texts name out) l) no_reply conn
      (event e r w) v
      (λ l h. Took-still (texts conn out) (event e r w) l (event_silent e r w l.connection) h)
      (λ other l k h. h)

first-Took : (fd : ℕ) → Took [] (first_life fd)
unfolding establish on_channel bytes_queued
first-Took fd = record { ts = []; after = []; piece = refl; queued = refl; whole = inl refl }

-- To a name that no connection has nothing was sent.
pub texts-unknown :
    (v : Serving) (name : Bytes) (out : List Outgoing)
    → lookup name v.objects ≡ none
    → AllHave v out
    → texts name out ≡ []
texts-unknown v name [] h k = refl
texts-unknown v name ((conn, text) ∷ out) h ((l, there), k) = elim (Bool-cases (equal conn name)) [
  | inl e ↦
      let same : conn ≡ name = (equal_iff conn name).0 e in
      let gone : lookup conn v.objects ≡ none = rw same h in absurd (ground arith)
  | inr e ↦ rw e (texts-unknown v name out h k)
]

accept-AllTook :
    (out : List Outgoing) (a : Accept) (v : Serving)
    → IsNew a v
    → AllHave v out
    → AllTook out v
    → AllTook out (serve_accept a v).0
accept-AllTook out a v new known =
    accept-All (λ name l. Took (texts name out) l) a v
      (λ fd e.
        let key = conn_name v.server.name v.server.next_conn_id in
        let unused : lookup key v.objects ≡ none = rw e at new in
        rw (texts-unknown v key out unused known) (first-Took fd))

module _ (s : Server) where
  Step-AllTook :
      {u v : World s}
      → Step s u v
      → IsKnown s u
      → AllTook u.delivered u.serving
      → AllTook v.delivered v.serving
  Step-AllTook {u} (Step.accepts a free new) k all =
      accept-AllTook u.delivered a u.serving new k.delivered all
  Step-AllTook {u} (Step.receives conn v r o h) k all =
      event-AllTook u.delivered conn v r o u.serving all
  Step-AllTook (Step.takes c room h) k all = all
  Step-AllTook (Step.answers e before after c code body i h) k all = all
  Step-AllTook (Step.fails e before after c i h) k all = all
  Step-AllTook {u} Step.turns k all =
      run_sends-AllTook u.loop.pending_functors u.delivered u.serving all
  Step-AllTook (Step.elsewhere g st) k all = all

  -- At any time, for each connection of the API server, what the kernel took of it followed by what is
  -- still in its output buffer are the texts that the loop was given to send to it, whole, from the
  -- first on and in order: no byte is lost or added, and none belongs to the response of another
  -- connection. Texts are missing at the end only if the connection is closed.
  -- New connections are taken to get descriptors that no connection in the map has, and names
  -- that none had.
  pub connection_wire :
      (n : ℕ) (g : Gateway) (st : s.State) {w : World s} (name : Bytes) (l : Life)
      → Reach s (fresh s n g st) w
      → lookup name w.serving.objects ≡ some l
      → (ts : List Bytes) × (after : List Bytes) × (ts ++ after ≡ texts name w.delivered)
        × (bytes_written l.effects ++ l.connection.output_buffer ≡ joined ts)
        × ((after ≡ []) ⊎ (is_closed l.connection ≡ true))
  unfolding lookup
  connection_wire n g st {w} name l r here =
      let (known, all) =
        Steps-keep (λ (v : World s). IsKnown s v × AllTook v.delivered v.serving)
          (λ u v t i. (Step-IsKnown s t i.0, Step-AllTook t i.0 i.1)) r
          (record { tasks = tt; running = tt; pending = tt; delivered = tt }, λ k m h. cc) in
      let t = all name l here in
      let replay =
        Reach-AllReplay no_reply (codes "ApiServer") w.serving (flow_serves s r) name l here in
      (t.ts, t.after, t.piece, Replays-written no_reply l replay ∙ t.queued, t.whole)
