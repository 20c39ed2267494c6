-- ===== src/Gateway/Admin/Wire.antt =====
-- The bytes that go out on the connections of the management server.
use lfgateway.Base.{
  ◌≡◌, refl, sym, ap, ◌∙◌, inl, inr, false, Option-cases, none, some, List, [], ◌∷◌, ◌++◌,
  append_assoc, append-nil, arith,
}
use lfgateway.Base.Text.{Bytes, equal, equal_iff}
use lfgateway.Base.Maps.{lookup}
use lfgateway.Base.Reach.{Steps-keep}
use lfgateway.Net.Channel.{Revents}
use lfgateway.Net.Acceptor.{Accept}
use lfgateway.Net.Connection.{Input, Read, Write, event, establish, on_channel, run_input}
use lfgateway.Net.Connection.Asked.{asked, answered, joined, event-Answers}
use lfgateway.Net.Connection.Written.{bytes_written, bytes_queued, written-append, input-Flows}
use lfgateway.Net.Server.{conn_name}
use lfgateway.Net.Serving.{Serving, Life, serve_input, serve_accept}
use lfgateway.Net.Serving.Keeps.{
  All, Has, next_life, accept-All, input-All, accept-Has, input-Has, serve-effects, unknown-effects,
}
use lfgateway.Mgmt.{World, MgmtEnv}
use lfgateway.Gateway.Flow.{Outgoing}
use lfgateway.Net.Serving.Open.{IsNew}
use lfgateway.Gateway.Flow.Known.{AllHave, AllHave-append, AllHave-later}
use lfgateway.Gateway.Flow.Took.{texts, texts-append, joined-append_one}
use lfgateway.Gateway.Flow.Wire.{texts-unknown}
use lfgateway.Gateway.Admin.{Port, Step, Reach, fresh, replies, on_mgmt_request}

-- What the kernel took of a connection and what waits in its buffer are some texts.
abbrev Wired : List Bytes → Life → Type 0
Wired ts l = bytes_written l.effects ++ l.connection.output_buffer ≡ joined ts

-- An event adds the texts for its messages.
event_adds :
    (reply : Bytes → List Bytes) (v : Revents) (r : Read) (w : Write) (l : Life) (ts : List Bytes)
    → Wired ts l
    → (let next = next_life reply (event v r w) l in
        bytes_written next.effects ++ next.connection.output_buffer
        ≡ joined ts ++ answered reply (asked (run_input reply (event v r w) l.connection).1))
event_adds reply v r w l ts h =
    let (d, es) = run_input reply (event v r w) l.connection in
    rw
      (
        written-append l.effects es,
        append_assoc (bytes_written l.effects) (bytes_written es) d.output_buffer,
        input-Flows reply (event v r w) l.connection,
        ← append_assoc (bytes_written l.effects) l.connection.output_buffer (bytes_queued es),
        h,
        event-Answers reply v r w l.connection,
      )
      refl

-- Only a connection that was made is asked.
asked-Has :
    (reply : Bytes → List Bytes) (conn buf : Bytes) (i : Input) (s : Serving)
    → asked (serve_input reply conn i s).1 ≡ buf ∷ []
    → Has s conn
unfolding asked
asked-Has reply conn buf i s h = elim (Option-cases (lookup conn s.objects)) [
  | inl e ↦ absurd (ground (arith, ap asked (unknown-effects reply conn i s e)))
  | inr found ↦ found
]

abbrev AllWired : List Outgoing → Serving → Type 0
AllWired out = All (λ name l. Wired (texts name out) l)

-- An event with the texts for its messages, all to one connection.
event-AllWired :
    (reply : Bytes → List Bytes) (conn : Bytes) (v : Revents) (r : Read) (w : Write) (s : Serving)
    (out new : List Outgoing)
    → joined (texts conn out) ++ answered reply (asked (serve_input reply conn (event v r w) s).1)
      ≡ joined (texts conn (out ++ new))
    → ((other : Bytes) → equal conn other ≡ false → texts other new ≡ [])
    → AllWired out s
    → AllWired (out ++ new) (serve_input reply conn (event v r w) s).0
event-AllWired reply conn v r w s out new adds rest all =
    input-All (λ name l. (lookup name s.objects ≡ some l) × Wired (texts name out) l)
      (λ name l. Wired (texts name (out ++ new)) l) reply conn (event v r w) s
      (λ l k.
        event_adds reply v r w l (texts conn out) k.1
        ∙ ap (λ es. joined (texts conn out) ++ answered reply (asked es))
            (sym (serve-effects reply conn (event v r w) s l k.0))
        ∙ adds)
      (λ other l e k.
        rw (texts-append other out new, rest other e, append-nil (texts other out)) k.1)
      (λ name l here. (here, all name l here))

-- The connections are wired, and nothing was sent to a connection that was not made.
record IsWired (p : Port) : Type 0 where
  wired : AllWired p.sent p.serving
  known : AllHave p.serving p.sent

accept-IsWired :
    (a : Accept) (p : Port)
    → IsNew a p.serving
    → IsWired p
    → IsWired (record p { serving = (serve_accept a p.serving).0 })
unfolding establish on_channel bytes_written
accept-IsWired a p new h = record {
  wired =
      accept-All (λ name l. Wired (texts name p.sent) l) a p.serving
        (λ fd e.
          let key = conn_name p.serving.server.name p.serving.server.next_conn_id in
          let unused : lookup key p.serving.objects ≡ none = rw e at new in
          rw (texts-unknown p.serving key p.sent unused h.known) refl)
        h.wired;
  known =
      AllHave-later p.serving (serve_accept a p.serving).0 p.sent
        (λ name k. accept-Has a p.serving name k) h.known;
}

quiet-IsWired :
    (reply : Bytes → List Bytes) (conn : Bytes) (v : Revents) (r : Read) (w : Write) (p : Port)
    → asked (serve_input reply conn (event v r w) p.serving).1 ≡ []
    → IsWired p
    → IsWired (record p { serving = (serve_input reply conn (event v r w) p.serving).0 })
unfolding answered
quiet-IsWired reply conn v r w p nothing h =
    let same = append-nil p.sent in
    record {
      wired = rw same at (
          event-AllWired reply conn v r w p.serving p.sent []
            (rw (nothing, same) (append-nil (joined (texts conn p.sent)))) (λ other e. refl)
            h.wired);
      known =
          AllHave-later p.serving (serve_input reply conn (event v r w) p.serving).0 p.sent
            (λ name k. input-Has reply conn (event v r w) p.serving name k) h.known;
    }

answer-IsWired :
    (e : MgmtEnv) (conn buf text : Bytes) (v : Revents) (r : Read) (wr : Write) (p : Port)
    → asked (serve_input (replies p.mgmt e) conn (event v r wr) p.serving).1 ≡ buf ∷ []
    → (on_mgmt_request p.mgmt e buf).text ≡ some text
    → IsWired p
    → IsWired (record p {
      serving = (serve_input (replies p.mgmt e) conn (event v r wr) p.serving).0;
      mgmt = (on_mgmt_request p.mgmt e buf).world;
      sent = p.sent ++ (conn, text) ∷ [];
    })
unfolding answered
answer-IsWired e conn buf text v r wr p one got_text h =
    let reply = replies p.mgmt e in
    let i = event v r wr in
    let after = (serve_input reply conn i p.serving).0 in
    let new : Outgoing = (conn, text) in
    let mine : texts conn (new ∷ []) ≡ text ∷ [] = rw ((equal_iff conn conn).1 refl) refl in
    let made = asked-Has reply conn buf i p.serving one in
    record {
      wired =
          event-AllWired reply conn v r wr p.serving p.sent (new ∷ [])
            (rw
              (
                one,
                got_text,
                texts-append conn p.sent (new ∷ []),
                mine,
                append-nil (text ++ []),
                append-nil text,
              )
              (sym (joined-append_one (texts conn p.sent) text)))
            (λ other k. rw k refl) h.wired;
      known =
          AllHave-append after p.sent (new ∷ [])
            (AllHave-later p.serving after p.sent
              (λ name k. input-Has reply conn i p.serving name k) h.known)
            (input-Has reply conn i p.serving conn made, tt);
    }

Step-IsWired : {p q : Port} → Step p q → IsWired p → IsWired q
Step-IsWired {p} (Step.accepts a free new) h = accept-IsWired a p new h
Step-IsWired {p} (Step.quiet e conn v r w nothing) h =
    quiet-IsWired (replies p.mgmt e) conn v r w p nothing h
Step-IsWired {p} (Step.answers e conn buf text v r w one got_text) h =
    answer-IsWired e conn buf text v r w p one got_text h
Step-IsWired (Step.elsewhere w) h = record { wired = h.wired; known = h.known }

-- At any time, for each connection of the management server, what the kernel took of it followed by
-- what is still in its output buffer are the texts that the commands of its messages gave, in the order
-- of the messages: none is lost, doubled, sent to another connection or overtaken by a later one.
-- No command is taken to throw, which would end the program, and new connections are taken to get names
-- that none had and descriptors that no connection in the map has.
pub mgmt_wire :
    (w : World) {p : Port} (name : Bytes) (l : Life)
    → Reach (fresh w) p
    → lookup name p.serving.objects ≡ some l
    → bytes_written l.effects ++ l.connection.output_buffer ≡ joined (texts name p.sent)
unfolding lookup
mgmt_wire w {p} name l r here =
    let h =
      Steps-keep IsWired (λ u v t i. Step-IsWired t i) r
        (record { wired = λ k m gone. cc; known = tt }) in
    h.wired name l here
