-- ===== src/Gateway/Flow/Took.antt =====
-- What a connection took of the texts that were sent to it.
use lfgateway.Base.{
  ◌≡◌, refl, sym, ap, ◌∙◌, inl, inr, ◌⊎◌, Bool-cases, true, List, [], ◌∷◌, ◌++◌, append_assoc,
  append-nil, arith, if◌then◌else◌,
}
use lfgateway.Base.Text.{Bytes, equal}
use lfgateway.Net.Connection.{Input, sends, run_input, is_closed}
use lfgateway.Net.Connection.Asked.{joined}
use lfgateway.Net.Connection.Silent.{no_reply, open_queues}
use lfgateway.Net.Connection.Final.{input-StaysClosed, closed_takes_nothing}
use lfgateway.Net.Connection.Written.{bytes_queued, queued-append}
use lfgateway.Net.Serving.{Serving, Life}
use lfgateway.Net.Serving.Keeps.{All, next_life}
use lfgateway.Gateway.Flow.{Outgoing}

-- The texts that were sent to one connection, in order.
abbrev pub texts : Bytes → List Outgoing → List Bytes
texts name [] = []
texts name ((conn, text) ∷ l) = if equal conn name then text ∷ texts name l else texts name l

pub texts-append :
    (name : Bytes) (l m : List Outgoing) → texts name (l ++ m) ≡ texts name l ++ texts name m
texts-append name [] m = refl
texts-append name ((conn, text) ∷ l) m = ground (arith, texts-append name l m)

pub joined-append_one : (ts : List Bytes) (t : Bytes) → joined (ts ++ t ∷ []) ≡ joined ts ++ t
joined-append_one [] t = append-nil t
joined-append_one (u ∷ ts) t =
    ap (λ s. u ++ s) (joined-append_one ts t) ∙ sym (append_assoc u (joined ts) t)

-- What a connection took into its output buffer are the texts that were sent to it, and none is
-- missing at the end unless the connection is closed.
pub record Took (sent : List Bytes) (l : Life) : Type 0 where
  pub ts : List Bytes
  pub after : List Bytes
  pub piece : ts ++ after ≡ sent
  pub queued : bytes_queued l.effects ≡ joined ts
  pub whole : (after ≡ []) ⊎ (is_closed l.connection ≡ true)

abbrev pub AllTook : List Outgoing → Serving → Type 0
AllTook out = All (λ name l. Took (texts name out) l)

-- An input that queues nothing.
pub Took-still :
    (sent : List Bytes) (i : Input) (l : Life)
    → bytes_queued (run_input no_reply i l.connection).1 ≡ []
    → Took sent l
    → Took sent (next_life no_reply i l)
Took-still sent i l nothing t =
    let closed = input-StaysClosed no_reply i l.connection in
    record {
      ts = t.ts;
      after = t.after;
      piece = t.piece;
      queued =
          queued-append l.effects (run_input no_reply i l.connection).1
          ∙ rw (nothing, t.queued) (append-nil (joined t.ts));
      whole = let w = t.whole in ground arith;
    }

-- A text that is sent.
pub Took-sent :
    (sent : List Bytes) (text : Bytes) (l : Life)
    → Took sent l
    → Took (sent ++ text ∷ []) (next_life no_reply (sends text) l)
Took-sent sent text l t = elim (Bool-cases (is_closed l.connection)) [
  | inl e ↦
      let still = Took-still sent (sends text) l (closed_takes_nothing text l.connection e) t in
      record {
        ts = still.ts;
        after = still.after ++ text ∷ [];
        piece = rw (← append_assoc still.ts still.after (text ∷ []), still.piece) refl;
        queued = still.queued;
        whole = inr (input-StaysClosed no_reply (sends text) l.connection e);
      }
  | inr e ↦
      let none_after : t.after ≡ [] = let w = t.whole in ground arith in
      let all : t.ts ≡ sent = sym (append-nil t.ts) ∙ rw (← none_after) t.piece in
      record {
        ts = t.ts ++ text ∷ [];
        after = [];
        piece = append-nil (t.ts ++ text ∷ []) ∙ ap (λ ts. ts ++ text ∷ []) all;
        queued =
            queued-append l.effects (run_input no_reply (sends text) l.connection).1
            ∙ rw (open_queues text l.connection e, t.queued) (sym (joined-append_one t.ts text));
        whole = inl refl;
      }
]
