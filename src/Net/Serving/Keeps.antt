-- ===== src/Net/Serving/Keeps.antt =====
-- What holds of each connection of a server by its name, and what an operation makes of it.
use lfgateway.Base.{
  ℕ, ◌≡◌, refl, sym, inl, inr, false, none, some, List, [], ◌++◌, arith, Option-cases, Bool-cases,
}
use lfgateway.Base.Text.{Bytes, equal, equal_iff}
use lfgateway.Base.Maps.{lookup, insert, lookup-insert}
use lfgateway.Net.Acceptor.{Accept, accepted, accept_again, accept_failed, accept_read}
use lfgateway.Net.Connection.{Input, establish, run_input}
use lfgateway.Net.Server.{conn_name}
use lfgateway.Net.Serving.{Serving, Life, serve_accept, serve_input, take_connection, after_input}

abbrev pub All : (Bytes → Life → Type 0) → Serving → Type 0
All K s = (name : Bytes) (l : Life) → lookup name s.objects ≡ some l → K name l

abbrev pub first_life : ℕ → Life
first_life fd = let start = establish fd in record { connection = start.0; effects = start.1 }

abbrev pub next_life : (Bytes → List Bytes) → Input → Life → Life
next_life reply i l =
    let r = run_input reply i l.connection in
    record { connection = r.0; effects = l.effects ++ r.1 }

module _ (K L : Bytes → Life → Type 0) where
  insert-All :
      (key : Bytes) (new : Life) (m : List (Bytes × Life))
      → L key new
      → ((other : Bytes) (l : Life) → equal key other ≡ false → K other l → L other l)
      → ((other : Bytes) (l : Life) → lookup other m ≡ some l → K other l)
      → (other : Bytes) (l : Life) → lookup other (insert key new m) ≡ some l
      → L other l
  insert-All key new m first rest all other l h = elim (Bool-cases (equal key other)) [
    | inl e ↦
        let same : l ≡ new = ground (arith, lookup-insert key other new m) in
        let name : other ≡ key = sym ((equal_iff key other).0 e) in rw (same, name) first
    | inr e ↦ rest other l e (all other l (ground (arith, lookup-insert key other new m)))
  ]

  -- An input changes one connection.
  pub input-All :
      (reply : Bytes → List Bytes) (name : Bytes) (i : Input) (s : Serving)
      → ((l : Life) → K name l → L name (next_life reply i l))
      → ((other : Bytes) (l : Life) → equal name other ≡ false → K other l → L other l)
      → All K s
      → All L (serve_input reply name i s).0
  unfolding serve_input after_input
  input-All reply name i s one rest all = elim (Option-cases (lookup name s.objects)) [
    | inl e ↦
        rw (e, serve_input)
          (λ other l h. elim (Bool-cases (equal name other)) [
            | inl k ↦
                let same : name ≡ other = (equal_iff name other).0 k in
                let gone : lookup other s.objects ≡ none = rw (← same) e in absurd (ground arith)
            | inr k ↦ rest other l k (all other l h)
          ])
    | inr (l, e) ↦
        rw (e, serve_input)
          (insert-All name (next_life reply i l) s.objects (one l (all name l e)) rest all)
  ]

-- A new connection begins with nothing but its establishment.
pub accept-All :
    (K : Bytes → Life → Type 0) (a : Accept) (s : Serving)
    → ((fd : ℕ)
        → a ≡ accepted fd
        → K (conn_name s.server.name s.server.next_conn_id) (first_life fd))
    → All K s
    → All K (serve_accept a s).0
unfolding serve_accept accept_read take_connection
accept-All K accept_again s new all = all
accept-All K accept_failed s new all = all
accept-All K (accepted fd) s new all =
    let key = conn_name s.server.name s.server.next_conn_id in
    insert-All K K key (first_life fd) s.objects (new fd refl) (λ other l e k. k) all

-- A connection of the name was made.
abbrev pub Has : Serving → Bytes → Type 0
Has s name = (l : Life) × (lookup name s.objects ≡ some l)

insert-Has :
    (key other : Bytes) (new : Life) (m : List (Bytes × Life))
    → ((l : Life) × (lookup other m ≡ some l))
    → (l : Life) × (lookup other (insert key new m) ≡ some l)
insert-Has key other new m (l, h) = elim (Bool-cases (equal key other)) [
  | inl e ↦ (new, ground (arith, lookup-insert key other new m))
  | inr e ↦ (l, ground (arith, lookup-insert key other new m))
]

pub accept-Has :
    (a : Accept) (s : Serving) (name : Bytes) → Has s name → Has (serve_accept a s).0 name
unfolding serve_accept accept_read take_connection
accept-Has accept_again s name h = h
accept-Has accept_failed s name h = h
accept-Has (accepted fd) s name h =
    insert-Has (conn_name s.server.name s.server.next_conn_id) name (first_life fd) s.objects h

pub input-Has :
    (reply : Bytes → List Bytes) (conn : Bytes) (i : Input) (s : Serving) (name : Bytes)
    → Has s name
    → Has (serve_input reply conn i s).0 name
unfolding serve_input after_input
input-Has reply conn i s name h = elim (Option-cases (lookup conn s.objects)) [
  | inl e ↦ rw (e, serve_input) h
  | inr (l, e) ↦ rw (e, serve_input) (insert-Has conn name (next_life reply i l) s.objects h)
]

-- The effects are those of the connection.
pub serve-effects :
    (reply : Bytes → List Bytes) (conn : Bytes) (i : Input) (s : Serving) (l : Life)
    → lookup conn s.objects ≡ some l
    → (serve_input reply conn i s).1 ≡ (run_input reply i l.connection).1
unfolding serve_input after_input
serve-effects reply conn i s l h = rw (h, serve_input) refl

-- And a name that no connection has does nothing.
pub unknown-effects :
    (reply : Bytes → List Bytes) (conn : Bytes) (i : Input) (s : Serving)
    → lookup conn s.objects ≡ none
    → (serve_input reply conn i s).1 ≡ []
unfolding serve_input after_input
unknown-effects reply conn i s h = rw (h, serve_input) refl
