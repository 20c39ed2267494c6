-- ===== src/Net/Server/Fresh.antt =====
-- A new connection never takes the place of another in the map.
use lfgateway.Base.{
  ℕ, zero, suc, ◌+◌, ◌/◌, ◌%◌, ◌^◌, ◌≤◌, ◌<◌, ◌≡◌, refl, sym, ap, ◌∙◌, inl, inr, false, Bool-cases,
  List, [], ◌∷◌, ◌++◌, arith, take, length, length-append,
}
use lfgateway.Base.Text.{Bytes, equal, equal_iff}
use lfgateway.Base.Decimal.{to_string, digits_onto, value_from}
use lfgateway.Base.Int.{pos, print_int, print_int-value}
use lfgateway.Base.Maps.{insert, erase}
use lfgateway.Net.Server.{TcpServer, next_id, conn_name, new_connection, remove_connection}

digits_onto-length :
    (f n k : ℕ) (out : Bytes) → n < 10 ^ suc k → length (digits_onto f n out) ≤ suc k + length out
unfolding digits_onto
digits_onto-length zero n k out h = omega arith
digits_onto-length (suc f) n zero out h = ground arith
digits_onto-length (suc f) n (suc k) out h =
    ground (arith, digits_onto-length f (n / 10) k ((b'0' + n % 10) ∷ out) (omega arith))

print_int-length : (n : ℕ) → n < 2 ^ 31 → length (print_int (pos n)) ≤ 10
unfolding print_int to_string
print_int-length n h = digits_onto-length (suc n) n 9 [] (omega arith)

take-all : (n : ℕ) (s : Bytes) → length s ≤ n → take n s ≡ s
take-all zero [] h = refl
take-all (suc n) [] h = refl
take-all zero (c ∷ s) h = absurd (omega arith)
take-all (suc n) (c ∷ s) h = ap (λ t. c ∷ t) (take-all n s (omega arith))

-- With a server's name of at most 52 bytes nothing is cut off.
conn_name-whole :
    (name : Bytes) (n : ℕ)
    → length name ≤ 52
    → n < 2 ^ 31
    → conn_name name (pos n) ≡ name ++ b'-' ∷ print_int (pos n)
unfolding conn_name
conn_name-whole name n h k =
    take-all 63 (name ++ b'-' ∷ print_int (pos n))
      (omega (arith, length-append name (b'-' ∷ print_int (pos n)), print_int-length n k))

same_tail : (name s t : Bytes) → name ++ s ≡ name ++ t → s ≡ t
same_tail [] s t e = e
same_tail (c ∷ name) s t e = same_tail name s t (ground arith)

conn_name-injective :
    (name : Bytes) (m n : ℕ)
    → length name ≤ 52
    → m < 2 ^ 31
    → n < 2 ^ 31
    → conn_name name (pos m) ≡ conn_name name (pos n)
    → m ≡ n
conn_name-injective name m n h k l e =
    let same =
      same_tail name (b'-' ∷ print_int (pos m)) (b'-' ∷ print_int (pos n))
        (rw (← conn_name-whole name m h k, ← conn_name-whole name n h l) e) in
    let digits : print_int (pos m) ≡ print_int (pos n) = ground arith in
    sym (print_int-value m) ∙ ap (value_from 0) digits ∙ print_int-value n

-- Every key of the map is the name of a connection that was numbered before `n`.
abbrev pub AllOlder : Bytes → ℕ → List (Bytes × ℕ) → Type 0
AllOlder name n [] = Unit {0}
AllOlder name n ((k, v) ∷ m) =
    ((i : ℕ) × (i < n) × (k ≡ conn_name name (pos i))) × AllOlder name n m

AllOlder-suc :
    (name : Bytes) (n : ℕ) (m : List (Bytes × ℕ)) → AllOlder name n m → AllOlder name (suc n) m
AllOlder-suc name n [] h = tt
AllOlder-suc name n ((k, v) ∷ m) ((i, lt, e), h) = ((i, omega arith, e), AllOlder-suc name n m h)

erase-AllOlder :
    (key name : Bytes) (n : ℕ) (m : List (Bytes × ℕ))
    → AllOlder name n m
    → AllOlder name n (erase key m)
unfolding erase
erase-AllOlder key name n [] h = tt
erase-AllOlder key name n ((k, v) ∷ m) (first, h) = elim (Bool-cases (equal k key)) [
  | inl e ↦ rw e h
  | inr e ↦ rw e (first, erase-AllOlder key name n m h)
]

-- The next name is no key, so `m[name] = conn` adds an entry.
insert-fresh :
    (name : Bytes) (n v : ℕ) (m : List (Bytes × ℕ))
    → length name ≤ 52
    → n < 2 ^ 31
    → AllOlder name n m
    → (insert (conn_name name (pos n)) v m ≡ m ++ (conn_name name (pos n), v) ∷ [])
      × AllOlder name (suc n) (m ++ (conn_name name (pos n), v) ∷ [])
unfolding insert
insert-fresh name n v [] h b a = (refl, ((n, omega arith, refl), tt))
insert-fresh name n v ((k, w) ∷ m) h b ((i, lt, e), a) =
    let (rest, older) = insert-fresh name n v m h b a in
    let other : equal k (conn_name name (pos n)) ≡ false =
      elim (Bool-cases (equal k (conn_name name (pos n)))) [
        | inl same ↦
            let number =
              conn_name-injective name i n h (omega arith) b
                (sym e ∙ (equal_iff k (conn_name name (pos n))).0 same) in
            absurd (omega (arith, number))
        | inr differs ↦ differs
      ] in
    (rw other (ap (λ l. (k, w) ∷ l) rest), ((i, omega arith, e), older))

-- The server has numbered `n` connections so far, and its keys are their names.
pub record IsNumbered (n : ℕ) (s : TcpServer) : Type 0 where
  pub short : length s.name ≤ 52
  pub numbered : s.next_conn_id ≡ pos n
  pub older : AllOlder s.name n s.connections

-- A new connection is added to the map and takes no other out of it, as long as the server's name
-- has at most 52 bytes, its keys are names that it gave before, and the counter has not come to its
-- end; that keys are such names stays so, also over a removal.
pub new_connection-adds :
    (n sockfd : ℕ) (gone : Bytes) (s : TcpServer)
    → n + 1 < 2 ^ 31
    → IsNumbered n s
    → ((new_connection sockfd s).connections
        ≡ s.connections ++ (conn_name s.name (pos n), sockfd) ∷ [])
      × IsNumbered (n + 1) (new_connection sockfd s)
      × IsNumbered n (remove_connection gone s)
unfolding new_connection remove_connection next_id
new_connection-adds n sockfd gone s b i =
    let (added, older) = insert-fresh s.name n sockfd s.connections i.short (omega arith) i.older in
    let one : n + 1 ≡ suc n = omega arith in
    (
      rw i.numbered added,
      record {
        short = i.short;
        numbered = rw i.numbered (ground arith);
        older = rw (i.numbered, added, one) older;
      },
      record {
        short = i.short;
        numbered = i.numbered;
        older = erase-AllOlder gone s.name n s.connections i.older;
      },
    )
