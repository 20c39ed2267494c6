-- ===== src/Gateway/Delete/Parses.antt =====
-- The statement that `deleteRoute` sends for a text that names an id.
use lfgateway.Base.{
  ℕ, ◌^◌, ◌<◌, ◌≡◌, ◌≢◌, refl, inl, inr, Bool, true, false, if◌then◌else◌, Bool-cases, not, Option,
  none, some, List, [], ◌∷◌, ◌++◌, arith, ◌==◌, length, take-length, drop-length, append-nil,
}
use lfgateway.Base.Text.{Bytes, codes, find, find_if, find-Lacks, starts_with, Lacks}
use lfgateway.Base.Decimal.{
  is_digit, to_string, to_string-AreDigits, to_string-ne-nil, AreDigits, NoDigit,
}
use lfgateway.Base.Int.{pos, value, stoi, print_int, stoi-to_string}
use lfgateway.Mysql.Pool.{MysqlPool, lent, acquire, release}
use lfgateway.Router.{Router, Loaded, load_from_mysql}
use lfgateway.Router.Load.{taken, acquire_healthy}
use lfgateway.Gateway.Delete.{
  digits_at, id_text, DeleteEnv, delete_sql, after_reload, Deleted, delete_id, delete_route,
}

-- No byte of the text is a digit.
abbrev pub HasNoDigit : Bytes → Type 0
HasNoDigit [] = Unit {0}
HasNoDigit (c ∷ s) = (is_digit c ≡ false) × HasNoDigit s

find_quoted :
    (pre s : Bytes)
    → Lacks b'"' pre
    → find (codes "\"id\"") (pre ++ (codes "\"id\"" ++ s)) ≡ some (length pre)
unfolding find starts_with
find_quoted [] s h = refl
find_quoted (c ∷ pre) s h = ground (arith, find_quoted pre s h.1)

find_digit :
    (gap ds rest : Bytes)
    → HasNoDigit gap
    → AreDigits ds
    → ds ≢ []
    → find_if is_digit (gap ++ (ds ++ rest)) ≡ some (length gap)
unfolding find_if
find_digit [] [] rest h d ne = absurd (ne refl)
find_digit [] (c ∷ ds) rest h d ne = rw d.0
find_digit (c ∷ gap) ds rest h d ne = rw (h.0, find_digit gap ds rest h.1 d ne)

abbrev no_digit : ℕ → Bool
no_digit c = not (is_digit c)

find_no_end : (ds : Bytes) → AreDigits ds → find_if no_digit ds ≡ none
unfolding find_if
find_no_end [] d = refl
find_no_end (c ∷ ds) d = rw (d.0, find_no_end ds d.1)

find_end :
    (ds rest : Bytes) (c : ℕ)
    → AreDigits ds
    → is_digit c ≡ false
    → find_if no_digit (ds ++ c ∷ rest) ≡ some (length ds)
unfolding find_if
find_end [] rest c d n = rw n
find_end (x ∷ ds) rest c d n = rw (d.0, find_end ds rest c d.1 n)

digits_at-AreDigits : (ds rest : Bytes) → AreDigits ds → NoDigit rest → digits_at (ds ++ rest) ≡ ds
unfolding digits_at
digits_at-AreDigits ds [] d n = rw append-nil (rw (find_no_end ds d, digits_at))
digits_at-AreDigits ds (c ∷ rest) d n =
    rw (find_end ds rest c d n, digits_at) (take-length ds (c ∷ rest))

-- The text that the code cuts out is the number, wherever the key and the colon stand.
id_text_lem :
    (pre mid gap ds rest : Bytes)
    → Lacks b'"' pre
    → Lacks b':' mid
    → HasNoDigit gap
    → AreDigits ds
    → ds ≢ []
    → NoDigit rest
    → id_text (pre ++ (codes "\"id\"" ++ (mid ++ b':' ∷ (gap ++ (ds ++ rest))))) ≡ some ds
unfolding id_text is_digit
id_text_lem pre mid gap ds rest hp hm hg hd ne hr =
    let s3 = ds ++ rest in
    let s2 = b':' ∷ (gap ++ s3) in
    let key = codes "\"id\"" ++ mid in
    let s1 = key ++ s2 in
    let e1 = find_quoted pre (mid ++ s2) hp in
    let e3 =
      find-Lacks b':' key (gap ++ s3)
        (omega arith, (omega arith, (omega arith, (omega arith, hm)))) in
    let e5 = find_digit (b':' ∷ gap) ds rest (refl, hg) hd ne in
    ground (
      arith,
      drop-length pre s1,
      drop-length key s2,
      drop-length (b':' ∷ gap) s3,
      digits_at-AreDigits ds rest hd hr,
    )

delete_route_id :
    (t : Router) (p : MysqlPool) (e : DeleteEnv) (pre mid gap rest : Bytes) (n : ℕ)
    → n < 2 ^ 31
    → Lacks b'"' pre
    → Lacks b':' mid
    → HasNoDigit gap
    → NoDigit rest
    → let json = pre ++ (codes "\"id\"" ++ (mid ++ b':' ∷ (gap ++ (to_string n ++ rest)))) in
      delete_route t p e json ≡ delete_id t p e (value (pos n))
unfolding delete_route
delete_route_id t p e pre mid gap rest n small hp hm hg hr =
    let cut =
      id_text_lem pre mid gap (to_string n) rest hp hm hg (to_string-AreDigits n)
        (to_string-ne-nil n) hr in
    let read : stoi (to_string n) ≡ value (pos n) =
      rw append-nil at (stoi-to_string n [] small tt) in
    ground arith

-- The statement that was sent, and the result; `none` if an exception came out.
abbrev pub sent_sql : Deleted → Option Bytes
sent_sql (Deleted.returned ok sql t p) = sql
sent_sql (Deleted.threw sql t p) = sql

abbrev pub result_of : Deleted → Option Bool
result_of (Deleted.returned ok sql t p) = some ok
result_of (Deleted.threw sql t p) = none

-- What a reload makes of the result: true, whatever it returned, and an exception if it threw.
abbrev pub after_loaded : Loaded → Option Bool
after_loaded (Loaded.returned ok t p) = some true
after_loaded (Loaded.threw t p) = none

-- The reload behind a statement that went through, on the pool that the connection went back to.
abbrev pub reload_of : Router → MysqlPool → DeleteEnv → ℕ → List ℕ → Loaded
reload_of t p e c cs =
    load_from_mysql t (release (taken p cs) (some c)) e.reload_code e.reload_fresh e.reload_answer

after_reload-result :
    (sql : Bytes) (l : Loaded)
    → (sent_sql (after_reload sql l) ≡ some sql) × (result_of (after_reload sql l) ≡ after_loaded l)
unfolding after_reload
after_reload-result sql (Loaded.returned ok t p) = (refl, refl)
after_reload-result sql (Loaded.threw t p) = (refl, refl)

delete_id_sends :
    (t : Router) (p : MysqlPool) (e : DeleteEnv) (c : ℕ) (cs : List ℕ) (n : ℕ)
    → p.pool ≡ c ∷ cs
    → e.code ≡ 0
    → let d = delete_id t p e (value (pos n)) in
      (sent_sql d ≡ some (codes "DELETE FROM api_routes WHERE id = " ++ to_string n))
      × (result_of d
          ≡ (if e.delete_code == 0 then after_loaded (reload_of t p e c cs) else some false))
unfolding delete_id print_int
delete_id_sends t p e c cs n h k =
    let got : acquire p e.code e.fresh ≡ lent c (taken p cs) =
      rw k (acquire_healthy p c cs e.fresh h) in
    elim (Bool-cases (e.delete_code == 0)) [
      | inl yes_sent ↦
          rw (got, yes_sent, delete_id, if◌then◌else◌)
            (after_reload-result (delete_sql (pos n)) (reload_of t p e c cs))
      | inr failed ↦ rw (got, failed, delete_id, if◌then◌else◌) (refl, refl)
    ]

-- Given a text with the key `"id"`, a colon and the number `n` behind it, below 2 ^ 31, with no quote before the
-- key, no colon between the two and no digit before the number, and a healthy connection in front
-- of the pool, `deleteRoute` sends the statement that deletes the row with the id `n`. If the statement
-- fails, the result is false; if it goes through, the result is true, also where the reload on the pool
-- with the connection back returns false, and an exception exactly where that reload throws.
pub delete_route_sends :
    (t : Router) (p : MysqlPool) (e : DeleteEnv) (c : ℕ) (cs : List ℕ) (pre mid gap rest : Bytes)
    (n : ℕ)
    → n < 2 ^ 31
    → Lacks b'"' pre
    → Lacks b':' mid
    → HasNoDigit gap
    → NoDigit rest
    → p.pool ≡ c ∷ cs
    → e.code ≡ 0
    → let json = pre ++ (codes "\"id\"" ++ (mid ++ b':' ∷ (gap ++ (to_string n ++ rest)))) in
      let d = delete_route t p e json in
      (sent_sql d ≡ some (codes "DELETE FROM api_routes WHERE id = " ++ to_string n))
      × (result_of d
          ≡ (if e.delete_code == 0 then after_loaded (reload_of t p e c cs) else some false))
delete_route_sends t p e c cs pre mid gap rest n small hp hm hg hr h k =
    rw (delete_route_id t p e pre mid gap rest n small hp hm hg hr)
      (delete_id_sends t p e c cs n h k)
