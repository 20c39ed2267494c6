-- ===== src/Gateway/Delete.antt =====
-- `addRoute` and `deleteRoute`.
pub mod Parses
use lfgateway.Base.{
  ℕ, ◌+◌, Bool, true, false, not, Option, none, some, List, [], ◌∷◌, ◌++◌, if◌then◌else◌, ◌==◌,
  take, drop,
}
use lfgateway.Base.Text.{Bytes, codes, find, find_if}
use lfgateway.Base.Decimal.{is_digit}
use lfgateway.Base.Int.{ℤ, Stoi, value, invalid_argument, out_of_range, stoi, print_int}
use lfgateway.Mysql.Pool.{MysqlPool, Connect, Acquired, lent, acquire, release}
use lfgateway.Router.{Router, Answer, Loaded, load_from_mysql}

-- `addRoute` does not read its text.
unfoldable pub add_route : Router → MysqlPool → ℕ → Connect → Answer → Loaded
add_route t p code fresh answer = load_from_mysql t p code fresh answer

-- `json.substr(start, end - start)` for the first byte that is no digit; `npos` means to the end.
unfoldable pub digits_at : Bytes → Bytes
digits_at s = elim (find_if (λ c. not (is_digit c)) s) [ none ↦ s | some n ↦ take n s ]

-- The text of the number behind the first colon behind `"id"`; `none` where the code returns false.
unfoldable pub id_text : Bytes → Option Bytes
id_text json = elim (find (codes "\"id\"") json) [
  | none ↦ none
  | some i ↦ elim (find (b':' ∷ []) (drop i json)) [
    | none ↦ none
    | some j ↦ elim (find_if is_digit (drop j (drop i json))) [
      | none ↦ none
      | some k ↦ some (digits_at (drop k (drop j (drop i json))))
    ]
  ]
]

abbrev pub delete_sql : ℤ → Bytes
delete_sql n = codes "DELETE FROM api_routes WHERE id = " ++ print_int n

-- What the database and the pool give to the two statements: the delete, then the reload.
pub record DeleteEnv : Type 0 where
  pub code : ℕ
  pub fresh : Connect
  pub delete_code : ℕ
  pub reload_code : ℕ
  pub reload_fresh : Connect
  pub reload_answer : Answer

-- A result, or an exception of `stoi` or of the pool, with the statement that was sent.
pub data Deleted : Type 0 where
  returned : Bool → Option Bytes → Router → MysqlPool → Deleted
  threw : Option Bytes → Router → MysqlPool → Deleted

-- The result of the reload is not looked at.
after_reload : Bytes → Loaded → Deleted
after_reload sql (Loaded.returned ok t p) = Deleted.returned true (some sql) t p
after_reload sql (Loaded.threw t p) = Deleted.threw (some sql) t p

unfoldable pub delete_id : Router → MysqlPool → DeleteEnv → Stoi → Deleted
unfolding after_reload
delete_id t p e (value n) = elim (acquire p e.code e.fresh) [
  | Acquired.threw x q ↦ Deleted.threw none t q
  | lent c q ↦
      if e.delete_code == 0
      then after_reload (delete_sql n)
          (load_from_mysql t (release q (some c)) e.reload_code e.reload_fresh e.reload_answer)
      else Deleted.returned false (some (delete_sql n)) t (release q (some c))
]
delete_id t p e invalid_argument = Deleted.threw none t p
delete_id t p e out_of_range = Deleted.threw none t p

unfoldable pub delete_route : Router → MysqlPool → DeleteEnv → Bytes → Deleted
unfolding delete_id
delete_route t p e json = elim (id_text json) [
  | none ↦ Deleted.returned false none t p
  | some s ↦ delete_id t p e (stoi s)
]
