-- ===== src/Limiter/Window/Counted.antt =====
-- What the fixed window lets through, over a server that counts as INCR is documented to.
use Prim.Native.Nat.{min}
use lfgateway.Base.{
  ℕ, zero, suc, ◌+◌, ◌-◌, ◌<◌, ◌≡◌, Bool, true, false, some, List, [], ◌∷◌, arith, leb,
}
use lfgateway.Base.Text.{Bytes, codes}
use lfgateway.Base.Int.{ℤ, pos, print_int}
use lfgateway.Redis.{integer, args, Server, c_str}
use lfgateway.Redis.Client.{incr, expire, is_integer}
use lfgateway.Limiter.Bucket.{count}
use lfgateway.Limiter.Window.{window_key, is_allowed}

-- INCR adds one to the key's counter and answers with it; EXPIRE leaves the counters that have not
-- run out.
pub record CountsKeys (s : Server) : Type 0 where
  pub counter : s.State → Bytes → ℕ
  pub incr_reply :
      (k : Bytes) (st : s.State)
      → let r = s.send (args (codes "INCR" ∷ k ∷ [])) st in
        (r.0 ≡ some (integer (pos (counter st k + 1)))) × (counter r.1 k ≡ counter st k + 1)
  pub expire_keeps :
      (k n : Bytes) (st : s.State)
      → counter (s.send (args (codes "EXPIRE" ∷ k ∷ n ∷ [])) st).1 k ≡ counter st k

-- The answers to `n` requests in a row, all in the second `now`.
unfoldable pub answers : (s : Server) → ℕ → Bytes → ℤ → ℕ → s.State → List Bool
answers s now key_prefix limit zero st = []
answers s now key_prefix limit (suc n) st =
    let r = is_allowed s now key_prefix limit st in r.0 ∷ answers s now key_prefix limit n r.1

module _ (s : Server) (c : CountsKeys s) (now : ℕ) (key_prefix : Bytes) (m : ℕ) where
  open c use {counter, incr_reply, expire_keeps}

  abbrev key : Bytes
  key = c_str (window_key key_prefix now)

  pub one_call :
      (st : s.State)
      → 0 < m
      → let r = is_allowed s now key_prefix (pos m) st in
        (r.0 ≡ leb (counter st key + 1) m) × (counter r.1 key ≡ counter st key + 1)
  unfolding is_allowed incr expire
  one_call st h = ground (
    arith,
    incr_reply key st,
    expire_keeps key (print_int (pos 2)) (s.send (args (codes "INCR" ∷ key ∷ [])) st).1,
  )

  -- With a server that runs INCR and EXPIRE as documented and a limit of `m`, not 0: of `n` requests
  -- in the same second exactly `m - counter` pass, or all if they are fewer, where `counter` is what
  -- the counter stood at.
  pub count-answers :
      (n : ℕ) (st : s.State)
      → 0 < m
      → count (answers s now key_prefix (pos m) n st) ≡ min n (m - counter st key)
  unfolding answers
  count-answers zero st h = omega arith
  count-answers (suc n) st h =
      let r = is_allowed s now key_prefix (pos m) st in
      ground (arith, one_call st h, count-answers n r.1 h)

-- Where the server gives no number, as when it cannot be reached, the plugin lets the request pass
-- whatever the limit is.
pub is_allowed-no_number :
    (s : Server) (now : ℕ) (key_prefix : Bytes) (limit : ℤ) (st : s.State)
    → is_integer (s.send (args (codes "INCR" ∷ c_str (window_key key_prefix now) ∷ [])) st).0
      ≡ false
    → (is_allowed s now key_prefix limit st).0 ≡ true
unfolding is_allowed incr is_integer
is_allowed-no_number s now key_prefix limit st h = ground arith
