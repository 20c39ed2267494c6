-- ===== src/Redis/Client.antt =====
-- The basic commands of `RedisClient`.
use lfgateway.Base.{Bool, true, false, Option, some, [], ◌∷◌, ◌==◌}
use lfgateway.Base.Text.{Bytes, codes, equal}
use lfgateway.Base.Int.{ℤ, pos, negsuc, print_int}
use lfgateway.Redis.{Reply, status, integer, string, args, Server, c_str}

-- `reply->type == REDIS_REPLY_INTEGER && reply->integer == 1`
unfoldable pub is_one : Option Reply → Bool
is_one (some (integer (pos n))) = n == 1
is_one _ = false

is_ok : Option Reply → Bool
unfolding equal
is_ok (some (status s)) = equal s (codes "OK")
is_ok _ = false

text_of : Option Reply → Bytes
text_of (some (string s)) = s
text_of _ = []

number_of : Option Reply → ℤ
number_of (some (integer n)) = n
number_of _ = negsuc 0

unfoldable pub is_integer : Option Reply → Bool
is_integer (some (integer n)) = true
is_integer _ = false

module _ (s : Server) where
  open s use {State, send}

  unfoldable pub setex : Bytes → ℤ → Bytes → State → Bool × State
  unfolding is_ok
  setex key seconds value st =
      let r = send (args (codes "SETEX" ∷ c_str key ∷ print_int seconds ∷ c_str value ∷ [])) st in
      (is_ok r.0, r.1)

  unfoldable pub get : Bytes → State → Bytes × State
  unfolding text_of
  get key st = let r = send (args (codes "GET" ∷ c_str key ∷ [])) st in (text_of r.0, r.1)

  unfoldable pub incr : Bytes → State → ℤ × State
  unfolding number_of
  incr key st = let r = send (args (codes "INCR" ∷ c_str key ∷ [])) st in (number_of r.0, r.1)

  unfoldable pub expire : Bytes → ℤ → State → Bool × State
  unfolding is_one
  expire key seconds st =
      let r = send (args (codes "EXPIRE" ∷ c_str key ∷ print_int seconds ∷ [])) st in
      (is_one r.0, r.1)

  unfoldable pub exists : Bytes → State → Bool × State
  unfolding is_one
  exists key st = let r = send (args (codes "EXISTS" ∷ c_str key ∷ [])) st in (is_one r.0, r.1)

  unfoldable pub publish : Bytes → Bytes → State → Bool × State
  unfolding is_integer
  publish channel message st =
      let r = send (args (codes "PUBLISH" ∷ c_str channel ∷ c_str message ∷ [])) st in
      (is_integer r.0, r.1)
