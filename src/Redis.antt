-- ===== src/Redis.antt =====
-- gateway/include/redis_client.h and gateway/src/redis_client.cpp: the connection pool, the
-- commands and the stream commands. The server behind hiredis is a parameter.
pub mod Pool
pub mod Client
pub mod Streams
mod Tests
use lfgateway.Base.{
  ℕ, zero, suc, Bool, true, false, Option, none, some, List, [], ◌∷◌, ◌++◌, if◌then◌else◌, ◌==◌,
}
use lfgateway.Base.Text.{Bytes}
use lfgateway.Base.Int.{ℤ}

-- `redisReply`, by its `type`.
mutual
  pub data Reply : Type 0 where
    status : Bytes → Reply
    error : Bytes → Reply
    integer : ℤ → Reply
    nil : Reply
    string : Bytes → Reply
    array : Replies → Reply

  pub data Replies : Type 0 where
    end : Replies
    element : Reply → Replies → Replies

-- `reply->str` with `reply->len`; a null pointer with length 0 makes an empty string.
unfoldable pub str_of : Reply → Bytes
str_of (status s) = s
str_of (error s) = s
str_of (integer n) = []
str_of nil = []
str_of (string s) = s
str_of (array rs) = []

-- `reply->element[0 .. reply->elements)`; only arrays have elements.
unfoldable pub elements_of : Reply → Replies
elements_of (array rs) = rs
elements_of _ = end

-- What goes to hiredis: a format whose `%s` and `%d` are filled in, by its words, or a text that
-- is passed as the format itself.
pub data Command : Type 0 where
  args : List Bytes → Command
  format : Bytes → Command

-- The server as the client sees it; no reply is `nullptr`.
pub record Server : Type 1 where
  pub State : Type 0
  pub send : Command → State → Option Reply × State

-- The text up to its first NUL, which is what `c_str()` hands to C code.
unfoldable pub c_str : Bytes → Bytes
c_str [] = []
c_str (c ∷ s) = if c == 0 then [] else c ∷ c_str s
