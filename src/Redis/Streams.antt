-- ===== src/Redis/Streams.antt =====
-- The stream commands of `RedisClient`: their texts, and the reading of replies.
pub mod Documented
use lfgateway.Base.{
  ℕ, ◌≡◌, refl, Bool, true, false, ◌&&◌, Option, none, some, List, [], ◌∷◌, ◌++◌, if◌then◌else◌,
  ◌==◌, arith,
}
use lfgateway.Base.Text.{Bytes, codes}
use lfgateway.Base.Int.{ℤ, print_int}
use lfgateway.Base.Maps.{insert}
use lfgateway.Redis.{
  Reply, status, error, integer, nil, string, array, Replies, end, element, str_of, elements_of,
  Command, args, format, Server, c_str,
}
use lfgateway.Redis.Client.{is_one}

abbrev pub Message : Type 0
Message = List (Bytes × Bytes)

is_string : Option Reply → Bool
is_string (some (string s)) = true
is_string _ = false

field_words : List (Bytes × Bytes) → Bytes
field_words [] = []
field_words ((k, v) ∷ fs) = k ++ (b' ' ∷ (v ++ (b' ' ∷ field_words fs)))

-- The text of `xadd`; its parameter `id` is not used. The fields come in the order of the map.
unfoldable pub xadd_text : Bytes → List (Bytes × Bytes) → Bytes
unfolding field_words
xadd_text key fields = codes "XADD " ++ (key ++ (codes " MAXLEN ~ 10000 * " ++ field_words fields))

-- `fields->element[k]` and `[k + 1]` in steps of two; `none` is the read past the end that an
-- odd number of elements leads to.
unfoldable pub read_fields : Replies → Message → Option Message
unfolding str_of
read_fields end m = some m
read_fields (element k end) m = none
read_fields (element k (element v rest)) m = read_fields rest (insert (str_of k) (str_of v) m)

-- One `msgArray`: nothing is pushed unless it has two elements.
unfoldable pub read_message : Replies → Option (List Message)
unfolding read_fields elements_of
read_message end = some []
read_message (element a end) = some []
read_message (element a (element fs rest)) =
    elim (read_fields (elements_of fs) (insert (codes "id") (str_of a) [])) [
      | none ↦ none
      | some m ↦ some (m ∷ [])
    ]

abbrev pub both : Option (List Message) → Option (List Message) → Option (List Message)
both (some a) (some b) = some (a ++ b)
both _ _ = none

-- The loop over `j`.
unfoldable pub read_stream : Replies → Option (List Message)
unfolding read_message
read_stream end = some []
read_stream (element r rs) = both (read_message (elements_of r)) (read_stream rs)

-- The loop over `i`.
unfoldable pub read_streams : Replies → Option (List Message)
unfolding read_stream
read_streams end = some []
read_streams (element r rs) = both (read_stream (elements_of r)) (read_streams rs)

unfoldable pub messages_of : Option Reply → Option (List Message)
unfolding read_streams
messages_of (some (array rs)) = read_streams rs
messages_of _ = some []

module _ (s : Server) where
  open s use {State, send}

  unfoldable pub xadd : Bytes → Bytes → List (Bytes × Bytes) → State → Bool × State
  unfolding xadd_text is_string
  xadd key id fields st =
      let r = send (format (c_str (xadd_text key fields))) st in (is_string r.0, r.1)

  unfoldable pub xgroup_create : Bytes → Bytes → Bytes → State → Bool × State
  xgroup_create stream group start_id st =
      let cmd = codes "XGROUP CREATE " ++ (stream ++ (b' ' ∷ (group ++ (b' ' ∷ start_id)))) in
      (true, (send (format (c_str cmd)) st).1)

  -- `none` where reading the reply runs past an array.
  unfoldable pub xreadgroup :
      Bytes → Bytes → Bytes → Bytes → ℤ → State → Option (List Message) × State
  unfolding messages_of
  xreadgroup group consumer stream id count st =
      let cmd =
        codes "XREADGROUP GROUP "
        ++ (group
            ++ (b' '
                ∷ (consumer
                    ++ (codes " COUNT "
                        ++ (print_int count
                            ++ (codes " STREAMS " ++ (stream ++ (b' ' ∷ id)))))))) in
      let r = send (format (c_str cmd)) st in (messages_of r.0, r.1)

  unfoldable pub xack : Bytes → Bytes → Bytes → State → Bool × State
  unfolding is_one
  xack stream group id st =
      let cmd = codes "XACK " ++ (stream ++ (b' ' ∷ (group ++ (b' ' ∷ id)))) in
      let r = send (format (c_str cmd)) st in (is_one r.0, r.1)
