-- ===== src/Redis/Streams/Documented.antt =====
-- What `xreadgroup` makes of the reply that the documentation of XREADGROUP describes: an array of
-- streams, each the pair of its name and the array of its entries, each the pair of an
-- identifier and the array of its fields.
use lfgateway.Base.{◌≡◌, refl, some, List, [], ◌∷◌, ◌++◌}
use lfgateway.Base.Text.{Bytes, codes}
use lfgateway.Base.Maps.{insert}
use lfgateway.Redis.{Reply, string, array, Replies, end, element}
use lfgateway.Redis.Streams.{Message, messages_of}

abbrev pub field_replies : List (Bytes × Bytes) → Replies
field_replies [] = end
field_replies ((k, v) ∷ fs) = element (string k) (element (string v) (field_replies fs))

-- An entry of a stream: its identifier and its fields.
abbrev pub Entry : Type 0
Entry = Bytes × List (Bytes × Bytes)

abbrev pub entry_reply : Entry → Reply
entry_reply (id, fs) = array (element (string id) (element (array (field_replies fs)) end))

abbrev pub entry_replies : List Entry → Replies
entry_replies [] = end
entry_replies (e ∷ es) = element (entry_reply e) (entry_replies es)

abbrev pub stream_reply : Bytes × List Entry → Reply
stream_reply (name, es) = array (element (string name) (element (array (entry_replies es)) end))

abbrev pub stream_replies : List (Bytes × List Entry) → Replies
stream_replies [] = end
stream_replies (s ∷ ss) = element (stream_reply s) (stream_replies ss)

-- The map that the code builds from the first two entries of a stream.
abbrev pub misread : List Entry → List Message
misread [] = []
misread (e ∷ []) = []
misread (e ∷ (id, fs) ∷ es) = insert id [] (insert (codes "id") [] []) ∷ []

abbrev pub misread_all : List (Bytes × List Entry) → List Message
misread_all [] = []
misread_all ((name, es) ∷ ss) = misread es ++ misread_all ss

-- The code reads a documented reply one level too high: of each stream it returns nothing if there
-- is at most one entry, and otherwise one map, with an empty `id` and the second entry's
-- identifier as a key with an empty value. No field of any entry comes through.
pub messages_of-documented :
    (ss : List (Bytes × List Entry))
    → messages_of (some (array (stream_replies ss))) ≡ some (misread_all ss)
unfolding messages_of
messages_of-documented [] = refl
messages_of-documented ((name, []) ∷ ss) = rw (messages_of-documented ss)
messages_of-documented ((name, e ∷ []) ∷ ss) = rw (messages_of-documented ss)
messages_of-documented ((name, e ∷ f ∷ es) ∷ ss) = rw (messages_of-documented ss)
