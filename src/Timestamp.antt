-- ===== src/Timestamp.antt =====
-- `Timestamp::now` (include/base/timestamp.hpp). What `strftime` makes of the local time is an argument.
use lfgateway.Base.{ℕ, ◌%◌, ◌≡◌, refl, ◌∷◌, ◌++◌}
use lfgateway.Base.Text.{Bytes, codes}
use lfgateway.Base.Decimal.{to_string}

-- `since_epoch` is in milliseconds.
unfoldable pub now : Bytes → ℕ → Bytes
now seconds since_epoch = seconds ++ b'.' ∷ to_string (since_epoch % 1000)

-- Five milliseconds look like half a second.
not_padded : now (codes "12:00:00") 43200005 ≡ codes "12:00:00.5"
unfolding now to_string
not_padded = refl
