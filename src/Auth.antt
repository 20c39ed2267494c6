-- ===== src/Auth.antt =====
-- gateway/src/auth_plugin.cpp, and the part of `processApiRequest` that takes the token out of the
-- header.
use lfgateway.Base.{
  Bool, true, false, not, ◌&&◌, Option, none, some, List, [], ◌∷◌, ◌++◌, if◌then◌else◌, drop,
}
use lfgateway.Base.Text.{Bytes, codes, starts_with}
use lfgateway.Base.Maps.{lookup}
use lfgateway.Redis.{Server}
use lfgateway.Redis.Client.{get}

abbrev pub is_empty : Bytes → Bool
is_empty [] = true
is_empty (c ∷ s) = false

-- The text behind `Bearer ` in the header `Authorization`, or the empty text.
unfoldable pub bearer_token : List (Bytes × Bytes) → Bytes
bearer_token headers = elim (lookup (codes "Authorization") headers) [
  | none ↦ []
  | some v ↦ if not (is_empty v) && starts_with (codes "Bearer ") v then drop 7 v else []
]

abbrev pub token_key : Bytes → Bytes
token_key token = codes "token:" ++ token

module _ (s : Server) where
  open s use {State}

  -- `validate`: the user's name if the token is valid.
  unfoldable pub validate : Bytes → State → Option Bytes × State
  validate token st =
      let r = get s (token_key token) st in (if is_empty r.0 then none else some r.0, r.1)
