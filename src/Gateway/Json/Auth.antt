-- ===== src/Gateway/Json/Auth.antt =====
-- The routes as they are listed, against the rules that are applied.
use lfgateway.Base.{◌≡◌, ◌≢◌, true, some, arith}
use lfgateway.Base.Text.{Bytes, codes, equal_iff}
use lfgateway.Base.Int.{ℤ, pos, value, stoi}
use lfgateway.Router.{Row, RouteRule, rule_of}
use lfgateway.Gateway.Json.{auth_text}

-- The listing calls a route open though its requests need a token: so it is for every row whose
-- `need_auth` is a number other than 0 that is not written `1`.
pub auth_listed_wrong :
    (row : Row) (text : Bytes) (n : ℤ) (rule : RouteRule)
    → row.need_auth ≡ some text
    → stoi text ≡ value n
    → n ≢ pos 0
    → text ≢ codes "1"
    → rule_of row ≡ some rule
    → (rule.need_auth ≡ true) × (auth_text row.need_auth ≡ codes "false")
unfolding rule_of auth_text
auth_listed_wrong row text n rule e read nonzero other made =
    ground (arith, equal_iff text (codes "1"))
