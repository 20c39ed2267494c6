-- ===== src/Gateway/Whole/Status.antt =====
-- The status line of a response.
use lfgateway.Base.{
  ℕ, ◌+◌, ◌≡◌, refl, ◌⊎◌, inl, inr, Bool, true, false, some, List, [], ◌∷◌, ◌++◌, arith,
  if◌then◌else◌, ◌==◌,
}
use lfgateway.Base.Text.{Bytes, codes, starts_with}
use lfgateway.Base.Decimal.{to_string}
use lfgateway.Redis.{Server}
use lfgateway.Gateway.{Gateway}
use lfgateway.Gateway.Process.{Env, handle_request}
use lfgateway.Gateway.Respond.{response}
use lfgateway.Gateway.Flow.{Call}

-- How many of the texts begin with a line.
unfoldable pub with_status : Bytes → List (Call × Bytes) → ℕ
with_status line [] = 0
with_status line (a ∷ l) = (if starts_with line a.1 then 1 else 0) + with_status line l

pub with_status-append_one :
    (line : Bytes) (l : List (Call × Bytes)) (a : Call × Bytes)
    → with_status line (l ++ a ∷ []) ≡ with_status line l + with_status line (a ∷ [])
unfolding with_status
with_status-append_one line [] a = omega arith
with_status-append_one line (b ∷ l) a = omega (arith, with_status-append_one line l a)

-- The codes that a request can get.
abbrev pub IsCode : ℕ → Type 0
IsCode c = (c ≡ 200) ⊎ (c ≡ 400) ⊎ (c ≡ 401) ⊎ (c ≡ 404) ⊎ (c ≡ 429)

-- The status line is in front.
pub response_line :
    (code : ℕ) (body : Bytes)
    → (rest : Bytes) × (response code body ≡ codes "HTTP/1.1 " ++ (to_string code ++ rest))
unfolding response
response_line code body = (_, refl)

-- What the tests find where the digits of the code are `digits`.
abbrev pub Reads : Bytes → Bytes → Bool → Bool → Type 0
Reads digits rest auth limit =
    (starts_with (codes "HTTP/1.1 401") (codes "HTTP/1.1 " ++ (digits ++ rest)) ≡ auth)
    × (starts_with (codes "HTTP/1.1 429") (codes "HTTP/1.1 " ++ (digits ++ rest)) ≡ limit)

five_lines :
    (rest : Bytes)
    → Reads (codes "200") rest false false
      × Reads (codes "400") rest false false
      × Reads (codes "401") rest true false
      × Reads (codes "404") rest false false
      × Reads (codes "429") rest false true
unfolding starts_with
five_lines rest = ((refl, refl), (refl, refl), (refl, refl), (refl, refl), (refl, refl))

printed_codes :
    (to_string 200 ≡ codes "200")
    × (to_string 400 ≡ codes "400")
    × (to_string 401 ≡ codes "401")
    × (to_string 404 ≡ codes "404")
    × (to_string 429 ≡ codes "429")
unfolding to_string
printed_codes = (refl, refl, refl, refl, refl)

pub line_read :
    (code : ℕ) (rest : Bytes)
    → IsCode code
    → Reads (to_string code) rest (code == 401) (code == 429)
line_read code rest (inl e) = rw (e, printed_codes.0) (five_lines rest).0
line_read code rest (inr (inl e)) = rw (e, printed_codes.1) (five_lines rest).1
line_read code rest (inr (inr (inl e))) = rw (e, printed_codes.2) (five_lines rest).2
line_read code rest (inr (inr (inr (inl e)))) = rw (e, printed_codes.3) (five_lines rest).3
line_read code rest (inr (inr (inr (inr e)))) = rw (e, printed_codes.4) (five_lines rest).4

module _ (s : Server) where
  pub handle-IsCode :
      (e : Env) (g : Gateway) (raw : Bytes) (st : s.State) (code : ℕ) (body : Bytes)
      → (handle_request s e g raw st).sent ≡ some (code, body)
      → IsCode code
  unfolding handle_request
  handle-IsCode e g raw st code body h = ground arith
