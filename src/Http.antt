-- ===== src/Http.antt =====
-- include/http/http_parser.hpp: the incremental request parser.
pub mod Rounds
pub mod Chunks
pub mod Print
pub mod RoundTrip
mod Tests
use lfgateway.Base.{
  ℕ, zero, suc, ◌+◌, Bool, true, false, Option, none, some, List, [], ◌∷◌, ◌++◌, if◌then◌else◌, ltb,
  ◌==◌, length, take, drop,
}
use lfgateway.Base.Text.{Bytes, codes, equal, find}
use lfgateway.Base.Int.{ℤ, Stoi, value, invalid_argument, out_of_range, stoi, to_size}
use lfgateway.Base.Maps.{lookup, insert}

pub record HttpRequest : Type 0 where
  pub method : Bytes
  pub path : Bytes
  pub version : Bytes
  pub headers : List (Bytes × Bytes)
  pub body : Bytes

abbrev pub empty_request : HttpRequest
empty_request = record { method = []; path = []; version = []; headers = []; body = [] }

pub data State : Type 0 where
  method path version header body done : State

-- The parser's fields and the caller's request, which `parse` takes by reference.
pub record HttpParser : Type 0 where
  pub state : State
  pub buffer : Bytes
  pub req : HttpRequest

abbrev pub initial : HttpParser
initial = record { state = method; buffer = []; req = empty_request }

-- What one round of the loop does: go on, return a Boolean, or let an exception of `stoi` out.
pub data Step : Type 0 where
  next : HttpParser → Step
  return : Bool → HttpParser → Step
  throw : HttpParser → Step

abbrev pub crlf : Bytes
crlf = 13 ∷ 10 ∷ []

parse_method : HttpParser → Step
parse_method p = elim (find (b' ' ∷ []) p.buffer) [
  | none ↦ return false p
  | some pos ↦ next (record {
    state = path;
    buffer = drop (pos + 1) p.buffer;
    req = record p.req { method = take pos p.buffer };
  })
]

parse_path : HttpParser → Step
parse_path p = elim (find (b' ' ∷ []) p.buffer) [
  | none ↦ return false p
  | some pos ↦ next (record {
    state = version;
    buffer = drop (pos + 1) p.buffer;
    req = record p.req { path = take pos p.buffer };
  })
]

parse_version : HttpParser → Step
parse_version p = elim (find crlf p.buffer) [
  | none ↦ return false p
  | some pos ↦ next (record {
    state = header;
    buffer = drop (pos + 2) p.buffer;
    req = record p.req { version = take pos p.buffer };
  })
]

-- `if (!value.empty() && value[0] == ' ') value.erase(0, 1);`
unfoldable pub trim_one : Bytes → Bytes
trim_one [] = []
trim_one (c ∷ s) = if c == b' ' then s else c ∷ s

-- A line with no colon is skipped.
unfoldable pub add_header : Bytes → HttpRequest → HttpRequest
unfolding trim_one
add_header line r = elim (find (b':' ∷ []) line) [
  | none ↦ r
  | some colon ↦ record r {
    headers = insert (take colon line) (trim_one (drop (colon + 1) line)) r.headers;
  }
]

parse_header : HttpParser → Step
parse_header p =
    if equal (take 2 p.buffer) crlf
    then next (record {
      state = if equal p.req.method (codes "POST") then body else done;
      buffer = drop 2 p.buffer;
      req = p.req;
    })
    else elim (find crlf p.buffer) [
      | none ↦ return false p
      | some pos ↦ next (record {
        state = header;
        buffer = drop (pos + 2) p.buffer;
        req = add_header (take pos p.buffer) p.req;
      })
    ]

take_body : HttpParser → Stoi → Step
take_body p (value n) =
    if ltb (length p.buffer) (to_size n)
    then return false p
    else next (record {
      state = done;
      buffer = drop (to_size n) p.buffer;
      req = record p.req { body = take (to_size n) p.buffer };
    })
take_body p invalid_argument = throw p
take_body p out_of_range = throw p

parse_body : HttpParser → Step
unfolding take_body
parse_body p = elim (lookup (codes "Content-Length") p.req.headers) [
  | none ↦ next (record p { state = done })
  | some v ↦ take_body p (stoi v)
]

-- One round of `while (state_ != DONE) switch (state_)`.
round_in : State → HttpParser → Step
unfolding parse_method parse_path parse_version parse_header parse_body
round_in method p = parse_method p
round_in path p = parse_path p
round_in version p = parse_version p
round_in header p = parse_header p
round_in body p = parse_body p
round_in done p = return true p

unfoldable pub round : HttpParser → Step
unfolding round_in
round p = round_in p.state p

-- How a call of `parse` ends; `out_of_fuel` is no outcome of the code.
pub data Outcome : Type 0 where
  returned : Bool → HttpParser → Outcome
  threw : HttpParser → Outcome
  out_of_fuel : Outcome

unfoldable pub run : ℕ → HttpParser → Outcome
run zero p = out_of_fuel
run (suc f) p = elim (round p) [ next q ↦ run f q | return b q ↦ returned b q | throw q ↦ threw q ]

-- A bound on the rounds that a parser can still make.
unfoldable pub rank : State → ℕ
rank method = 5
rank path = 4
rank version = 3
rank header = 2
rank body = 1
rank done = 0

unfoldable pub fuel : HttpParser → ℕ
unfolding rank
fuel p = suc (length p.buffer + rank p.state)

-- `parse(data, len, req)`
unfoldable pub parse : HttpParser → Bytes → Outcome
parse p chunk = let q = record p { buffer = p.buffer ++ chunk } in run (fuel q) q

-- `reset()`: the request is the caller's, and stays.
unfoldable pub reset : HttpParser → HttpParser
reset p = record p { state = method; buffer = [] }
