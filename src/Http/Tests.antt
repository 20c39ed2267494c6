-- ===== src/Http/Tests.antt =====
-- Runs of the parser on small requests, and the theorems about it at them.
use lfgateway.Base.{◌≡◌, ◌≢◌, refl, true, some, List, [], ◌∷◌, ◌++◌, arith, length}
use lfgateway.Base.Text.{Bytes, codes, find}
use lfgateway.Base.Int.{stoi}
use lfgateway.Base.Decimal.{to_string}
use lfgateway.Base.Maps.{lookup, insert}
use lfgateway.Http.{
  HttpParser, done, body, crlf, round, run, fuel, returned, threw, out_of_fuel, parse, initial,
  add_header,
}
use lfgateway.Http.Chunks.{resume, parse-append, parse-ne-out_of_fuel}
use lfgateway.Http.Print.{print_request, insert_all}
use lfgateway.Http.RoundTrip.{parse-print_request_post}

abbrev get_headers : List (Bytes × Bytes)
get_headers = (codes "Host", codes "h") ∷ (codes "Authorization", codes "Bearer t1") ∷ []

abbrev post_headers : List (Bytes × Bytes)
post_headers = (codes "Content-Length", codes "3") ∷ []

abbrev get_request : Bytes
get_request = print_request (codes "GET") (codes "/api/test") (codes "HTTP/1.1") get_headers []

get_request_text :
    get_request
    ≡ codes "GET /api/test HTTP/1.1"
      ++ crlf
      ++ codes "Host: h"
      ++ crlf
      ++ codes "Authorization: Bearer t1"
      ++ crlf
      ++ crlf
get_request_text = refl

-- A value with no space after the colon, and a line with no colon.
header_lines :
    (parse initial (codes "GET / V" ++ crlf ++ codes "a:b" ++ crlf ++ codes "zzz" ++ crlf ++ crlf)
      ≡ returned true (record {
        state = done;
        buffer = [];
        req = record {
          method = codes "GET";
          path = codes "/";
          version = codes "V";
          headers = (codes "a", codes "b") ∷ [];
          body = [];
        };
      }))
unfolding parse run round fuel add_header insert find
header_lines = refl

-- A length that is no number lets an exception out of `parse`.
bad_length :
    (p : HttpParser) × (parse initial
        (codes "POST / V" ++ crlf ++ codes "Content-Length: x" ++ crlf ++ crlf)
      ≡ threw p)
unfolding parse run round fuel add_header insert lookup find stoi
bad_length = (
  record {
    state = body;
    buffer = [];
    req = record {
      method = codes "POST";
      path = codes "/";
      version = codes "V";
      headers = (codes "Content-Length", codes "x") ∷ [];
      body = [];
    };
  },
  refl,
)

parse-append_example :
    parse initial (codes "GET /a" ++ codes "pi V")
    ≡ resume (parse initial (codes "GET /a")) (codes "pi V")
parse-append_example = parse-append initial (codes "GET /a") (codes "pi V")

parse-ne-out_of_fuel_example : parse initial get_request ≢ out_of_fuel
parse-ne-out_of_fuel_example = parse-ne-out_of_fuel initial get_request

content_length :
    lookup (codes "Content-Length") (insert_all post_headers [])
    ≡ some (to_string (length (codes "abc")))
unfolding lookup insert to_string
content_length = refl

parse-print_request_post_example :
    parse initial (
      print_request
        (codes "POST")
        (codes "/x")
        (codes "V")
        post_headers
        (codes "abc" ++ codes "GET"))
    ≡ returned true (record {
      state = done;
      buffer = codes "GET";
      req = record {
        method = codes "POST";
        path = codes "/x";
        version = codes "V";
        headers = post_headers;
        body = codes "abc";
      };
    })
unfolding insert
parse-print_request_post_example =
    parse-print_request_post (codes "/x") (codes "V") (codes "abc") (codes "GET") post_headers
      (omega arith) (omega arith) (omega arith) content_length (omega arith)
