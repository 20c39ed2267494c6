-- ===== src/Gateway/Respond.antt =====
-- `sendResponse`: the text of a response.
use lfgateway.Base.{ℕ, ◌≡◌, refl, ◌∙◌, ap, true, false, List, [], ◌∷◌, ◌++◌, arith, length}
use lfgateway.Base.Text.{Bytes, codes, Lacks}
use lfgateway.Base.Decimal.{to_string, to_string-AreDigits, AreDigits-Lacks, is_digit}
use lfgateway.Base.Maps.{insert}
use lfgateway.Http.{parse, initial, returned, done, crlf}
use lfgateway.Http.Print.{print_request, ArePlain}
use lfgateway.Http.RoundTrip.{parse-print_request}

unfoldable pub response : ℕ → Bytes → Bytes
response code body =
    codes "HTTP/1.1 "
    ++ (to_string code
        ++ (codes " OK"
            ++ (crlf
                ++ (codes "Content-Type: application/json"
                    ++ (crlf
                        ++ (codes "Content-Length: "
                            ++ (to_string (length body)
                                ++ (crlf
                                    ++ (codes "Connection: keep-alive"
                                        ++ (crlf
                                            ++ (codes "Server: LFGateway/1.0"
                                                ++ (crlf ++ (crlf ++ body)))))))))))))

abbrev pub response_headers : ℕ → List (Bytes × Bytes)
response_headers n =
    (codes "Content-Type", codes "application/json")
    ∷ (codes "Content-Length", to_string n)
    ∷ (codes "Connection", codes "keep-alive")
    ∷ (codes "Server", codes "LFGateway/1.0")
    ∷ []

response_lem :
    (code : ℕ) (body : Bytes)
    → response code body
      ≡ print_request
          (codes "HTTP/1.1")
          (to_string code)
          (codes "OK")
          (response_headers (length body))
          body
unfolding response
response_lem code body = refl

to_string-Lacks : (b n : ℕ) → is_digit b ≡ false → Lacks b (to_string n)
to_string-Lacks b n h = AreDigits-Lacks b (to_string n) h (to_string-AreDigits n)

response_headers-ArePlain : (n : ℕ) → ArePlain (response_headers n)
unfolding is_digit
response_headers-ArePlain n = (
  omega arith,
  omega arith,
  omega arith,
  (omega arith, omega arith, to_string-Lacks 13 n refl, omega arith),
)

-- Every response has the shape of an HTTP message whose `Content-Length` is the length of the body,
-- with the body, and nothing else, behind the empty line: read by the rules for the first
-- lines of a request, its three words are the version, the code and `OK`.
pub parse-response :
    (code : ℕ) (body : Bytes)
    → parse initial (response code body)
      ≡ returned true (record {
        state = done;
        buffer = body;
        req = record {
          method = codes "HTTP/1.1";
          path = to_string code;
          version = codes "OK";
          headers = response_headers (length body);
          body = [];
        };
      })
unfolding insert is_digit
parse-response code body =
    ap (parse initial) (response_lem code body)
    ∙ parse-print_request (codes "HTTP/1.1") (to_string code) (codes "OK") body
        (response_headers (length body)) (omega arith) (to_string-Lacks b' ' code refl)
        (omega arith) (response_headers-ArePlain (length body)) (λ e. cc)
