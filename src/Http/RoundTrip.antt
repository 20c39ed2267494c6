-- ===== src/Http/RoundTrip.antt =====
-- Requests that a client writes, and what the parser makes of them.
use lfgateway.Base.{
  ◌<◌, ◌^◌, ◌≡◌, refl, ◌∙◌, ◌≢◌, true, false, some, List, [], ◌∷◌, ◌++◌, arith, if◌then◌else◌,
  length, take-length, drop-length, length-append, append-nil,
}
use lfgateway.Base.Text.{Bytes, codes, equal, equal_iff, Lacks}
use lfgateway.Base.Decimal.{to_string}
use lfgateway.Base.Int.{stoi, value, pos, stoi-to_string}
use lfgateway.Base.Maps.{lookup}
use lfgateway.Http.{
  HttpRequest, method, header, body, done, next, round, run, fuel, returned, parse, initial,
}
use lfgateway.Http.Print.{
  at, at-next, print_headers, print_request, insert_all, ArePlain, method_round, path_round,
  version_round, header_round,
}

at-headers :
    (hs : List (Bytes × Bytes)) (t : Bytes) (r : HttpRequest)
    → ArePlain hs
    → at (record { state = header; buffer = print_headers hs t; req = r })
      ≡ at (record {
        state = header;
        buffer = t;
        req = record r { headers = insert_all hs r.headers };
      })
at-headers [] t r h = refl
at-headers ((k, v) ∷ hs) t r h =
    at-next _ _ (header_round k v (print_headers hs t) r h.0 h.1 h.2) ∙ at-headers hs t _ h.3

at-request :
    (m u v rest : Bytes) (hs : List (Bytes × Bytes)) (r : HttpRequest)
    → Lacks b' ' m
    → Lacks b' ' u
    → Lacks 13 v
    → ArePlain hs
    → at (record { state = method; buffer = print_request m u v hs rest; req = r })
      ≡ at (record {
        state = header;
        buffer = 13 ∷ 10 ∷ rest;
        req = record {
          method = m;
          path = u;
          version = v;
          headers = insert_all hs r.headers;
          body = r.body;
        };
      })
at-request m u v rest hs r hm hu hv hh =
    at-next _ _ (method_round m _ r hm)
    ∙ at-next _ _ (path_round u _ _ hu)
    ∙ at-next _ _ (version_round v _ _ hv)
    ∙ at-headers hs _ _ hh

header_end :
    (r : HttpRequest) (t : Bytes)
    → round (record { state = header; buffer = 13 ∷ 10 ∷ t; req = r })
      ≡ next (record {
        state = if equal r.method (codes "POST") then body else done;
        buffer = t;
        req = r;
      })
unfolding round equal
header_end r t = refl

at-done :
    (t : Bytes) (r : HttpRequest)
    → at (record { state = done; buffer = t; req = r })
      ≡ returned true (record { state = done; buffer = t; req = r })
unfolding run round fuel
at-done t r = refl

no_body :
    (r : HttpRequest) (rest : Bytes)
    → r.method ≢ codes "POST"
    → at (record { state = header; buffer = 13 ∷ 10 ∷ rest; req = r })
      ≡ returned true (record { state = done; buffer = rest; req = r })
no_body r rest ne =
    let e : equal r.method (codes "POST") ≡ false =
      ground (arith, equal_iff r.method (codes "POST")) in
    at-next _ _ (header_end r rest) ∙ rw e (at-done rest r)

-- A request as a client prints it, whose method is not `POST` and whose parts hold none of the bytes
-- that end them, is read back in one call: method, path, version and headers are those printed,
-- and no byte behind the empty line is used up.
pub parse-print_request :
    (m u v rest : Bytes) (hs : List (Bytes × Bytes))
    → Lacks b' ' m
    → Lacks b' ' u
    → Lacks 13 v
    → ArePlain hs
    → m ≢ codes "POST"
    → parse initial (print_request m u v hs rest)
      ≡ returned true (record {
        state = done;
        buffer = rest;
        req = record { method = m; path = u; version = v; headers = insert_all hs []; body = [] };
      })
unfolding parse
parse-print_request m u v rest hs hm hu hv hh ne =
    at-request m u v rest hs _ hm hu hv hh ∙ no_body _ rest ne

body_round :
    (r : HttpRequest) (b rest : Bytes)
    → lookup (codes "Content-Length") r.headers ≡ some (to_string (length b))
    → length b < 2 ^ 31
    → round (record { state = body; buffer = b ++ rest; req = r })
      ≡ next (record { state = done; buffer = rest; req = record r { body = b } })
unfolding round
body_round r b rest k lt =
    let read : stoi (to_string (length b)) ≡ value (pos (length b)) =
      rw append-nil at (stoi-to_string (length b) [] lt tt) in
    ground (arith, read, take-length b rest, drop-length b rest, length-append b rest)

with_body :
    (r : HttpRequest) (b rest : Bytes)
    → r.method ≡ codes "POST"
    → lookup (codes "Content-Length") r.headers ≡ some (to_string (length b))
    → length b < 2 ^ 31
    → at (record { state = header; buffer = 13 ∷ 10 ∷ (b ++ rest); req = r })
      ≡ returned true (record { state = done; buffer = rest; req = record r { body = b } })
with_body r b rest h k lt =
    let e : equal r.method (codes "POST") ≡ true = (equal_iff _ _).1 h in
    at-next _ _ (header_end r (b ++ rest))
    ∙ rw e (at-next _ _ (body_round r b rest k lt) ∙ at-done rest (record r { body = b }))

-- A `POST` request whose headers give the length of its body, below 2 ^ 31, and whose parts hold none
-- of the bytes that end them, is read back with its headers and that body, and what stands behind
-- the body stays in the buffer.
pub parse-print_request_post :
    (u v b rest : Bytes) (hs : List (Bytes × Bytes))
    → Lacks b' ' u
    → Lacks 13 v
    → ArePlain hs
    → lookup (codes "Content-Length") (insert_all hs []) ≡ some (to_string (length b))
    → length b < 2 ^ 31
    → parse initial (print_request (codes "POST") u v hs (b ++ rest))
      ≡ returned true (record {
        state = done;
        buffer = rest;
        req = record {
          method = codes "POST";
          path = u;
          version = v;
          headers = insert_all hs [];
          body = b;
        };
      })
unfolding parse
parse-print_request_post u v b rest hs hu hv hh k lt =
    at-request (codes "POST") u v (b ++ rest) hs _ (omega arith) hu hv hh
    ∙ with_body _ b rest refl k lt
