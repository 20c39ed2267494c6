-- ===== src/Http/Print.antt =====
-- Requests that a client writes, and what one round of the parser makes of each of their parts.
use lfgateway.Base.{
  ◌≡◌, refl, false, List, [], ◌∷◌, ◌++◌, arith, take, take-length, drop-length_one, drop-length_two,
}
use lfgateway.Base.Text.{Bytes, equal, find-Lacks, find-Lacks_two, Lacks, Lacks-append}
use lfgateway.Base.Maps.{insert}
use lfgateway.Http.{
  HttpParser, HttpRequest, method, path, version, header, next, crlf, round, run, fuel, Outcome,
  add_header, trim_one,
}
use lfgateway.Http.Rounds.{round-fuel}
use lfgateway.Http.Chunks.{run_enough}

abbrev pub at : HttpParser → Outcome
at p = run (fuel p) p

pub at-next : (p q : HttpParser) → round p ≡ next q → at p ≡ at q
unfolding run fuel
at-next p q e =
    rw (e, run) (run_enough _ (fuel q) q (omega (arith, round-fuel p q e)) (omega arith))

-- A header line, and the block of them.
abbrev pub header_line : Bytes × Bytes → Bytes
header_line (k, v) = k ++ b':' ∷ b' ' ∷ v

abbrev pub print_headers : List (Bytes × Bytes) → Bytes → Bytes
print_headers [] rest = rest
print_headers (h ∷ hs) rest = header_line h ++ 13 ∷ 10 ∷ print_headers hs rest

abbrev pub print_request : Bytes → Bytes → Bytes → List (Bytes × Bytes) → Bytes → Bytes
print_request m u v hs rest =
    m ++ b' ' ∷ (u ++ b' ' ∷ (v ++ 13 ∷ 10 ∷ print_headers hs (13 ∷ 10 ∷ rest)))

-- The map after the headers were stored one after the other.
abbrev pub insert_all : List (Bytes × Bytes) → List (Bytes × Bytes) → List (Bytes × Bytes)
insert_all [] m = m
insert_all ((k, v) ∷ hs) m = insert_all hs (insert k v m)

-- No carriage return in a header, and no colon in its name.
abbrev pub ArePlain : List (Bytes × Bytes) → Type 0
ArePlain [] = Unit {0}
ArePlain ((k, v) ∷ hs) = Lacks 13 k × Lacks b':' k × Lacks 13 v × ArePlain hs

pub method_round :
    (m t : Bytes) (r : HttpRequest)
    → Lacks b' ' m
    → round (record { state = method; buffer = m ++ b' ' ∷ t; req = r })
      ≡ next (record { state = path; buffer = t; req = record r { method = m } })
unfolding round
method_round m t r h =
    ground (arith, find-Lacks b' ' m t h, take-length m (b' ' ∷ t), drop-length_one m b' ' t)

pub path_round :
    (u t : Bytes) (r : HttpRequest)
    → Lacks b' ' u
    → round (record { state = path; buffer = u ++ b' ' ∷ t; req = r })
      ≡ next (record { state = version; buffer = t; req = record r { path = u } })
unfolding round
path_round u t r h =
    ground (arith, find-Lacks b' ' u t h, take-length u (b' ' ∷ t), drop-length_one u b' ' t)

pub version_round :
    (v t : Bytes) (r : HttpRequest)
    → Lacks 13 v
    → round (record { state = version; buffer = v ++ 13 ∷ 10 ∷ t; req = r })
      ≡ next (record { state = header; buffer = t; req = record r { version = v } })
unfolding round
version_round v t r h =
    ground
      (arith, find-Lacks_two 13 10 v t h, take-length v (13 ∷ 10 ∷ t), drop-length_two v 13 10 t)

add_header_line :
    (k v : Bytes) (r : HttpRequest)
    → Lacks b':' k
    → add_header (header_line (k, v)) r ≡ record r { headers = insert k v r.headers }
unfolding add_header trim_one
add_header_line k v r h = ground (
  arith,
  find-Lacks b':' k (b' ' ∷ v) h,
  take-length k (b':' ∷ b' ' ∷ v),
  drop-length_one k b':' (b' ' ∷ v),
)

not_crlf : (k v t : Bytes) → Lacks 13 k → equal (take 2 (header_line (k, v) ++ t)) crlf ≡ false
unfolding equal
not_crlf [] v t h = refl
not_crlf (c ∷ []) v t h = ground arith
not_crlf (c ∷ d ∷ k) v t h = ground arith

pub header_round :
    (k v t : Bytes) (r : HttpRequest)
    → Lacks 13 k
    → Lacks b':' k
    → Lacks 13 v
    → round (record { state = header; buffer = header_line (k, v) ++ 13 ∷ 10 ∷ t; req = r })
      ≡ next
          (record { state = header; buffer = t; req = record r { headers = insert k v r.headers } })
unfolding round
header_round k v t r h1 h2 h3 =
    let line = header_line (k, v) in
    ground (
      arith,
      not_crlf k v (13 ∷ 10 ∷ t) h1,
      find-Lacks_two 13 10 line t
          (Lacks-append 13 k (b':' ∷ b' ' ∷ v) h1 (omega arith, (omega arith, h3))),
      take-length line (13 ∷ 10 ∷ t),
      drop-length_two line 13 10 t,
      add_header_line k v r h2,
    )
