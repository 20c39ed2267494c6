-- ===== src/Gateway/Process/Burst/Exact.antt =====
-- How many requests pass at one instant.
use Prim.Native.Nat.{min}
use lfgateway.Base.{
  ℕ, zero, suc, ◌+◌, ◌-◌, ◌*◌, ◌^◌, ◌≤◌, ◌<◌, ◌≡◌, ◌≢◌, refl, ap, ◌∙◌, true, false, none, some, ◌∷◌,
  ◌++◌, arith, leb,
}
use lfgateway.Base.Text.{Bytes, codes}
use lfgateway.Base.Int.{ℤ, pos}
use lfgateway.Redis.{Server, c_str}
use lfgateway.Router.{RouteRule}
use lfgateway.Limiter.Bucket.{count, eval}
use lfgateway.Limiter.Distributed.{
  DistributedRateLimiter, context, is_allowed as distributed_allowed,
}
use lfgateway.Limiter.Window.{is_allowed as window_allowed, window_key}
use lfgateway.Gateway.Process.{Env, limited, twice}
use lfgateway.Gateway.Process.Burst.{
  Documented, answers, limited_first, limited_second, wkey, first_call, second_call, Has, eval_some,
  eval_none, eval_fresh,
}

-- `rule->rateLimit * 2` where it does not wrap.
twice_small : (r : ℕ) → 2 * r < 2 ^ 31 → twice (pos r) ≡ pos (2 * r)
unfolding twice
twice_small r h = ground arith

module _ (s : Server) (d : Documented s) (e : Env) (rule : RouteRule) (r : ℕ) where
  -- What the section takes as given of the rule and the connection.
  record Plain : Type 0 where
    connected : e.connection ≡ context
    rate : rule.rate_limit ≡ pos r
    some_rate : 0 < r
    small : 2 * r < 2 ^ 31

  abbrev bucket_key : DistributedRateLimiter → Bytes
  bucket_key l = c_str (l.key_prefix ++ b':' ∷ rule.path_pattern)

  abbrev window : Bytes
  window = wkey s d rule.path_pattern e.now_ms e.now_s r

  abbrev HasTokens : Bytes → ℕ → s.State → Type 0
  HasTokens = Has s d rule.path_pattern e.now_ms e.now_s r

  first_same :
      (l : DistributedRateLimiter) (st : s.State)
      → Plain
      → distributed_allowed s l e.connection e.now_ms rule.path_pattern rule.rate_limit
          (twice rule.rate_limit)
          st
        ≡ distributed_allowed s l context e.now_ms rule.path_pattern (pos r) (pos (2 * r)) st
  first_same l st p = rw (p.connected, p.rate, twice_small r p.small) refl

  -- A request that takes the last but `m` of the tokens.
  record Taken (l : DistributedRateLimiter) (m : ℕ) (st : s.State) : Type 0 where
    passed : (limited s e l rule st).0 ≡ true
    prefix : (limited s e l rule st).1.key_prefix ≡ l.key_prefix
    left : HasTokens (bucket_key l) m (limited s e l rule st).2
    window_kept : d.counts.counter (limited s e l rule st).2 window ≡ d.counts.counter st window

  taken :
      (l : DistributedRateLimiter) (m : ℕ) (st : s.State)
      → Plain
      → bucket_key l ≢ window
      → eval (2 * r) r e.now_ms (d.script.clock st) (d.script.entry st (bucket_key l)) ≡ (
        record {
          bucket = record { tokens = m * 1000; last_time = e.now_ms };
          expires = d.script.clock st + 3000;
        },
        true,
      )
      → Taken l m st
  unfolding Has
  taken l m st p apart ev =
      let (answer, kept, stored, counted, quick) =
        first_call s d rule.path_pattern e.now_ms e.now_s r l st p.some_rate apart in
      let same = first_same l st p in
      let out =
        distributed_allowed s l context e.now_ms rule.path_pattern (pos r) (pos (2 * r)) st in
      let ok : out.0 ≡ true = answer ∙ ap (λ x. x.1) ev in
      let run : limited s e l rule st ≡ (true, out.1, out.2) =
        rw same at (limited_first s e l rule st (rw same ok)) in
      record {
        passed = rw run refl;
        prefix = rw run kept;
        left =
            rw run (d.script.clock st + 3000, stored ∙ ap (λ x. some x.0) ev, omega (arith, quick));
        window_kept = rw run counted;
      }

  -- A request that finds no token, and goes to the window.
  record Asked (l : DistributedRateLimiter) (st : s.State) : Type 0 where
    answer : (limited s e l rule st).0 ≡ leb (d.counts.counter st window + 1) r
    prefix : (limited s e l rule st).1.key_prefix ≡ l.key_prefix
    left : HasTokens (bucket_key l) 0 (limited s e l rule st).2
    window_up : d.counts.counter (limited s e l rule st).2 window ≡ d.counts.counter st window + 1

  asked :
      (l : DistributedRateLimiter) (st : s.State)
      → Plain
      → bucket_key l ≢ window
      → HasTokens (bucket_key l) 0 st
      → Asked l st
  unfolding Has
  asked l st p apart empty =
      let ev = eval_none s d rule.path_pattern e.now_ms e.now_s r (bucket_key l) st empty in
      let (answer, kept, stored, counted, quick) =
        first_call s d rule.path_pattern e.now_ms e.now_s r l st p.some_rate apart in
      let same = first_same l st p in
      let out =
        distributed_allowed s l context e.now_ms rule.path_pattern (pos r) (pos (2 * r)) st in
      let refused : out.0 ≡ false = answer ∙ ap (λ x. x.1) ev in
      let second = window_allowed s e.now_s (codes "rate:" ++ rule.path_pattern) (pos r) out.2 in
      let run : limited s e l rule st ≡ (second.0, out.1, second.1) =
        rw same at (limited_second s e l rule st (rw same refused))
        ∙ ap
            (λ (q : ℤ).
              let x = window_allowed s e.now_s (codes "rate:" ++ rule.path_pattern) q out.2 in
              (x.0, out.1, x.1))
            p.rate in
      let (verdict, up, still, slow) =
        second_call s d rule.path_pattern e.now_ms e.now_s r (bucket_key l) out.2 p.some_rate
          apart in
      record {
        answer = rw (run, ← counted) verdict;
        prefix = rw run kept;
        left = rw run (
          d.script.clock st + 3000,
          still ∙ stored ∙ ap (λ x. some x.0) ev,
          omega (arith, quick, slow),
        );
        window_up = rw (run, ← counted) up;
      }

  -- From a bucket with `m` tokens.
  burst_from :
      (n m : ℕ) (l : DistributedRateLimiter) (st : s.State)
      → Plain
      → bucket_key l ≢ window
      → m ≤ 2 * r
      → HasTokens (bucket_key l) m st
      → count (answers s e l rule n st) ≡ min n (m + (r - d.counts.counter st window))
  unfolding answers
  burst_from zero m l st p apart room has = omega arith
  burst_from (suc n) (suc m) l st p apart room has =
      let ev = eval_some s d rule.path_pattern e.now_ms e.now_s r (bucket_key l) m st room has in
      let t = taken l m st p apart ev in
      let (ok, l', st') = limited s e l rule st in
      let key : bucket_key l' ≡ bucket_key l =
        ap (λ x. c_str (x ++ b':' ∷ rule.path_pattern)) t.prefix in
      let rest = burst_from n m l' st' p (rw key apart) (omega (arith, room)) (rw key t.left) in
      rw t.passed (omega (arith, rest, t.window_kept))
  burst_from (suc n) zero l st p apart room has =
      let t = asked l st p apart has in
      let (ok, l', st') = limited s e l rule st in
      let key : bucket_key l' ≡ bucket_key l =
        ap (λ x. c_str (x ++ b':' ∷ rule.path_pattern)) t.prefix in
      let rest = burst_from n zero l' st' p (rw key apart) (omega arith) (rw key t.left) in
      rw t.answer (ground (arith, rest, t.window_up))

-- A limit of `r` requests per second lets three times as many through at once. With a server that runs
-- the script and counts as documented and a connection from the pool, where the bucket has no entry and
-- the two keys are different: of `n` requests for a rule with the limit `r`, not 0 and below 2 ^ 30, that
-- come at one instant exactly twice `r`, for the bucket, and then `r`, less what the window's counter
-- stood at, pass, or all if they are fewer.
pub limited_burst :
    (s : Server) (d : Documented s) (e : Env) (l : DistributedRateLimiter) (rule : RouteRule)
    (r n : ℕ) (st : s.State)
    → let key = c_str (l.key_prefix ++ b':' ∷ rule.path_pattern) in
      let window = c_str (window_key (codes "rate:" ++ rule.path_pattern) e.now_s) in
      e.connection ≡ context
      → rule.rate_limit ≡ pos r
      → 0 < r
      → r < 2 ^ 30
      → key ≢ window
      → d.script.entry st key ≡ none
      → count (answers s e l rule n st) ≡ min n (2 * r + (r - d.counts.counter st window))
unfolding answers
limited_burst s d e l rule r zero st connected rate some_rate small apart fresh = omega arith
limited_burst s d e l rule r (suc n) st connected rate some_rate small apart fresh =
    let p : Plain s d e rule r = record {
      connected = connected;
      rate = rate;
      some_rate = some_rate;
      small = omega arith;
    } in
    let full : 2 * r ≡ suc (2 * r - 1) = omega arith in
    let ev =
      eval_fresh s d rule.path_pattern e.now_ms e.now_s r (bucket_key s d e rule r l) (2 * r - 1) st
        full fresh in
    let t = taken s d e rule r l (2 * r - 1) st p apart ev in
    let (ok, l', st') = limited s e l rule st in
    let key : bucket_key s d e rule r l' ≡ bucket_key s d e rule r l =
      ap (λ x. c_str (x ++ b':' ∷ rule.path_pattern)) t.prefix in
    let rest =
      burst_from s d e rule r n (2 * r - 1) l' st' p (rw key apart) (omega arith) (rw key t.left) in
    rw t.passed (omega (arith, rest, t.window_kept, full))
