-- ===== src/Gateway/Process/Burst.antt =====
-- What both limiters together let through at one instant.
pub mod Exact
mod Tests
use Prim.Native.Nat.{min}
use lfgateway.Base.{
  ℕ, zero, suc, ◌+◌, ◌-◌, ◌*◌, ◌^◌, ◌≤◌, ◌<◌, ◌≡◌, ◌≢◌, refl, ap, ◌∙◌, sym, Bool, true, false,
  Option, none, some, List, [], ◌∷◌, ◌++◌, arith, inl, inr, Bool-cases, if◌then◌else◌, leb, ◌==◌,
  ltb,
}
use lfgateway.Base.Text.{Bytes, codes}
use lfgateway.Base.Int.{ℤ, pos, print_int}
use lfgateway.Redis.{Command, args, Server, c_str}
use lfgateway.Redis.Client.{incr, expire}
use lfgateway.Router.{RouteRule}
use lfgateway.Limiter.Bucket.{Bucket, Entry, script, eval, read, count}
use lfgateway.Limiter.Bucket.Bound.{script_at_once, script_empty, fresh_script}
use lfgateway.Limiter.Distributed.{
  DistributedRateLimiter, Connection, context, eval_words, is_allowed as distributed_allowed,
  effective, acquire_token,
}
use lfgateway.Limiter.Distributed.Refines.{RunsScript, is_allowed_refines, effective_pos}
use lfgateway.Limiter.Window.{is_allowed as window_allowed, window_key}
use lfgateway.Limiter.Window.Counted.{CountsKeys, one_call}
use lfgateway.Gateway.Process.{Env, limited, twice}

-- A server that runs the script and counts as documented: a command on one key leaves the others alone,
-- and takes less than a second of the server's clock.
pub record Documented (s : Server) : Type 0 where
  pub script : RunsScript s
  pub counts : CountsKeys s
  pub eval_keeps :
      (key k : Bytes) (capacity rate now : ℕ) (st : s.State)
      → c_str key ≢ k
      → counts.counter (s.send (args (eval_words key (pos capacity) (pos rate) now)) st).1 k
        ≡ counts.counter st k
  pub incr_keeps :
      (k key : Bytes) (st : s.State)
      → key ≢ k
      → script.entry (s.send (args (codes "INCR" ∷ k ∷ [])) st).1 key ≡ script.entry st key
  pub expire_keeps :
      (k n key : Bytes) (st : s.State)
      → key ≢ k
      → script.entry (s.send (args (codes "EXPIRE" ∷ k ∷ n ∷ [])) st).1 key ≡ script.entry st key
  pub quick : (c : Command) (st : s.State) → script.clock (s.send c st).1 < script.clock st + 1000

module _ (s : Server) where
  -- The answers to `n` requests, one after the other, which all read the clocks alike.
  unfoldable pub answers : Env → DistributedRateLimiter → RouteRule → ℕ → s.State → List Bool
  answers e l rule zero st = []
  answers e l rule (suc n) st = let r = limited s e l rule st in r.0 ∷ answers e r.1 rule n r.2

  -- Redis behind a call of the first limiter.
  distributed-state :
      (l : DistributedRateLimiter) (now : ℕ) (path : Bytes) (rate capacity : ℤ) (st : s.State)
      → (distributed_allowed s l context now path rate capacity st).2
        ≡ (s.send
            (args (eval_words (l.key_prefix ++ b':' ∷ path) (effective capacity rate) rate now))
            st).1
  unfolding distributed_allowed acquire_token
  distributed-state l now path rate capacity st = ground arith

  -- One request: the first limiter, and the second where the first refuses.
  limited_first :
      (e : Env) (l : DistributedRateLimiter) (rule : RouteRule) (st : s.State)
      → let first =
          distributed_allowed s l e.connection e.now_ms rule.path_pattern rule.rate_limit
            (twice rule.rate_limit)
            st in
        first.0 ≡ true → limited s e l rule st ≡ (true, first.1, first.2)
  unfolding limited
  limited_first e l rule st h = rw h refl

  limited_second :
      (e : Env) (l : DistributedRateLimiter) (rule : RouteRule) (st : s.State)
      → let first =
          distributed_allowed s l e.connection e.now_ms rule.path_pattern rule.rate_limit
            (twice rule.rate_limit)
            st in
        let second =
          window_allowed s e.now_s (codes "rate:" ++ rule.path_pattern) rule.rate_limit first.2 in
        first.0 ≡ false → limited s e l rule st ≡ (second.0, first.1, second.1)
  unfolding limited
  limited_second e l rule st h = rw h refl

  module _ (d : Documented s) (path : Bytes) (now_ms now_s r : ℕ) where
    open d use {script, counts, eval_keeps, incr_keeps, expire_keeps, quick}
    open script use {entry, clock}
    open counts use {counter}

    abbrev wkey : Bytes
    wkey = c_str (window_key (codes "rate:" ++ path) now_s)

    first_call :
        (l : DistributedRateLimiter) (st : s.State)
        → 0 < r
        → let key = l.key_prefix ++ b':' ∷ path in
          c_str key ≢ wkey
          → let out = distributed_allowed s l context now_ms path (pos r) (pos (2 * r)) st in
            let ev = eval (2 * r) r now_ms (clock st) (entry st (c_str key)) in
            (out.0 ≡ ev.1)
            × (out.1.key_prefix ≡ l.key_prefix)
            × (entry out.2 (c_str key) ≡ some ev.0)
            × (counter out.2 wkey ≡ counter st wkey)
            × (clock out.2 < clock st + 1000)
    first_call l st some_rate apart =
        let key = l.key_prefix ++ b':' ∷ path in
        let full : (if 2 * r == 0 then r else 2 * r) ≡ 2 * r = ground arith in
        let same : effective (pos (2 * r)) (pos r) ≡ pos (2 * r) =
          effective_pos (2 * r) r ∙ ap pos full in
        let (answer, available, stored) = is_allowed_refines s script l now_ms r (2 * r) path st in
        let behind = distributed-state l now_ms path (pos r) (pos (2 * r)) st in
        (
          rw full at answer,
          ap (λ (m : DistributedRateLimiter). m.key_prefix) available,
          rw full at stored,
          rw (behind, same) (eval_keeps key wkey (2 * r) r now_ms st apart),
          rw (behind, same) (quick (args (eval_words key (pos (2 * r)) (pos r) now_ms)) st),
        )

    second_call :
        (key : Bytes) (st : s.State)
        → 0 < r
        → key ≢ wkey
        → let out = window_allowed s now_s (codes "rate:" ++ path) (pos r) st in
          (out.0 ≡ leb (counter st wkey + 1) r)
          × (counter out.1 wkey ≡ counter st wkey + 1)
          × (entry out.1 key ≡ entry st key)
          × (clock out.1 < clock st + 2000)
    unfolding window_allowed incr expire
    second_call key st some_rate apart =
        let c : Command = args (codes "INCR" ∷ wkey ∷ []) in
        let st1 = (s.send c st).1 in
        let c1 : Command = args (codes "EXPIRE" ∷ wkey ∷ print_int (pos 2) ∷ []) in
        let (answer, counted) = one_call s counts now_s (codes "rate:" ++ path) r st some_rate in
        (
          answer,
          counted,
          ground (
            arith,
            incr_keeps wkey key st apart,
            expire_keeps wkey (print_int (pos 2)) key st1 apart,
          ),
          ground (arith, quick c st, quick c1 st1),
        )

    -- The bucket has `m` tokens, stored at this instant, and has not expired.
    Has : Bytes → ℕ → s.State → Type 0
    Has key m st =
        (x : ℕ) × (entry st key
          ≡ some
              (record { bucket = record { tokens = m * 1000; last_time = now_ms }; expires = x }))
        × (clock st < x)

    eval_some :
        (key : Bytes) (m : ℕ) (st : s.State)
        → suc m ≤ 2 * r
        → Has key (suc m) st
        → eval (2 * r) r now_ms (clock st) (entry st key) ≡ (
          record {
            bucket = record { tokens = m * 1000; last_time = now_ms };
            expires = clock st + 3000;
          },
          true,
        )
    unfolding Has eval read
    eval_some key m st room (x, here, live) =
        rw here (ground (arith, script_at_once (2 * r) r now_ms m room))

    eval_none :
        (key : Bytes) (st : s.State)
        → Has key 0 st
        → eval (2 * r) r now_ms (clock st) (entry st key) ≡ (
          record { bucket = record { tokens = 0; last_time = now_ms }; expires = clock st + 3000 },
          false,
        )
    unfolding Has eval read
    eval_none key st (x, here, live) = rw here (ground (arith, script_empty (2 * r) r now_ms))

    eval_fresh :
        (key : Bytes) (m : ℕ) (st : s.State)
        → 2 * r ≡ suc m
        → entry st key ≡ none
        → eval (2 * r) r now_ms (clock st) (entry st key) ≡ (
          record {
            bucket = record { tokens = m * 1000; last_time = now_ms };
            expires = clock st + 3000;
          },
          true,
        )
    unfolding eval read
    eval_fresh key m st full e =
        rw (e, full)
          (ground
            (arith, fresh_script (suc m) r now_ms, script_at_once (suc m) r now_ms m (omega arith)))
