-- ===== src/Limiter/Tests.antt =====
-- Runs of the limiters, servers that meet their assumptions, and the theorems at concrete inputs.
use lfgateway.Base.{
  ℕ, ◌+◌, ◌*◌, ◌≤◌, ◌≡◌, refl, true, false, Option, none, some, List, [], ◌∷◌, arith, if◌then◌else◌,
}
use lfgateway.Base.Text.{Bytes, codes, equal, equal_refl}
use lfgateway.Base.Decimal.{value_from, to_string-value}
use lfgateway.Base.Int.{pos, print_int-value}
use lfgateway.Base.Maps.{lookup, insert, lookup-insert}
use lfgateway.Redis.{Reply, integer, Command, args, Server, c_str}
use lfgateway.Limiter.Bucket.{Bucket, Entry, script, eval, calls, after, count}
use lfgateway.Limiter.Bucket.Bound.{
  refused_ms, resets, calls_bound, refused_then_early, script-tokens-le,
}
use lfgateway.Limiter.Bucket.Expiry.{eval_expired}
use lfgateway.Limiter.Distributed.{
  DistributedRateLimiter, context, is_allowed as distributed_allowed, eval_words,
}
use lfgateway.Limiter.Distributed.Refines.{RunsScript, is_allowed_refines}
use lfgateway.Limiter.Window.Counted.{CountsKeys, answers, count-answers}

abbrev full : Bucket
full = record { tokens = 2000; last_time = 50 }

abbrev full_entry : Entry
full_entry = record { bucket = full; expires = 3050 }

abbrev empty_entry : Entry
empty_entry = record { bucket = record { tokens = 0; last_time = 0 }; expires = 3000 }

-- The second call at one instant empties the bucket, a third is refused until a refill, and behind three
-- seconds the key is gone.
abbrev times : List (ℕ × ℕ)
times = (60, 60) ∷ (60, 60) ∷ (60, 60) ∷ (400, 400) ∷ (4000, 4000) ∷ []

answers_in_turn : calls 2 4 (some full_entry) times ≡ true ∷ true ∷ false ∷ true ∷ true ∷ []
unfolding calls eval script
answers_in_turn = refl

script-tokens-le_two : (script 2 4 60 (some full)).0.tokens ≤ 2 * 1000
script-tokens-le_two = script-tokens-le 2 4 60 (some full)

calls_bound_example :
    count (calls 2 4 (some full_entry) times) * 1000
      + (after 2 4 full_entry times).bucket.tokens
      + 50 * 4
    ≤ 2000
      + (after 2 4 full_entry times).bucket.last_time * 4
      + refused_ms 2 4 full_entry times * 4
      + resets 2 4 full_entry times * (2 * 1000)
calls_bound_example = calls_bound 2 4 full_entry times 50 (omega arith) (omega arith)

one_reset : resets 2 4 full_entry times ≡ 1
unfolding resets eval script
one_reset = refl

-- One token each second: after the refusal at 400 ms a call at 600 ms passes.
refused_then_early_example :
    calls 2 1 (some empty_entry) ((0 + 400, 400) ∷ (0 + 400 + 200, 600) ∷ []) ≡ false ∷ true ∷ []
refused_then_early_example =
    refused_then_early 2 1 0 400 200 3000 400 600 (omega arith) (omega arith) (omega arith)
      (omega arith) (omega arith)

-- What a call at 100 left, four seconds later.
abbrev left_behind : Entry
left_behind = (eval 4 2 100 100 (some empty_entry)).0

eval_expired_example :
    (eval 4 2 4100 4100 (some left_behind)
      ≡ eval 4 2 4100 4100 (some (record left_behind { expires = 4101 })))
    × ((eval 4 2 4100 4100 (some left_behind)).1 ≡ true)
unfolding eval script
eval_expired_example =
    eval_expired 4 2 100 100 4100 4100 (some empty_entry) (omega arith) (omega arith)
      (λ f e. ground arith) (omega arith) refl

-- A server that knows INCR.
abbrev or_zero : Option ℕ → ℕ
or_zero none = 0
or_zero (some n) = n

counting_send : Command → List (Bytes × ℕ) → Option Reply × List (Bytes × ℕ)
unfolding equal
counting_send (args (c ∷ k ∷ [])) st =
    if equal c (codes "INCR")
    then (let n = or_zero (lookup k st) + 1 in (some (integer (pos n)), insert k n st))
    else (none, st)
counting_send _ st = (none, st)

abbrev counting : Server
counting = record { State = List (Bytes × ℕ); send = counting_send }

abbrev counting_counter : List (Bytes × ℕ) → Bytes → ℕ
counting_counter st k = or_zero (lookup k st)

counting_incr :
    (k : Bytes) (st : List (Bytes × ℕ))
    → let r = counting_send (args (codes "INCR" ∷ k ∷ [])) st in
      (r.0 ≡ some (integer (pos (counting_counter st k + 1))))
      × (counting_counter r.1 k ≡ counting_counter st k + 1)
unfolding counting_send
counting_incr k st =
    (refl, ground (arith, lookup-insert k k (or_zero (lookup k st) + 1) st, equal_refl k))

abbrev counting-CountsKeys : CountsKeys counting
counting-CountsKeys = record {
  counter = counting_counter;
  incr_reply = counting_incr;
  expire_keeps = λ k n st. unfold counting_send in refl;
}

ten_of_fifteen : count (answers counting 9 (codes "rate:/api") (pos 10) 15 []) ≡ 10
unfolding lookup
ten_of_fifteen =
    count-answers counting counting-CountsKeys 9 (codes "rate:/api") 10 15 [] (omega arith)

-- A server that never answers.
abbrev silent : Server
silent = record { State = Unit {0}; send = λ c st. (none, st) }

-- A server that runs the script, at a clock that stands still.
scripted_send : Command → List (Bytes × Entry) → Option Reply × List (Bytes × Entry)
scripted_send (args (e ∷ text ∷ one ∷ key ∷ capacity ∷ rate ∷ now ∷ [])) st =
    let (x, ok) =
      eval (value_from 0 capacity) (value_from 0 rate) (value_from 0 now) 5000 (lookup key st) in
    (some (integer (pos (if ok then 1 else 0))), insert key x st)
scripted_send _ st = (none, st)

abbrev scripted : Server
scripted = record { State = List (Bytes × Entry); send = scripted_send }

scripted_eval :
    (key : Bytes) (capacity rate now : ℕ) (st : List (Bytes × Entry))
    → let r = scripted_send (args (eval_words key (pos capacity) (pos rate) now)) st in
      let e = eval capacity rate now 5000 (lookup (c_str key) st) in
      (r.0 ≡ some (integer (pos (if e.1 then 1 else 0)))) × (lookup (c_str key) r.1 ≡ some e.0)
unfolding scripted_send
scripted_eval key capacity rate now st =
    let k = c_str key in
    let e = eval capacity rate now 5000 (lookup k st) in
    rw (print_int-value capacity, print_int-value rate, to_string-value now)
      (refl, ground (arith, lookup-insert k k e.0 st, equal_refl k))

abbrev scripted-RunsScript : RunsScript scripted
scripted-RunsScript = record {
  entry = λ st k. lookup k st;
  clock = λ st. 5000;
  eval_reply = scripted_eval;
}

abbrev fresh_limiter : DistributedRateLimiter
fresh_limiter = record {
  key_prefix = codes "gateway:rate_limit";
  last_error = [];
  redis_available = false;
}

is_allowed_refines_example :
    (distributed_allowed scripted fresh_limiter context 70
      (codes "/api/test")
      (pos 10)
      (pos 20)
      []).0
    ≡ true
unfolding lookup eval script
is_allowed_refines_example =
    (is_allowed_refines scripted scripted-RunsScript fresh_limiter 70 10 20 (codes "/api/test")
      []).0
