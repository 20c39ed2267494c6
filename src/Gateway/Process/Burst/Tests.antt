-- ===== src/Gateway/Process/Burst/Tests.antt =====
-- A server that runs the script and INCR, and forty requests at one instant for a rule of ten per second.
use lfgateway.Base.{
  ℕ, ◌+◌, ◌≡◌, refl, true, false, Option, none, some, List, [], ◌∷◌, arith, if◌then◌else◌,
}
use lfgateway.Base.Text.{Bytes, codes, equal, equal_refl}
use lfgateway.Base.Decimal.{value_from, to_string-value}
use lfgateway.Base.Int.{pos, print_int-value}
use lfgateway.Base.Maps.{lookup, insert, lookup-insert}
use lfgateway.Redis.{Reply, integer, Command, args, Server, c_str}
use lfgateway.Router.{RouteRule}
use lfgateway.Limiter.Bucket.{Entry, eval, count}
use lfgateway.Limiter.Distributed.{DistributedRateLimiter, context, eval_words}
use lfgateway.Limiter.Distributed.Refines.{RunsScript}
use lfgateway.Limiter.Window.Counted.{CountsKeys}
use lfgateway.Gateway.Process.{Env}
use lfgateway.Gateway.Process.Burst.{Documented, answers}
use lfgateway.Gateway.Process.Burst.Exact.{limited_burst}

record Store : Type 0 where
  entries : List (Bytes × Entry)
  counters : List (Bytes × ℕ)

abbrev or_zero : Option ℕ → ℕ
or_zero none = 0
or_zero (some n) = n

-- The clock stands still.
answer : Command → Store → Option Reply × Store
unfolding equal
answer (args (e ∷ text ∷ one ∷ key ∷ capacity ∷ rate ∷ now ∷ [])) st =
    let (x, ok) =
      eval (value_from 0 capacity) (value_from 0 rate) (value_from 0 now) 5000
        (lookup key st.entries) in
    (some (integer (pos (if ok then 1 else 0))), record st { entries = insert key x st.entries })
answer (args (c ∷ k ∷ [])) st =
    if equal c (codes "INCR")
    then (let n = or_zero (lookup k st.counters) + 1 in
        (some (integer (pos n)), record st { counters = insert k n st.counters }))
    else (none, st)
answer _ st = (none, st)

abbrev redis : Server
redis = record { State = Store; send = answer }

abbrev counter : Store → Bytes → ℕ
counter st k = or_zero (lookup k st.counters)

evaluated :
    (key : Bytes) (capacity rate now : ℕ) (st : Store)
    → let r = answer (args (eval_words key (pos capacity) (pos rate) now)) st in
      let e = eval capacity rate now 5000 (lookup (c_str key) st.entries) in
      (r.0 ≡ some (integer (pos (if e.1 then 1 else 0))))
      × (lookup (c_str key) r.1.entries ≡ some e.0)
unfolding answer
evaluated key capacity rate now st =
    let k = c_str key in
    let e = eval capacity rate now 5000 (lookup k st.entries) in
    rw (print_int-value capacity, print_int-value rate, to_string-value now)
      (refl, ground (arith, lookup-insert k k e.0 st.entries, equal_refl k))

incremented :
    (k : Bytes) (st : Store)
    → let r = answer (args (codes "INCR" ∷ k ∷ [])) st in
      (r.0 ≡ some (integer (pos (counter st k + 1)))) × (counter r.1 k ≡ counter st k + 1)
unfolding answer
incremented k st = (
  refl,
  ground (arith, lookup-insert k k (or_zero (lookup k st.counters) + 1) st.counters, equal_refl k),
)

abbrev runs_script : RunsScript redis
runs_script = record {
  entry = λ st k. lookup k st.entries;
  clock = λ st. 5000;
  eval_reply = evaluated;
}

abbrev counts_keys : CountsKeys redis
counts_keys = record {
  counter = counter;
  incr_reply = incremented;
  expire_keeps = λ k n st. unfold answer in refl;
}

abbrev documented : Documented redis
documented = record {
  script = runs_script;
  counts = counts_keys;
  eval_keeps = λ key k capacity rate now st apart. unfold answer in refl;
  incr_keeps = λ k key st apart. unfold answer in refl;
  expire_keeps = λ k n key st apart. unfold answer in refl;
  quick = λ c st. omega arith;
}

abbrev env : Env
env = record {
  now_ms = 70;
  now_s = 7;
  connection = context;
  latency_us = 12;
  latency_text = codes "0.012000";
}

abbrev limiter : DistributedRateLimiter
limiter = record {
  key_prefix = codes "gateway:rate_limit";
  last_error = [];
  redis_available = true;
}

abbrev ten_a_second : RouteRule
ten_a_second = record {
  id = pos 1;
  path_pattern = codes "/api";
  target_host = codes "h";
  target_port = pos 80;
  need_auth = false;
  rate_limit = pos 10;
}

limited_burst_example :
    count (answers redis env limiter ten_a_second 40 (record { entries = []; counters = [] })) ≡ 30
unfolding lookup c_str
limited_burst_example =
    limited_burst redis documented env limiter ten_a_second 10 40
      (record { entries = []; counters = [] }) refl refl (omega arith) (omega arith)
      (λ e. ground arith) refl
