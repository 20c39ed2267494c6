-- ===== src/Gateway/Whole/Stats.antt =====
-- The counters of the gateway, against what was answered.
use lfgateway.Base.{
  ℕ, ◌+◌, ◌%◌, ◌^◌, ◌≡◌, refl, ap, ◌∙◌, Bool, true, false, none, some, List, [], ◌∷◌, ◌++◌, arith,
  if◌then◌else◌, ◌==◌, length, length-append,
}
use lfgateway.Base.Text.{Bytes, codes, starts_with}
use lfgateway.Base.Reach.{Steps-keep}
use lfgateway.Redis.{Server}
use lfgateway.Mysql.Pool.{MysqlPool}
use lfgateway.Mgmt
use lfgateway.Mgmt.{Command, stats, MgmtEnv, on_message, handle, dispatch}
use lfgateway.Gateway.{Gateway, Counters}
use lfgateway.Gateway.Json.{get_stats_json}
use lfgateway.Gateway.Process.{Env, handle_request}
use lfgateway.Gateway.Process.Laws.{handle-Accounts, bump_if}
use lfgateway.Gateway.Respond.{response}
use lfgateway.Gateway.Flow
use lfgateway.Gateway.Flow.{Call, Outgoing}
use lfgateway.Net.EventLoop.{EventLoop}
use lfgateway.Gateway.Admin
use lfgateway.Gateway.Admin.{Port, on_mgmt_request}
use lfgateway.Gateway.Whole.Status.{
  with_status, with_status-append_one, response_line, line_read, handle-IsCode,
}
use lfgateway.Gateway.Whole.{Whole, Step, Reach, fresh, port_of, ApiActs, PortActs}

-- An atomic counter beside a count.
bump_counted :
    (b : Bool) (n count next : ℕ)
    → n ≡ count % 2 ^ 64
    → next ≡ count + ((if b then 1 else 0) + 0)
    → bump_if b n ≡ next % 2 ^ 64
bump_counted true n count next h k = omega (arith, h, k)
bump_counted false n count next h k = omega (arith, h, k)

abbrev pub no_requests : Counters
no_requests = record {
  total_requests = 0;
  total_latency_us = 0;
  rejected_auth = 0;
  rejected_limit = 0;
}

-- A command changes no counter.
handle-counters :
    (w : Mgmt.World) (e : MgmtEnv) (c : Command) → (handle w e c).world.counters ≡ w.counters
unfolding handle
handle-counters w e stats = refl
handle-counters w e _ = ground arith

port-counters : {p q : Port} (t : Admin.Step p q) → PortActs t → q.mgmt.counters ≡ p.mgmt.counters
unfolding on_mgmt_request on_message
port-counters (Admin.Step.accepts a free new) own = refl
port-counters (Admin.Step.quiet e conn v r w nothing) own = refl
port-counters {p} (Admin.Step.answers e conn buf text v r w one got_text) own =
    handle-counters p.mgmt e (dispatch buf)
port-counters (Admin.Step.elsewhere w) own = absurd own

one_left :
    (running before after : List Call) (c : Call)
    → running ≡ before ++ c ∷ after
    → length running ≡ length (before ++ after) + 1
one_left running before after c k =
    omega (arith, ap (length {0}) k, length-append before (c ∷ after), length-append before after)

module _ (s : Server) where
  -- The counters count the requests that were taken, and the texts of two codes.
  record IsTold (w : Flow.World s) : Type 0 where
    requests :
        w.gateway.counters.total_requests
        ≡ (length w.answered + length w.failed + length w.running) % 2 ^ 64
    auth : w.gateway.counters.rejected_auth ≡ with_status (codes "HTTP/1.1 401") w.answered % 2 ^ 64
    limit :
        w.gateway.counters.rejected_limit ≡ with_status (codes "HTTP/1.1 429") w.answered % 2 ^ 64

  answers-IsTold :
      (e : Env) (w : Flow.World s) (c : Call) (code : ℕ) (body : Bytes) (before after : List Call)
      → w.running ≡ before ++ c ∷ after
      → (l : EventLoop Outgoing)
      → (handle_request s e w.gateway c.1 w.redis).sent ≡ some (code, body)
      → IsTold w
      → IsTold (record w {
        loop = l;
        gateway = (handle_request s e w.gateway c.1 w.redis).gateway;
        redis = (handle_request s e w.gateway c.1 w.redis).redis;
        running = before ++ after;
        answered = w.answered ++ (c, response code body) ∷ [];
      })
  unfolding with_status
  answers-IsTold e w c code body before after k l h told =
      let a : Call × Bytes = (c, response code body) in
      let kept = handle-Accounts s e w.gateway c.1 w.redis in
      let (rest, line) = response_line code body in
      let (auth, limit) =
        line_read code rest (handle-IsCode s e w.gateway c.1 w.redis code body h) in
      record {
        requests = omega (
          arith,
          kept.requests,
          told.requests,
          length-append {0} w.answered (a ∷ []),
          one_left w.running before after c k,
        );
        auth =
            kept.auth
            ∙ rw h (
                bump_counted (code == 401) _ _ _ told.auth (
                  with_status-append_one (codes "HTTP/1.1 401") w.answered a
                  ∙ rw (line, auth) refl));
        limit =
            kept.limit
            ∙ rw h (
                bump_counted (code == 429) _ _ _ told.limit (
                  with_status-append_one (codes "HTTP/1.1 429") w.answered a
                  ∙ rw (line, limit) refl));
      }

  fails-IsTold :
      (e : Env) (w : Flow.World s) (c : Call) (before after : List Call)
      → w.running ≡ before ++ c ∷ after
      → (handle_request s e w.gateway c.1 w.redis).sent ≡ none
      → IsTold w
      → IsTold (record w {
        gateway = (handle_request s e w.gateway c.1 w.redis).gateway;
        redis = (handle_request s e w.gateway c.1 w.redis).redis;
        running = before ++ after;
        failed = w.failed ++ c ∷ [];
      })
  fails-IsTold e w c before after k h told =
      let kept = handle-Accounts s e w.gateway c.1 w.redis in
      record {
        requests = omega (
          arith,
          kept.requests,
          told.requests,
          length-append {0} w.failed (c ∷ []),
          one_left w.running before after c k,
        );
        auth = kept.auth ∙ rw h told.auth;
        limit = kept.limit ∙ rw h told.limit;
      }

  api-IsTold : {u v : Flow.World s} (t : Flow.Step s u v) → ApiActs s t → IsTold u → IsTold v
  api-IsTold (Flow.Step.accepts a free new) own told = record {
    requests = told.requests;
    auth = told.auth;
    limit = told.limit;
  }
  api-IsTold (Flow.Step.receives conn v r wr h) own told = record {
    requests = told.requests;
    auth = told.auth;
    limit = told.limit;
  }
  api-IsTold {u} (Flow.Step.takes c room h) own told = record {
    requests = omega (arith, told.requests, length-append {0} u.running (c ∷ []));
    auth = told.auth;
    limit = told.limit;
  }
  api-IsTold {u} (Flow.Step.answers e before after c code body k h) own told =
      answers-IsTold e u c code body before after k (Flow.send (c.0, response code body) u.loop) h
        told
  api-IsTold {u} (Flow.Step.fails e before after c k h) own told =
      fails-IsTold e u c before after k h told
  api-IsTold Flow.Step.turns own told = record {
    requests = told.requests;
    auth = told.auth;
    limit = told.limit;
  }
  api-IsTold (Flow.Step.elsewhere g st) own told = absurd own

  Step-IsTold : {u v : Whole s} → Step s u v → IsTold u.api → IsTold v.api
  Step-IsTold (Step.api_acts t own) told = api-IsTold t own told
  Step-IsTold {u} (Step.mgmt_acts {q} t own) told =
      let same : q.mgmt.counters ≡ u.api.gateway.counters = port-counters t own in
      record {
        requests = rw same told.requests;
        auth = rw same told.auth;
        limit = rw same told.limit;
      }
  Step-IsTold (Step.elsewhere st p) told = record {
    requests = told.requests;
    auth = told.auth;
    limit = told.limit;
  }

  -- STATS tells the truth. Of the gateway with fresh counters, whatever its two servers, its workers and
  -- the loop have done, when no worker is in a call, a message that begins with STATS is answered with the
  -- text of these counters: the requests that ended, with a response or an exception, and the responses
  -- of status 401 and of status 429, each in 64 bits.
  pub stats_true :
      (n : ℕ) (g : Gateway) (st : s.State) (p : MysqlPool) (e : MgmtEnv) (buf : Bytes) {w : Whole s}
      → g.counters ≡ no_requests
      → Reach s (fresh s n g st p) w
      → w.api.running ≡ []
      → starts_with (codes "STATS") buf ≡ true
      → (on_mgmt_request (port_of s w).mgmt e buf).text
        ≡ some (
            get_stats_json e.print_avg (record {
              total_requests = (length w.api.answered + length w.api.failed) % 2 ^ 64;
              total_latency_us = w.api.gateway.counters.total_latency_us;
              rejected_auth = with_status (codes "HTTP/1.1 401") w.api.answered % 2 ^ 64;
              rejected_limit = with_status (codes "HTTP/1.1 429") w.api.answered % 2 ^ 64;
            })
            ++ codes "\n")
  unfolding on_mgmt_request on_message dispatch handle with_status
  stats_true n g st p e buf {w} zeros r idle h =
      let told =
        Steps-keep (λ (v : Whole s). IsTold v.api) (λ u v t k. Step-IsTold t k) r
          (record { requests = ground arith; auth = ground arith; limit = ground arith }) in
      let ended : w.api.gateway.counters.total_requests
          ≡ (length w.api.answered + length w.api.failed) % 2 ^ 64 =
        omega (arith, told.requests, ap (length {0}) idle) in
      rw (h, ← ended, ← told.auth, ← told.limit) refl
