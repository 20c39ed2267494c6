-- ===== src/Gateway/Whole/Tests.antt =====
-- One refused request, and the counters that the management port then gives.
use lfgateway.Base.{◌≡◌, refl, some, ◌++◌}
use lfgateway.Base.Text.{codes, starts_with}
use lfgateway.Base.Reach.{here, next}
use lfgateway.Mysql.Pool.{empty_pool}
use lfgateway.Base.Decimal.{to_string}
use lfgateway.Gateway.Json.{get_stats_json}
use lfgateway.Gateway.Flow.{Step}
use lfgateway.Gateway.Flow.Sample.{
  zeros, no_routes, delivered, accepts_one, hears_one, takes_one, answers_one,
}
use lfgateway.Gateway.Admin.{on_mgmt_request}
use lfgateway.Gateway.Admin.Sample.{env}
use lfgateway.Gateway.Respond.{response}
use lfgateway.Gateway.Whole.{Whole, Reach, api_acts, fresh, port_of}
use lfgateway.Gateway.Whole.Status.{with_status}
use lfgateway.Gateway.Whole.Stats.{stats_true}

abbrev start : Whole zeros
start = fresh zeros 2 no_routes tt empty_pool

abbrev answered_one : Whole zeros
answered_one = record start { api = delivered }

one_request : Reach zeros start answered_one
unfolding accepts_one hears_one takes_one answers_one
one_request =
    next
      (next
        (next (next (next here (api_acts accepts_one tt)) (api_acts hears_one tt))
          (api_acts takes_one tt))
        (api_acts answers_one tt))
      (api_acts Step.turns tt)

stats_true_example :
    (on_mgmt_request (port_of zeros answered_one).mgmt env (codes "STATS")).text
    ≡ some (
        get_stats_json env.print_avg (record {
          total_requests = 1;
          total_latency_us = answered_one.api.gateway.counters.total_latency_us;
          rejected_auth = 0;
          rejected_limit = 0;
        })
        ++ codes "\n")
unfolding starts_with with_status response to_string
stats_true_example =
    stats_true zeros 2 no_routes tt empty_pool env (codes "STATS") refl one_request refl refl
