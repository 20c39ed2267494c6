-- ===== src/Gateway/Flow/Serves.antt =====
-- The API server inside the gateway.
use lfgateway.Base.{ℕ, List, [], ◌∷◌}
use lfgateway.Base.Text.{codes}
use lfgateway.Base.Reach.{here, next}
use lfgateway.Redis.{Server}
use lfgateway.Net.Connection.{event, sends}
use lfgateway.Net.Serving.{Serving}
use lfgateway.Net.Serving.Open.{accepts, handles, IsOpenMap, Reach-IsOpenMap}
use lfgateway.Net.Serving.Open
use lfgateway.Gateway.{Gateway}
use lfgateway.Net.Connection.Silent.{no_reply}
use lfgateway.Gateway.Flow.{Outgoing, World, Step, Reach, fresh, run_sends}

run_sends-Reach :
    (fs : List Outgoing) {u v : Serving}
    → Open.Reach no_reply u v
    → Open.Reach no_reply u (run_sends fs v)
unfolding run_sends
run_sends-Reach [] r = r
run_sends-Reach ((conn, text) ∷ fs) r = run_sends-Reach fs (next r (handles conn (sends text)))

module _ (s : Server) where
  Step-Reach :
      {u v : World s} {first : Serving}
      → Step s u v
      → Open.Reach no_reply first u.serving
      → Open.Reach no_reply first v.serving
  Step-Reach (Step.accepts a free new) r = next r (accepts a free new)
  Step-Reach (Step.receives conn v i o h) r = next r (handles conn (event v i o))
  Step-Reach (Step.takes c room h) r = r
  Step-Reach (Step.answers e before after c code body k h) r = r
  Step-Reach (Step.fails e before after c k h) r = r
  Step-Reach {u} Step.turns r = run_sends-Reach u.loop.pending_functors r
  Step-Reach (Step.elsewhere g st) r = r

  -- Every run of the gateway is, seen from the API server, a run of the server alone in which no reply is
  -- sent from the message callback: whatever the workers, the pool and the loop do, they do nothing to
  -- the connections but have the loop send.
  pub flow_serves : {u v : World s} → Reach s u v → Open.Reach no_reply u.serving v.serving
  flow_serves here = here
  flow_serves (next r t) = Step-Reach t (flow_serves r)

  -- So its map has each connection once, exactly if its socket is open, and no two have one socket.
  pub Reach-serving-IsOpenMap :
      (n : ℕ) (g : Gateway) (st : s.State) (w : World s)
      → Reach s (fresh s n g st) w
      → IsOpenMap w.serving
  Reach-serving-IsOpenMap n g st w r =
      Reach-IsOpenMap no_reply (codes "ApiServer") w.serving (flow_serves r)
