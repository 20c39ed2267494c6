-- ===== src/Gateway/Flow/Queues.antt =====
-- What is handed over to the pool and to the loop.
use lfgateway.Base.{◌≡◌, some, List, [], ◌∷◌, ◌++◌, append_assoc, append-nil, arith}
use lfgateway.Base.Text.{Bytes}
use lfgateway.Pool.Thread.{ThreadPool, enqueue_future}
use lfgateway.Net.EventLoop.{EventLoop, wakeup}
use lfgateway.Net.Connection.{
  Effect, ctl, queued as buffered, written, message, closed_callback, closed,
}
use lfgateway.Gateway.Flow.{Call, Outgoing, hand_over, on_api_request, messages, send}

-- What the pool accepts stands in its queue, in order.
pub hand_over-tasks :
    (conn : Bytes) (es : List Effect) (p q : ThreadPool Call)
    → hand_over conn es p ≡ some q
    → q.tasks ≡ p.tasks ++ messages conn es
unfolding hand_over on_api_request enqueue_future messages
hand_over-tasks conn [] p q h = ground (arith, append-nil p.tasks)
hand_over-tasks conn (message buf ∷ es) p q h = ground (
  arith,
  hand_over-tasks conn es (record p { tasks = p.tasks ++ (conn, buf) ∷ [] }) q,
  append_assoc p.tasks ((conn, buf) ∷ []) (messages conn es),
)
hand_over-tasks conn (ctl k ∷ es) p q h = hand_over-tasks conn es p q h
hand_over-tasks conn (buffered m ∷ es) p q h = hand_over-tasks conn es p q h
hand_over-tasks conn (written m ∷ es) p q h = hand_over-tasks conn es p q h
hand_over-tasks conn (closed_callback ∷ es) p q h = hand_over-tasks conn es p q h
hand_over-tasks conn (closed fd ∷ es) p q h = hand_over-tasks conn es p q h

pub send-pending :
    (o : Outgoing) (l : EventLoop Outgoing)
    → (send o l).pending_functors ≡ l.pending_functors ++ o ∷ []
unfolding send wakeup
send-pending o l = ground arith
