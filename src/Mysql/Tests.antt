-- ===== src/Mysql/Tests.antt =====
-- The pool at concrete inputs.
use lfgateway.Base.Reach.{here, next}
use lfgateway.Base.{ℕ, ◌+◌, ◌++◌, List, ◌≡◌, refl, [], ◌∷◌, arith}
use lfgateway.Mysql.Pool.{
  MysqlPool, Connect, no_handle, refused, connected, construct, reconnect_failed, acquire,
}
use lfgateway.Mysql.Pool.Counts.{World, lends, fails, Reach, IsCounted, Reach-IsCounted}
use lfgateway.Mysql.Pool.Handles
use lfgateway.Mysql.Pool.Handles.{destroy, handles, occurs, destroy-accounts}

abbrev two : MysqlPool
two = record { pool = 1 ∷ 2 ∷ []; active_count = 0; total_acquires = 0; total_timeouts = 0 }

abbrev start : World
start = record { pool = two; held = []; lost = 0 }

abbrev after : World
after = record {
  pool = record { pool = []; active_count = 1; total_acquires = 2; total_timeouts = 0 };
  held = 1 ∷ [];
  lost = 1;
}

-- A healthy connection is lent, then one is lost.
lent_and_lost : Reach start after
unfolding acquire
lent_and_lost =
    next (next here (lends 0 no_handle refl)) (fails {e = reconnect_failed} 1 no_handle refl)

Reach-IsCounted_example : IsCounted 2 after
Reach-IsCounted_example =
    Reach-IsCounted 2 (omega arith) lent_and_lost (record { active = refl; total = refl })

-- One reconnection is refused, and for the other there is no handle.
abbrev down : List (ℕ × Connect)
down = (1, refused 8) ∷ (2, no_handle) ∷ []

abbrev opened_two : List Connect
opened_two = connected 1 ∷ connected 2 ∷ []

abbrev used : Handles.World
used = record {
  pool = record { pool = []; active_count = 1; total_acquires = 2; total_timeouts = 0 };
  held = 1 ∷ [];
  closed = 2 ∷ [];
  lost = 3 ∷ [];
  opened = 3 ∷ 1 ∷ 2 ∷ [];
}

-- A connection is lent, another is found broken, and its replacement cannot connect.
refused_replacement : Handles.Reach (Handles.start two opened_two) used
unfolding acquire handles Handles.opens Handles.closes Handles.loses
refused_replacement =
    next (next here (Handles.lends 0 no_handle refl))
      (Handles.fails {e = reconnect_failed} 1 (refused 3) refl)

-- The handle 3, which could not connect.
destroy-accounts_example :
    let (q, now) = destroy used.pool in
    (q.pool ≡ [])
    × (occurs 3 (now ++ used.closed) + occurs 3 used.held + occurs 3 used.lost
        ≡ occurs 3 used.opened)
unfolding construct
destroy-accounts_example = destroy-accounts opened_two refl refused_replacement 3
