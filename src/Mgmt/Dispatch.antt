-- ===== src/Mgmt/Dispatch.antt =====
-- Which texts reach which handler.
use lfgateway.Base.{ℕ, ◌≤◌, ◌≡◌, refl, ◌⊎◌, inl, inr, ◌↔◌, true, [], ◌∷◌, ◌++◌, arith, length}
use lfgateway.Base.Text.{Bytes, codes, starts_with}
use lfgateway.Mgmt.{out_of_range, route_add, route_delete, log_query, dispatch}

-- The body behind a command and one more byte, which may be any, reaches the handler whole.
pub dispatch_body :
    (c : ℕ) (body : Bytes)
    → (dispatch (codes "ROUTE_ADD" ++ c ∷ body) ≡ route_add body)
      × (dispatch (codes "ROUTE_DELETE" ++ c ∷ body) ≡ route_delete body)
      × (dispatch (codes "LOG_QUERY" ++ c ∷ body) ≡ log_query body)
unfolding dispatch starts_with
dispatch_body c body = (ground arith, ground arith, ground arith)

starts_with_exact : (p s : Bytes) → starts_with p s ≡ true → length s ≤ length p → s ≡ p
unfolding starts_with
starts_with_exact [] [] h k = refl
starts_with_exact [] (c ∷ s) h k = absurd (omega arith)
starts_with_exact (c ∷ p) [] h k = cc
starts_with_exact (c ∷ p) (d ∷ s) h k = ground (arith, starts_with_exact p s)

dispatch_throws_only :
    (s : Bytes)
    → dispatch s ≡ out_of_range
    → (s ≡ codes "ROUTE_ADD") ⊎ ((s ≡ codes "ROUTE_DELETE") ⊎ (s ≡ codes "LOG_QUERY"))
unfolding dispatch
dispatch_throws_only s h = ground (
  arith,
  starts_with_exact (codes "ROUTE_ADD") s,
  starts_with_exact (codes "ROUTE_DELETE") s,
  starts_with_exact (codes "LOG_QUERY") s,
)

dispatch_bare :
    (s : Bytes)
    → (s ≡ codes "ROUTE_ADD") ⊎ ((s ≡ codes "ROUTE_DELETE") ⊎ (s ≡ codes "LOG_QUERY"))
    → dispatch s ≡ out_of_range
unfolding dispatch starts_with
dispatch_bare s (inl e) = rw e
dispatch_bare s (inr (inl e)) = rw e
dispatch_bare s (inr (inr e)) = rw e

-- `onMessage` lets an exception out of `substr` for exactly the three commands that take a body, sent
-- with nothing behind them.
pub dispatch_throws :
    (s : Bytes)
    → (dispatch s ≡ out_of_range)
      ↔ ((s ≡ codes "ROUTE_ADD") ⊎ ((s ≡ codes "ROUTE_DELETE") ⊎ (s ≡ codes "LOG_QUERY")))
dispatch_throws s = (dispatch_throws_only s, dispatch_bare s)
