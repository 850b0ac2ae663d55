-- ===== src/Matching/Session.antt =====
-- The engine over a whole session of requests: the engines that it can reach, and the digest of all
-- that it reported.
use asterion.Prelude.{ℕ, ◌≢◌, List, [], ◌∷◌, ◌++◌}
use asterion.Matching.Admit.{NewOrderRequest, CancelOrderRequest, ReplaceOrderRequest}
use asterion.Matching.Handlers.{submit_order}
use asterion.Matching.Amend.{cancel_request, replace_request}
use asterion.Matching.Sound.{IsSound, new_engine-IsSound}
use asterion.Matching.Register.{HasNextId}
use asterion.Matching.Submit.{submit_order-IsSound}
use asterion.Matching.Change.{cancel_request-IsSound}
use asterion.Matching.Reenter.{replace_request-IsSound}
use asterion.Matching.{MatchingEngine, Reported, new_engine}

pub data Request : Type 0 where
  submit : NewOrderRequest → Request
  cancel : CancelOrderRequest → Request
  replace : ReplaceOrderRequest → Request

unfoldable pub handle : Request → MatchingEngine → Reported
handle (submit r) e = submit_order r e
handle (cancel r) e = cancel_request r e
handle (replace r) e = replace_request r e

-- The engines that requests lead to from a new one, as long as exchange order ids are left.
pub data Reachable (symbol_id : ℕ) : MatchingEngine → Type 0 where
  start : Reachable symbol_id (new_engine symbol_id)
  handled :
      (q : Request) {e : MatchingEngine}
      → Reachable symbol_id e
      → HasNextId e
      → Reachable symbol_id (handle q e).engine

handle-IsSound :
    (q : Request) (e : MatchingEngine) → IsSound e → HasNextId e → IsSound (handle q e).engine
unfolding handle
handle-IsSound (submit r) e h ids = submit_order-IsSound r e h ids
handle-IsSound (cancel r) e h ids = cancel_request-IsSound r e h
handle-IsSound (replace r) e h ids = replace_request-IsSound r e h

-- Every engine of a symbol other than 0 that requests lead to, while exchange order ids are left, is sound:
-- its book is valid, every bid is priced below every ask, and every resting order has a state with its
-- side, its price and its quantity left.
pub Reachable-IsSound :
    (symbol_id : ℕ) (e : MatchingEngine) → symbol_id ≢ 0 → Reachable symbol_id e → IsSound e
Reachable-IsSound symbol_id e nonzero start = new_engine-IsSound symbol_id nonzero
Reachable-IsSound symbol_id e nonzero (handled q {e = e'} reach ids) =
    handle-IsSound q e' (Reachable-IsSound symbol_id e' nonzero reach) ids

-- All the requests of a list, with all the reports in order.
unfoldable pub session : List Request → MatchingEngine → Reported
session [] e = record { engine = e; reports = [] }
session (q ∷ qs) e =
    let first = handle q e in
    let rest = session qs first.engine in record rest { reports = first.reports ++ rest.reports }
