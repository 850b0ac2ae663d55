-- ===== src/Matching/Trail.antt =====
-- The digest of a session is the checksum of all its reports, in order.
pub mod Submits
pub mod Changes
use asterion.Prelude.{
  ℕ, ◌≡◌, refl, sym, ap, ◌∙◌, inl, inr, not, ◌&&◌, ◌||◌, List, [], ◌∷◌, arith, Option-cases,
  Bool-cases,
}
use asterion.Prelude.Int.{ℤ, pos, ltb_ℤ, leb_ℤ}
use asterion.Prelude.Assoc.{find}
use asterion.Core.Types.{Side}
use asterion.Book.{cancel_order, find_order}
use asterion.Matching.Report.{
  OrderStatus, ExecType, RejectReason, checksum_from, checksum_from-append,
  checksum_execution_reports,
}
use asterion.Matching.State.{OrderState}
use asterion.Matching.Admit.{
  NewOrderRequest, CancelOrderRequest, ReplaceOrderRequest, would_self_trade, is_some,
}
use asterion.Matching.Loop.{Round, match_against_book}
use asterion.Matching.Handlers.{
  malformed, unfit, passes, register, rest, settle, accept, submit_order, reject, mark_partial,
  is_gtc,
}
use asterion.Matching.Amend.{
  cancel_resting, cancel_request, amended, mark_partial_unless_replaced, settle_replaced, reenter,
  replace_resting, replace_known, replace_request,
}
use asterion.Matching.Trail.Submits.{submit-IsDigested}
use asterion.Matching.Trail.Changes.{cancel-IsDigested, replace-IsDigested}
use asterion.Matching.Digest.{
  IsDigested, record_report-IsDigested, report_state-IsDigested, update_state-IsDigested,
  update_book-IsDigested, fail_internally-IsDigested, match_against_book-IsDigested,
}
use asterion.Matching.Session.{Request, submit, cancel, replace, handle, session}
use asterion.Matching.{
  MatchingEngine, Reported, make_reject, report_state, update_state, update_book, set_status,
  reserve_client_order_id, rest_limit_order, is_limit, new_engine,
}

-- A request starts with no reports.
handle-IsDigested : (q : Request) (e : MatchingEngine) → IsDigested e.reports_checksum (handle q e)
unfolding handle
handle-IsDigested (submit r) e = submit-IsDigested e.reports_checksum r e refl
handle-IsDigested (cancel r) e = cancel-IsDigested e.reports_checksum r e refl
handle-IsDigested (replace r) e = replace-IsDigested e.reports_checksum r e refl

session-IsDigested :
    (qs : List Request) (e : MatchingEngine) → IsDigested e.reports_checksum (session qs e)
unfolding session checksum_from
session-IsDigested [] e = refl
session-IsDigested (q ∷ qs) e =
    session-IsDigested qs (handle q e).engine
    ∙ ap (λ seed. checksum_from seed (session qs (handle q e).engine).reports)
        (handle-IsDigested q e)
    ∙ sym (
        checksum_from-append e.reports_checksum (handle q e).reports
          (session qs (handle q e).engine).reports)

-- After any requests to a new engine, its digest is the checksum of all the reports that it gave.
pub session-checksum :
    (symbol_id : ℕ) (qs : List Request)
    → let after = session qs (new_engine symbol_id) in
      after.engine.reports_checksum ≡ checksum_execution_reports after.reports
unfolding new_engine checksum_execution_reports
session-checksum symbol_id qs = session-IsDigested qs (new_engine symbol_id)
