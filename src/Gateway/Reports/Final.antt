-- ===== src/Gateway/Reports/Final.antt =====
-- What a report that ends an order does to the exposure.
use asterion.Prelude.{ℕ, ◌==◌, ◌≡◌, ◌≢◌, ◌∙◌, refl, true, false, none, some, arith}
use asterion.Prelude.Int.{◌-ℤ◌}
use asterion.Prelude.Assoc.{find, find-erase, AllValues-find}
use asterion.Matching.Report.{ExecutionReport}
use asterion.Gateway.{RiskGateway, WorkingOrder, working_quantity}
use asterion.Gateway.Working.{release_order}
use asterion.Gateway.Reports.{
  is_final, reported_key, upsert_working_order_from_report, on_execution_report,
}
use asterion.Gateway.Exposure.Open.{share_of, IsPositive}
use asterion.Gateway.Exposure.Quantities.{working_quantity-release}
use asterion.Gateway.Exposure.Tracked.{IsTracked, release_frame, covered}

-- A final report that was matched to a working order releases the client id that it names.
on_execution_report-release_order :
    (r : ExecutionReport) (g : RiskGateway) (key : ℕ)
    → r.client_order_id ≢ 0
    → reported_key r g ≡ some key
    → is_final r ≡ true
    → on_execution_report r g ≡ release_order r.client_order_id g
unfolding on_execution_report upsert_working_order_from_report
on_execution_report-release_order r g key nz e f =
    let named : r.client_order_id == 0 ≡ false = ground arith in
    rw (named, e, upsert_working_order_from_report, f) refl

-- Where the working orders are tracked, a final report whose client id names a working order ends it: it
-- works no longer, and what was open of it is taken off the working quantity of its symbol, and of no
-- other.
pub on_execution_report-final :
    (r : ExecutionReport) (g : RiskGateway) (o : WorkingOrder)
    → IsTracked g
    → r.client_order_id ≢ 0
    → find r.client_order_id g.working_orders ≡ some o
    → is_final r ≡ true
    → (find r.client_order_id (on_execution_report r g).working_orders ≡ none)
      × ((s : ℕ)
          → working_quantity s (on_execution_report r g) ≡ working_quantity s g -ℤ share_of s o)
unfolding reported_key release_order working_quantity
on_execution_report-final r g o t nz e f =
    let key : reported_key r g ≡ some r.client_order_id = rw (e, reported_key) refl in
    let (orders, _) = release_frame o o.quantity g in
    let quantity = AllValues-find IsPositive r.client_order_id o g.working_orders t.positive e in
    rw (on_execution_report-release_order r g r.client_order_id nz key f, e, release_order)
      (
        rw (orders, find-erase r.client_order_id r.client_order_id g.working_orders) (ground arith),
        λ s. working_quantity-release o g s quantity (covered g t r.client_order_id o e),
      )

-- A final report that is matched to a working order by the exchange id alone, while its client id names
-- no working order, changes nothing: the order works on and its quantity stays in the exposure.
pub on_execution_report_unreleased :
    (r : ExecutionReport) (g : RiskGateway) (key : ℕ)
    → r.client_order_id ≢ 0
    → find r.client_order_id g.working_orders ≡ none
    → reported_key r g ≡ some key
    → is_final r ≡ true
    → on_execution_report r g ≡ g
unfolding release_order
on_execution_report_unreleased r g key nz e k f =
    on_execution_report-release_order r g key nz k f ∙ rw (e, release_order) refl
