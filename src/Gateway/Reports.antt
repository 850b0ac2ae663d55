-- ===== src/Gateway/Reports.antt =====
-- `on_execution_report`: what the gateway hears of its working orders.
pub mod Final
use asterion.Prelude.{
  ℕ, ◌==◌, Bool, true, false, ◌&&◌, ◌||◌, Option, none, some, List, [], ◌∷◌, if◌then◌else◌,
}
use asterion.Prelude.Int.{pos, ltb_ℤ, leb_ℤ, eqb_ℤ}
use asterion.Prelude.Assoc.{find}
use asterion.Matching.Report.{OrderStatus, ExecType, ExecutionReport}
use asterion.Gateway.{RiskGateway, WorkingOrder}
use asterion.Gateway.Working.{release_order, bind_exchange_order_id, change_terms}

abbrev pub is_rejected_type : ExecType → Bool
is_rejected_type ExecType.rejected = true
is_rejected_type _ = false

abbrev pub is_ended : OrderStatus → Bool
is_ended OrderStatus.rejected = true
is_ended OrderStatus.canceled = true
is_ended OrderStatus.filled = true
is_ended _ = false

abbrev pub is_final : ExecutionReport → Bool
is_final r =
    is_rejected_type r.exec_type || is_ended r.order_status || leb_ℤ r.remaining_quantity (pos 0)

-- The iterator `it`: the key of the working order that a report is about.
unfoldable pub reported_key : ExecutionReport → RiskGateway → Option ℕ
reported_key r g = elim (find r.client_order_id g.working_orders) [
  | some _ ↦ some r.client_order_id
  | none ↦
      if r.exchange_order_id == 0
      then none
      else elim (find r.exchange_order_id g.exchange_to_client_order_ids) [
        | none ↦ none
        | some id ↦ elim (find id g.working_orders) [ none ↦ none | some _ ↦ some id ]
      ]
]

-- The end of `upsert_working_order_from_report`, for the order under `key`.
unfoldable pub update_from_report : ExecutionReport → ℕ → WorkingOrder → RiskGateway → RiskGateway
update_from_report r key o g =
    let bound = bind_exchange_order_id o key r.exchange_order_id g in
    elim (find key bound.working_orders) [
      | none ↦ bound
      | some order ↦
          let new_price =
            if ltb_ℤ (pos 0) r.resting_price_ticks
            then r.resting_price_ticks
            else order.price_ticks in
          if eqb_ℤ order.quantity r.remaining_quantity && eqb_ℤ order.price_ticks new_price
          then bound
          else change_terms key order new_price r.remaining_quantity bound
    ]

unfoldable pub upsert_working_order_from_report : ExecutionReport → RiskGateway → RiskGateway
upsert_working_order_from_report r g = elim (reported_key r g) [
  | none ↦ g
  | some key ↦
      if is_final r
      then release_order r.client_order_id g
      else elim (find key g.working_orders) [ none ↦ g | some o ↦ update_from_report r key o g ]
]

unfoldable pub on_execution_report : ExecutionReport → RiskGateway → RiskGateway
on_execution_report r g = if r.client_order_id == 0 then g else upsert_working_order_from_report r g

unfoldable pub on_execution_reports : List ExecutionReport → RiskGateway → RiskGateway
unfolding on_execution_report
on_execution_reports [] g = g
on_execution_reports (r ∷ rs) g = on_execution_reports rs (on_execution_report r g)
