-- ===== src/Matching/State.antt =====
-- matching/order_state.hpp: what the engine remembers of an order, and the map of the states.
use asterion.Prelude.{ℕ, if◌then◌else◌}
use asterion.Prelude.Int.{ℤ, pos, ◌-ℤ◌, ◌/ℤ◌, ltb_ℤ, leb_ℤ}
use asterion.Core.Types.{Side}
use asterion.Matching.Report.{OrderType, OrderStatus}

pub record OrderState : Type 0 where
  pub client_order_id : ℕ
  pub exchange_order_id : ℕ
  pub symbol_id : ℕ
  pub side : Side
  pub order_type : OrderType
  pub limit_price_ticks : ℤ
  pub original_quantity : ℤ
  pub filled_quantity : ℤ
  pub filled_notional_ticks : ℤ
  pub client_id : ℕ
  pub status : OrderStatus
  pub timestamp_ns : ℤ

unfoldable pub remaining_quantity : OrderState → ℤ
remaining_quantity s =
    let remaining = s.original_quantity -ℤ s.filled_quantity in
    if ltb_ℤ (pos 0) remaining then remaining else pos 0

unfoldable pub average_price_ticks : OrderState → ℤ
average_price_ticks s =
    if leb_ℤ s.filled_quantity (pos 0) then pos 0 else s.filled_notional_ticks /ℤ s.filled_quantity
