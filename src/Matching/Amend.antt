-- ===== src/Matching/Amend.antt =====
-- `cancel_order` and `replace_order` of the engine.
use asterion.Prelude.{ℕ, Bool, true, false, not, ◌&&◌, ◌||◌, none, some, [], if◌then◌else◌}
use asterion.Prelude.Int.{ℤ, pos, ◌+ℤ◌, ltb_ℤ, leb_ℤ}
use asterion.Prelude.Assoc.{find}
use asterion.Core.Types.{Side}
use asterion.Book.{cancel_order, find_order}
use asterion.Matching.Report.{OrderStatus, ExecType, RejectReason}
use asterion.Matching.State.{OrderState}
use asterion.Matching.Admit.{CancelOrderRequest, ReplaceOrderRequest, would_self_trade, is_some}
use asterion.Matching.Loop.{Round, match_against_book}
use asterion.Matching.Handlers.{rest, reject}
use asterion.Matching.{
  MatchingEngine, Reported, record_report, report_state, update_state, update_book, set_status,
  fail_internally, reserve_client_order_id,
}

-- Both requests are refused without naming a side, but for a self-trade.
abbrev pub reject_change : ℕ → ℤ → RejectReason → MatchingEngine → Reported
reject_change client_order_id timestamp_ns reason e =
    reject client_order_id e.symbol_id Side.none timestamp_ns reason e

-- The end of `cancel_order`, for an order that has a state and rests.
unfoldable pub cancel_resting : CancelOrderRequest → MatchingEngine → Reported
unfolding report_state update_state update_book fail_internally
cancel_resting r e =
    let (book, done) = cancel_order r.exchange_order_id e.book in
    let after = update_book book (record { engine = e; reports = [] }) in
    if not done
    then fail_internally r.exchange_order_id r.timestamp_ns after
    else report_state r.exchange_order_id ExecType.canceled (pos 0) (pos 0) r.timestamp_ns
        RejectReason.none (update_state r.exchange_order_id (set_status OrderStatus.canceled) after)

unfoldable pub cancel_request : CancelOrderRequest → MatchingEngine → Reported
unfolding reserve_client_order_id cancel_resting record_report
cancel_request r e =
    let (e', reserved) = reserve_client_order_id r.client_order_id e in
    if not reserved
    then reject_change r.client_order_id r.timestamp_ns RejectReason.duplicate_client_order_id e'
    else if not (is_some (find r.exchange_order_id e'.states))
        || not (is_some (find_order r.exchange_order_id e'.book))
    then reject_change r.client_order_id r.timestamp_ns RejectReason.unknown_order e'
    else cancel_resting r e'

-- What `replace_order` writes to the state.
abbrev pub amended : ReplaceOrderRequest → OrderState → OrderState
amended r s = record s {
  limit_price_ticks = r.new_price_ticks;
  original_quantity = s.filled_quantity +ℤ r.new_quantity;
  status = OrderStatus.replaced;
  timestamp_ns = r.timestamp_ns;
}

abbrev pub is_replaced : OrderStatus → Bool
is_replaced OrderStatus.replaced = true
is_replaced _ = false

abbrev pub mark_partial_unless_replaced : OrderState → OrderState
mark_partial_unless_replaced s =
    if ltb_ℤ (pos 0) s.filled_quantity && not (is_replaced s.status)
    then set_status OrderStatus.partially_filled s
    else s

-- What happens to the quantity that the loop left.
unfoldable pub settle_replaced : ReplaceOrderRequest → Round → Reported
unfolding rest update_state
settle_replaced r after =
    if ltb_ℤ (pos 0) after.remaining
    then rest r.exchange_order_id after.remaining r.timestamp_ns
        (update_state r.exchange_order_id mark_partial_unless_replaced after.reported)
    else after.reported

-- The end of `replace_order`, once the order is off the book.
unfoldable pub reenter : ReplaceOrderRequest → Reported → Reported
unfolding update_state report_state match_against_book settle_replaced
reenter r after =
    let announced =
      report_state r.exchange_order_id ExecType.replaced (pos 0) (pos 0) r.timestamp_ns
        RejectReason.none (update_state r.exchange_order_id (amended r) after) in
    settle_replaced r
      (match_against_book r.exchange_order_id r.timestamp_ns announced r.new_quantity)

-- `replace_order` of an order that rests and has the state `s`.
unfoldable pub replace_resting : ReplaceOrderRequest → OrderState → MatchingEngine → Reported
unfolding would_self_trade update_book fail_internally reenter record_report
replace_resting r s e =
    if would_self_trade s.side s.order_type r.new_price_ticks s.client_id s.exchange_order_id e
    then reject r.client_order_id e.symbol_id s.side r.timestamp_ns
        RejectReason.self_trade_prevention e
    else let (book, done) = cancel_order r.exchange_order_id e.book in
      let after = update_book book (record { engine = e; reports = [] }) in
      if not done then fail_internally r.exchange_order_id r.timestamp_ns after else reenter r after

unfoldable pub replace_known : ReplaceOrderRequest → MatchingEngine → Reported
unfolding replace_resting record_report
replace_known r e = elim (find r.exchange_order_id e.states) [
  | none ↦ reject_change r.client_order_id r.timestamp_ns RejectReason.unknown_order e
  | some s ↦
      if is_some (find_order r.exchange_order_id e.book)
      then replace_resting r s e
      else reject_change r.client_order_id r.timestamp_ns RejectReason.unknown_order e
]

unfoldable pub replace_request : ReplaceOrderRequest → MatchingEngine → Reported
unfolding reserve_client_order_id replace_known record_report
replace_request r e =
    if leb_ℤ r.new_quantity (pos 0)
    then reject_change r.client_order_id r.timestamp_ns RejectReason.invalid_quantity e
    else if leb_ℤ r.new_price_ticks (pos 0)
    then reject_change r.client_order_id r.timestamp_ns RejectReason.invalid_price e
    else let (e', reserved) = reserve_client_order_id r.client_order_id e in
      if not reserved
      then reject_change r.client_order_id r.timestamp_ns RejectReason.duplicate_client_order_id e'
      else replace_known r e'
