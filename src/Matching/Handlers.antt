-- ===== src/Matching/Handlers.antt =====
-- `submit_order`, `cancel_order` and `replace_order`: the three requests.
use asterion.Prelude.{
  ℕ, ◌+◌, ◌%◌, ◌^◌, ◌==◌, Bool, true, false, not, ◌&&◌, ◌||◌, none, some, [], if◌then◌else◌,
}
use asterion.Prelude.Int.{ℤ, pos, ltb_ℤ, leb_ℤ}
use asterion.Prelude.Assoc.{find, emplace}
use asterion.Core.Types.{Side, is_valid_side}
use asterion.Matching.Report.{TimeInForce, OrderStatus, ExecType, RejectReason}
use asterion.Matching.State.{OrderState}
use asterion.Matching.Admit.{NewOrderRequest, crosses, can_fully_fill, would_self_trade}
use asterion.Matching.Loop.{Round, match_against_book}
use asterion.Matching.{
  MatchingEngine, Reported, record_report, make_reject, report_state, update_state, update_book,
  set_status, fail_internally, reserve_client_order_id, rest_limit_order, is_limit, is_market,
}

abbrev pub is_gtc : TimeInForce → Bool
is_gtc TimeInForce.gtc = true
is_gtc _ = false

abbrev pub is_fok : TimeInForce → Bool
is_fok TimeInForce.fok = true
is_fok _ = false

abbrev pub is_known : TimeInForce → Bool
is_known TimeInForce.other = false
is_known _ = true

-- The guards of `submit_order` that come before the client's order id is reserved, in order: the
-- reason of the first that fires, `none` where the request passes.
unfoldable pub malformed : NewOrderRequest → MatchingEngine → RejectReason
malformed r e =
    if not (r.symbol_id == e.symbol_id) || not (is_valid_side r.side)
    then RejectReason.unsupported
    else if not (is_limit r.order_type) && not (is_market r.order_type)
    then RejectReason.unsupported
    else if leb_ℤ r.quantity (pos 0)
    then RejectReason.invalid_quantity
    else if is_limit r.order_type && leb_ℤ r.price_ticks (pos 0)
    then RejectReason.invalid_price
    else if not (is_known r.time_in_force)
    then RejectReason.unsupported
    else if r.post_only && (not (is_limit r.order_type) || not (is_gtc r.time_in_force))
    then RejectReason.unsupported
    else RejectReason.none

-- The guards that come after.
unfoldable pub unfit : NewOrderRequest → MatchingEngine → RejectReason
unfolding crosses would_self_trade can_fully_fill
unfit r e =
    if r.post_only && crosses r.side r.order_type r.price_ticks e.book
    then RejectReason.post_only_would_cross
    else if not r.post_only && would_self_trade r.side r.order_type r.price_ticks r.client_id 0 e
    then RejectReason.self_trade_prevention
    else if is_fok r.time_in_force && not (can_fully_fill r e.book)
    then RejectReason.fok_not_fillable
    else RejectReason.none

abbrev pub state_of : NewOrderRequest → ℕ → OrderState
state_of r id = record {
  client_order_id = r.client_order_id;
  exchange_order_id = id;
  symbol_id = r.symbol_id;
  side = r.side;
  order_type = r.order_type;
  limit_price_ticks = r.price_ticks;
  original_quantity = r.quantity;
  filled_quantity = pos 0;
  filled_notional_ticks = pos 0;
  client_id = r.client_id;
  status = OrderStatus.new;
  timestamp_ns = r.timestamp_ns;
}

-- The writes that give a request its exchange order id.
unfoldable pub register : NewOrderRequest → MatchingEngine → MatchingEngine
register r e = record e {
  next_exchange_order_id = (e.next_exchange_order_id + 1) % 2 ^ 64;
  states = emplace e.next_exchange_order_id (state_of r e.next_exchange_order_id) e.states;
  client_to_exchange = emplace r.client_order_id e.next_exchange_order_id e.client_to_exchange;
}

abbrev pub mark_partial : OrderState → OrderState
mark_partial s =
    if ltb_ℤ (pos 0) s.filled_quantity then set_status OrderStatus.partially_filled s else s

-- `rest_limit_order` of the order's state, with what follows a refusal.
unfoldable pub rest : ℕ → ℤ → ℤ → Reported → Reported
unfolding rest_limit_order update_book fail_internally
rest id remaining timestamp_ns r = elim (find id r.engine.states) [
  | none ↦ r
  | some s ↦
      let (book, rested) = rest_limit_order s remaining timestamp_ns r.engine.book in
      if rested then update_book book r else fail_internally id timestamp_ns (update_book book r)
]

-- What happens to the quantity that the loop left.
unfoldable pub settle : NewOrderRequest → ℕ → Round → Reported
unfolding rest update_state report_state
settle r id after =
    if ltb_ℤ (pos 0) after.remaining && (is_limit r.order_type && is_gtc r.time_in_force)
    then rest id after.remaining r.timestamp_ns (update_state id mark_partial after.reported)
    else if ltb_ℤ (pos 0) after.remaining
    then report_state id ExecType.canceled (pos 0) (pos 0) r.timestamp_ns RejectReason.none
        (update_state id (set_status OrderStatus.canceled) after.reported)
    else after.reported

-- `submit_order` from the exchange order id on.
unfoldable pub accept : NewOrderRequest → MatchingEngine → Reported
unfolding register report_state match_against_book settle
accept r e =
    let id = e.next_exchange_order_id in
    let announced =
      report_state id ExecType.new (pos 0) (pos 0) r.timestamp_ns RejectReason.none
        (record { engine = register r e; reports = [] }) in
    settle r id (match_against_book id r.timestamp_ns announced r.quantity)

abbrev pub reject : ℕ → ℕ → Side → ℤ → RejectReason → MatchingEngine → Reported
reject client_order_id symbol_id side timestamp_ns reason e =
    record_report (make_reject client_order_id symbol_id side timestamp_ns reason)
      (record { engine = e; reports = [] })

abbrev pub passes : RejectReason → Bool
passes RejectReason.none = true
passes _ = false

abbrev pub reject_new : NewOrderRequest → RejectReason → MatchingEngine → Reported
reject_new r reason e = reject r.client_order_id r.symbol_id r.side r.timestamp_ns reason e

unfoldable pub submit_order : NewOrderRequest → MatchingEngine → Reported
unfolding malformed unfit accept reserve_client_order_id record_report
submit_order r e =
    if not (passes (malformed r e))
    then reject_new r (malformed r e) e
    else let (e', reserved) = reserve_client_order_id r.client_order_id e in
      if not reserved
      then reject_new r RejectReason.duplicate_client_order_id e'
      else if not (passes (unfit r e'))
      then reject_new r (unfit r e') e'
      else accept r e'
