-- ===== src/Gateway/Tests.antt =====
-- A gateway with two clients' orders, and the gateway's theorems at it.
use asterion.Prelude.{
  ℕ, ◌≡◌, ◌||◌, ◌==◌, ◌↔◌, leb, length, ◌++◌, refl, true, false, none, some, List, [], ◌∷◌, arith,
  replicate, get_or, set,
}
use asterion.Prelude.Int.{pos, ◌+ℤ◌, ◌-ℤ◌, ◌*ℤ◌, neg_ℤ, min_ℤ}
use asterion.Prelude.Assoc.{find, put, erase, modify}
use asterion.Core.Types.{buy, sell, eqb_side}
use asterion.Matching.Report.{
  OrderType, TimeInForce, OrderStatus, ExecType, RejectReason, ExecutionReport,
}
use asterion.Matching.Admit.{NewOrderRequest, ReplaceOrderRequest}
use asterion.Portfolio.{abs_i64}
use asterion.Gateway.ClientOrderIds.{
  empty_ids, contains, insert, insert_at, with_room, rehash, reinsert, reinsert_all, probe,
  bucket_index, mix, bucket_count_for, double_until,
}
use asterion.Gateway.ClientOrderIds.Members.{empty_ids-IsHashed, insert-IsHashed, contains-insert}
use asterion.Gateway.{
  RiskLimits, RiskGateway, WorkingOrder, sliding_window, reject_new_orders, new_gateway,
  working_quantity, position, client_symbol_key, tracks_working_orders, decide, decide_request,
  on_market_data, record_audit_entry,
}
use asterion.Gateway.Working.{
  add_at, release_at, book_add, book_release, add_working_order_quantity, lower_quantity,
  release_from_books, release_working_order_quantity, register_working_order, release_order,
  bind_exchange_order_id, change_terms,
}
use asterion.Gateway.Reports.{
  reported_key, update_from_report, upsert_working_order_from_report, on_execution_report,
}
use asterion.Gateway.Shutdown.{
  audit_cancels, cancel_all_working_orders, enable_kill_switch, on_disconnect,
}
use asterion.Gateway.Rate.{
  drop_expired, count_message, rate_or_new, new_rate_state, rate_limit_allows,
}
use asterion.Gateway.Admit.{
  first_breach, connection_checks, request_checks, market_checks, check_market, check_request,
  check_new_order, admit, notional_for, price_of, exposure_of, gross_exposure_with,
  self_trade_check_allows,
}
use asterion.Gateway.Replace.{
  replace_checks, replace_market_checks, replace_working, check_replace_market, check_replacement,
  working_by_exchange, check_replace_order,
}
use asterion.Gateway.Rate.Window
use asterion.Gateway.Rate.Window.{recent, rate_limit_allows-recent}
use asterion.Gateway.Exposure.Open.{share_of}
use asterion.Gateway.Exposure.Tracked.{IsTracked}
use asterion.Gateway.Exposure.Run.{gateway-IsTracked}
use asterion.Gateway.Reports.Final.{on_execution_report-final, on_execution_report_unreleased}
use asterion.Gateway.Refused.{Matches, check_new_order_refused}
use asterion.Gateway.Admit.Limits.{IsAdmissible, check_new_order-IsAdmissible}
use asterion.Gateway.Shutdown.Killed.{IsKilled, refusal, run-enable_kill_switch}
use asterion.Gateway.Session.{gateway_ops, session_disconnect}
use asterion.Broker.Event.{SessionConnectionState}
use asterion.Broker.{SimulatedBrokerSession, new_session, disconnect}
use asterion.Gateway.Calls.{Call, step, run, see_market, ask_new, hear}

abbrev limits : RiskLimits
limits = record {
  max_order_quantity = pos 50;
  max_notional_ticks = pos 100000;
  max_position_per_symbol = pos 100;
  max_gross_exposure_ticks = pos 1000000;
  price_band_ticks = pos 20;
  stale_after_ns = pos 1000;
  max_open_order_quantity = pos 60;
  max_messages_per_window = 10;
  rate_window_ns = pos 100;
  enable_self_trade_prevention = true;
  rate_limit_mode = sliding_window;
  cancel_on_disconnect = true;
  disconnect_order_policy = reject_new_orders;
}

abbrev order : ℕ → ℕ → ℕ → NewOrderRequest
order id price quantity = record {
  client_order_id = id;
  symbol_id = 7;
  side = buy;
  order_type = OrderType.limit;
  price_ticks = pos price;
  quantity = pos quantity;
  timestamp_ns = pos 1;
  client_id = 3;
  time_in_force = TimeInForce.gtc;
  post_only = false;
}

abbrev report : ℕ → ℕ → OrderStatus → ExecType → ℕ → ExecutionReport
report id exchange_id status kind left = record {
  client_order_id = id;
  exchange_order_id = exchange_id;
  symbol_id = 7;
  side = buy;
  order_status = status;
  exec_type = kind;
  filled_quantity = pos 0;
  remaining_quantity = pos left;
  last_fill_quantity = pos 0;
  last_fill_price_ticks = pos 0;
  average_price_ticks = pos 0;
  resting_price_ticks = pos 100;
  timestamp_ns = pos 2;
  reject_reason = RejectReason.none;
}

abbrev calls : List Call
calls =
    see_market 7 (pos 100) (pos 1)
    ∷ ask_new (order 11 100 30) (pos 2)
    ∷ hear (report 11 1 OrderStatus.new ExecType.new 30)
    ∷ ask_new (order 12 99 20) (pos 3)
    ∷ []

program : Unit {0}
unfolding find put erase modify replicate get_or set ◌+ℤ◌ ◌-ℤ◌ ◌*ℤ◌ neg_ℤ min_ℤ eqb_side abs_i64
    contains insert insert_at with_room rehash reinsert reinsert_all probe bucket_index mix
    bucket_count_for double_until new_gateway working_quantity position client_symbol_key
    tracks_working_orders decide decide_request on_market_data record_audit_entry add_at release_at
    book_add book_release add_working_order_quantity lower_quantity release_from_books
    release_working_order_quantity register_working_order release_order bind_exchange_order_id
    change_terms reported_key update_from_report upsert_working_order_from_report
    on_execution_report audit_cancels cancel_all_working_orders enable_kill_switch on_disconnect
    drop_expired count_message rate_limit_allows first_breach connection_checks request_checks
    market_checks check_market check_request check_new_order admit notional_for price_of exposure_of
    gross_exposure_with self_trade_check_allows replace_checks replace_market_checks replace_working
    check_replace_market check_replacement working_by_exchange check_replace_order step run
program = tt

working : working_quantity 7 (run calls (new_gateway limits)) ≡ pos 50
unfolding program
working = refl

-- The open quantity would pass its limit.
too_much :
    (check_new_order (order 13 100 20) (pos 4) (run calls (new_gateway limits))).1.reject_reason
    ≡ RejectReason.max_open_order_quantity
unfolding program
too_much = refl

-- A sell at the price of the client's own bid.
own_trade :
    (check_new_order
      (record (order 13 100 20) { side = sell })
      (pos 4)
      (run calls (new_gateway limits))).1.reject_reason
    ≡ RejectReason.self_trade_prevention
unfolding program
own_trade = refl

replaced :
    working_quantity 7
      (check_replace_order
        (record {
          client_order_id = 14;
          exchange_order_id = 1;
          new_price_ticks = pos 101;
          new_quantity = pos 5;
          timestamp_ns = pos 4;
        })
        (pos 4)
        (run calls (new_gateway limits))).0
    ≡ pos 25
unfolding program
replaced = refl

abbrev after : RiskGateway
after = run calls (new_gateway limits)

gateway-IsTracked_example : IsTracked (run calls (new_gateway limits))
gateway-IsTracked_example = gateway-IsTracked limits calls

check_new_order-IsAdmissible_example :
    ((check_new_order (order 13 99 10) (pos 4) after).1.accepted ≡ true)
    ↔ IsAdmissible (order 13 99 10) (pos 4) after
check_new_order-IsAdmissible_example = check_new_order-IsAdmissible (order 13 99 10) (pos 4) after

admitted : (check_new_order (order 13 99 10) (pos 4) after).1.accepted ≡ true
unfolding program
admitted = refl

contains-insert_example :
    contains 9 (insert 9 (insert 4 empty_ids)) ≡ ((9 == 9) || contains 9 (insert 4 empty_ids))
contains-insert_example =
    contains-insert 9 9 (insert 4 empty_ids) (insert-IsHashed 4 empty_ids empty_ids-IsHashed)

refused : (check_new_order (order 13 100 20) (pos 4) after).1.accepted ≡ false
unfolding program
refused = refl

check_new_order_refused_example : Matches after (check_new_order (order 13 100 20) (pos 4) after).0
check_new_order_refused_example = check_new_order_refused (order 13 100 20) (pos 4) after refused

abbrev a_replacement : ReplaceOrderRequest
a_replacement = record {
  client_order_id = 14;
  exchange_order_id = 1;
  new_price_ticks = pos 101;
  new_quantity = pos 5;
  timestamp_ns = pos 4;
}

abbrev later_calls : List Call
later_calls = ask_new (order 15 100 1) (pos 6) ∷ see_market 7 (pos 90) (pos 7) ∷ []

run-enable_kill_switch_example :
    let h = run later_calls (enable_kill_switch (pos 5) after) in
    IsKilled h
    × ((check_new_order (order 16 100 1) (pos 8) h).1 ≡ refusal RejectReason.kill_switch)
    × ((check_replace_order a_replacement (pos 8) h).1 ≡ refusal RejectReason.kill_switch)
run-enable_kill_switch_example =
    run-enable_kill_switch (pos 5) later_calls after (order 16 100 1) a_replacement (pos 8)
      (refl, (refl, tt))

abbrev twelve : WorkingOrder
twelve = record {
  client_id = 3;
  symbol_id = 7;
  side = buy;
  price_ticks = pos 99;
  quantity = pos 20;
  exchange_order_id = 0;
}

works : find 12 after.working_orders ≡ some twelve
unfolding program
works = refl

on_execution_report-final_example :
    let h = on_execution_report (report 12 2 OrderStatus.canceled ExecType.canceled 20) after in
    (find 12 h.working_orders ≡ none)
    × ((s : ℕ) → working_quantity s h ≡ working_quantity s after -ℤ share_of s twelve)
on_execution_report-final_example =
    on_execution_report-final (report 12 2 OrderStatus.canceled ExecType.canceled 20) after twelve
      (gateway-IsTracked limits calls) (omega arith) works refl

abbrev foreign : ExecutionReport
foreign = report 99 1 OrderStatus.filled ExecType.trade 0

unknown_client_id : find 99 after.working_orders ≡ none
unfolding program
unknown_client_id = refl

known_exchange_id : reported_key foreign after ≡ some 11
unfolding program
known_exchange_id = refl

on_execution_report_unreleased_example : on_execution_report foreign after ≡ after
on_execution_report_unreleased_example =
    on_execution_report_unreleased foreign after 11 (omega arith) unknown_client_id
      known_exchange_id refl

sent :
    rate_or_new (find 3 after.rate_states)
    ≡ Window.after (pos 100) (pos 2 ∷ pos 3 ∷ []) new_rate_state
unfolding program Window.after
sent = refl

sliding : after.limits.rate_limit_mode ≡ sliding_window
unfolding program
sliding = refl

rate_limit_allows-recent_example :
    let counted = rate_limit_allows (order 13 99 10) (pos 102) after in
    let n = length (recent (pos 100) (pos 102) ((pos 2 ∷ pos 3 ∷ []) ++ pos 102 ∷ [])) in
    (counted.1 ≡ leb n 10)
    × (counted.2 ≡ pos n)
    × (rate_or_new (find 3 counted.0.rate_states)
        ≡ Window.after (pos 100) ((pos 2 ∷ pos 3 ∷ []) ++ pos 102 ∷ []) new_rate_state)
unfolding program
rate_limit_allows-recent_example =
    rate_limit_allows-recent (order 13 99 10) (pos 102) (pos 0) (pos 2 ∷ pos 3 ∷ []) after sliding
      (omega arith) (omega arith) sent (omega arith)

online : after.connected ≡ true
unfolding program
online = refl

alive : after.kill_switch ≡ false
unfolding program
alive = refl

cancels : after.limits.cancel_on_disconnect ≡ true
unfolding program
cancels = refl

refuses : after.limits.disconnect_order_policy ≡ reject_new_orders
unfolding program
refuses = refl

abbrev attached : SimulatedBrokerSession RiskGateway
attached = record (new_session true) {
  gateway = some after;
  state = SessionConnectionState.connected;
}

session_disconnect_example :
    (h : RiskGateway) × ((disconnect gateway_ops (pos 9) attached).gateway ≡ some h)
    × (h.working_orders ≡ [])
    × (h.working_quantities ≡ [])
    × ((check_new_order (order 16 100 1) (pos 8) h).1 ≡ refusal RejectReason.disconnected)
session_disconnect_example =
    session_disconnect (pos 9) attached after (order 16 100 1) (pos 8) refl refl online alive
      cancels refuses
