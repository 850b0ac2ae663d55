-- ===== src/Matching/Tests.antt =====
-- A session of two orders that trade, and the engine's theorems at it.
use asterion.Prelude.{ℕ, ◌⊎◌, none, ◌≡◌, ◌≢◌, refl, true, false, List, [], ◌∷◌, arith, All}
use asterion.Prelude.Int.{pos}
use asterion.Core.Types.{Side, buy, sell, is_valid_side}
use asterion.Matching.Report.{OrderType, TimeInForce, ExecType, checksum_execution_reports}
use asterion.Matching.Admit.{crosses, would_self_trade, NewOrderRequest}
use asterion.Matching.Handlers.{submit_order, register, malformed, unfit, accept, settle, rest}
use asterion.Matching.Prices.{IsFair}
use asterion.Matching.Fills.{submit_order-IsFair, submit_order-post_only}
use asterion.Matching.Outcome.{Outcome, Leaves, accept-Outcome}
use asterion.Matching.FillOrKill.{submit_order-fok}
use asterion.Matching.SelfTrade.{IsForeign, submit_order-IsForeign}
use asterion.Prelude.Assoc.{find, put, emplace, modify}
use asterion.Book.Queue.{is_valid_resting_order}
use asterion.Book.PriceMap.{with_level}
use asterion.Book.{new_book, add_order, place, update_level, order_count, best_bid, find_order}
use asterion.Matching.Amend.{replace_request}
use asterion.Matching.Sound.{IsSound, new_engine-IsSound}
use asterion.Matching.Terms.{WellFormed}
use asterion.Matching.Register.{HasNextId, register-IsSound, register-Incoming}
use asterion.Matching.Submit.{submit_order-IsSound}
use asterion.Matching.Reenter.{replace_request-IsSound}
use asterion.Matching.Rounds.{Ended, match_against_book-Ended}
use asterion.Matching.Loop.{match_against_book, match_loop, turn_of, turn}
use asterion.Matching.Session.{
  Request, submit, cancel, session, Reachable, start, handled, handle, Reachable-IsSound,
}
use asterion.Matching.Trail.{session-checksum}
use asterion.Matching.{
  MatchingEngine, new_engine, reserve_client_order_id, report_state, record_report, make_report,
  rest_limit_order, update_state, update_book,
}

abbrev request : ℕ → Side → ℕ → ℕ → NewOrderRequest
request client_order_id side price quantity = record {
  client_order_id = client_order_id;
  symbol_id = 7;
  side = side;
  order_type = OrderType.limit;
  price_ticks = pos price;
  quantity = pos quantity;
  timestamp_ns = pos 5;
  client_id = 0;
  time_in_force = TimeInForce.gtc;
  post_only = false;
}

abbrev offer : Request
offer = submit (request 11 sell 101 5)

abbrev bid : Request
bid = submit (request 12 buy 102 7)

abbrev requests : List Request
requests =
    offer
    ∷ bid
    ∷ cancel (record { client_order_id = 13; exchange_order_id = 2; timestamp_ns = pos 9 })
    ∷ []

nonzero : ◌≢◌ {A = ℕ} 7 0
nonzero e = absurd (omega arith)

next_id : HasNextId (new_engine 7)
unfolding new_engine
next_id = omega arith

submit_order-IsSound_example : IsSound (submit_order (request 11 sell 101 5) (new_engine 7)).engine
submit_order-IsSound_example =
    submit_order-IsSound (request 11 sell 101 5) (new_engine 7) (new_engine-IsSound 7 nonzero)
      next_id

abbrev offered : MatchingEngine
offered = (handle offer (new_engine 7)).engine

offered-Reachable : Reachable 7 offered
offered-Reachable = handled offer start next_id

Reachable-IsSound_example : IsSound offered
Reachable-IsSound_example = Reachable-IsSound 7 offered nonzero offered-Reachable

session-checksum_example :
    (session requests (new_engine 7)).engine.reports_checksum
    ≡ checksum_execution_reports (session requests (new_engine 7)).reports
session-checksum_example = session-checksum 7 requests

offer-WellFormed : WellFormed (request 11 sell 101 5) (new_engine 7)
unfolding new_engine is_valid_side
offer-WellFormed = record {
  symbol = refl;
  valid_side = refl;
  some_quantity = omega arith;
  priced = λ _. omega arith;
}

match_against_book-Ended_example : Ended 1 sell OrderType.limit (pos 101) (pos 5) (
    match_against_book 1
      (pos 5)
      (record { engine = register (request 11 sell 101 5) (new_engine 7); reports = [] })
      (pos 5))
unfolding new_engine
match_against_book-Ended_example =
    match_against_book-Ended 1 sell OrderType.limit (pos 101) (pos 5)
      (record { engine = register (request 11 sell 101 5) (new_engine 7); reports = [] }) (pos 5)
      (
        register-IsSound (request 11 sell 101 5) (new_engine 7) (new_engine-IsSound 7 nonzero)
            next_id offer-WellFormed,
        register-Incoming (request 11 sell 101 5) (new_engine 7) (new_engine-IsSound 7 nonzero)
            next_id offer-WellFormed,
      )

replace_request-IsSound_example :
    IsSound
      (replace_request
        (record {
          client_order_id = 14;
          exchange_order_id = 1;
          new_price_ticks = pos 105;
          new_quantity = pos 2;
          timestamp_ns = pos 9;
        })
        offered).engine
replace_request-IsSound_example =
    replace_request-IsSound
      (record {
        client_order_id = 14;
        exchange_order_id = 1;
        new_price_ticks = pos 105;
        new_quantity = pos 2;
        timestamp_ns = pos 9;
      })
      offered (Reachable-IsSound 7 offered nonzero offered-Reachable)

second_id : HasNextId offered
unfolding new_engine handle submit_order malformed unfit is_valid_side reserve_client_order_id
    register accept settle report_state record_report make_report match_against_book match_loop
    turn_of turn crosses rest rest_limit_order update_state update_book add_order place
    is_valid_resting_order find emplace modify put new_book update_level with_level would_self_trade
    order_count best_bid
second_id = omega arith

submit_order-IsFair_example :
    All (IsFair buy OrderType.limit (pos 102)) (submit_order (request 12 buy 102 7) offered).reports
submit_order-IsFair_example =
    submit_order-IsFair (request 12 buy 102 7) offered
      (Reachable-IsSound 7 offered nonzero offered-Reachable) second_id

abbrev passive : NewOrderRequest
passive = record (request 12 buy 100 7) { post_only = true }

submit_order-post_only_example :
    All (λ x. x.exec_type ≢ ExecType.trade) (submit_order passive offered).reports
submit_order-post_only_example =
    submit_order-post_only passive offered (Reachable-IsSound 7 offered nonzero offered-Reachable)
      second_id refl

abbrev fill_or_kill : ℕ → NewOrderRequest
fill_or_kill quantity = record (request 12 buy 102 quantity) { time_in_force = TimeInForce.fok }

submit_order-fok_example :
    let after = (submit_order (fill_or_kill 3) offered).engine in
    ((after.book ≡ offered.book) × (after.states ≡ offered.states))
    ⊎ ((find_order offered.next_exchange_order_id after.book ≡ none)
        × Leaves offered.next_exchange_order_id (pos 0) after)
submit_order-fok_example =
    submit_order-fok (fill_or_kill 3) offered
      (Reachable-IsSound 7 offered nonzero offered-Reachable) second_id refl

abbrev named_client : NewOrderRequest
named_client = record (request 12 buy 102 7) { client_id = 9 }

client_named : ◌≢◌ {A = ℕ} 9 0
client_named e = absurd (omega arith)

submit_order-IsForeign_example :
    All
      (IsForeign offered.next_exchange_order_id 9 offered.states)
      (submit_order named_client offered).reports
submit_order-IsForeign_example =
    submit_order-IsForeign named_client offered
      (Reachable-IsSound 7 offered nonzero offered-Reachable) second_id client_named

accept-Outcome_example :
    Outcome (request 11 sell 101 5) 1 (accept (request 11 sell 101 5) (new_engine 7)).engine
unfolding new_engine
accept-Outcome_example =
    accept-Outcome (request 11 sell 101 5) (new_engine 7) (new_engine-IsSound 7 nonzero) next_id
      offer-WellFormed
