-- ===== src/Matching.antt =====
-- matching/matching_engine.hpp and matching_engine.cpp: the matching engine of one symbol.
-- A reference into `states_` is the id of the order: what is written through it is written to the
-- map, and a read of an id that is not there, which C++ has no reference to, reads nothing.
pub mod Report
pub mod State
pub mod Admit
pub mod Crossing
pub mod Sound
pub mod Trade
pub mod Fill
pub mod Prices
pub mod Fillable
pub mod Rounds
pub mod Resting
pub mod Terms
pub mod Register
pub mod Submit
pub mod Change
pub mod Reenter
pub mod Fills
pub mod Outcome
pub mod FillOrKill
pub mod SelfTrade
pub mod Digest
pub mod Session
pub mod Trail
mod Tests
pub mod Loop
pub mod Handlers
pub mod Amend
use asterion.Prelude.{
  ℕ, ◌+◌, ◌%◌, ◌^◌, ◌==◌, Bool, true, false, not, ◌&&◌, ◌||◌, Option, none, some, List, [], ◌∷◌,
  ◌++◌, if◌then◌else◌,
}
use asterion.Prelude.Int.{ℤ, pos, ◌+ℤ◌, ◌-ℤ◌, ◌*ℤ◌, ltb_ℤ, leb_ℤ, eqb_ℤ, min_ℤ}
use asterion.Prelude.Assoc.{find, emplace, modify}
use asterion.Core.Types.{Side, buy, sell, is_valid_side, opposite}
use asterion.Core.Checksum.{fnv_offset_basis}
use asterion.Book.Queue.{Order}
use asterion.Book.{OrderBook, new_book, add_order}
use Report.{
  OrderType, limit, OrderStatus, filled, canceled, rejected, ExecType, RejectReason,
  ExecutionReport, append_to_checksum,
}
use State.{OrderState, remaining_quantity, average_price_ticks}

pub record MatchingEngine : Type 0 where
  pub symbol_id : ℕ
  pub book : OrderBook
  pub next_exchange_order_id : ℕ
  pub states : List (ℕ × OrderState)
  pub client_to_exchange : List (ℕ × ℕ)
  pub seen_client_order_ids : List ℕ
  pub reports_checksum : ℕ

unfoldable pub new_engine : ℕ → MatchingEngine
unfolding new_book
new_engine symbol_id = record {
  symbol_id = symbol_id;
  book = new_book symbol_id;
  next_exchange_order_id = 1;
  states = [];
  client_to_exchange = [];
  seen_client_order_ids = [];
  reports_checksum = fnv_offset_basis;
}

-- The engine beside the vector of reports that a request fills.
pub record Reported : Type 0 where
  pub engine : MatchingEngine
  pub reports : List ExecutionReport

unfoldable pub record_report : ExecutionReport → Reported → Reported
record_report report r = record {
  engine = record (r.engine) {
    reports_checksum = append_to_checksum r.engine.reports_checksum report;
  };
  reports = r.reports ++ report ∷ [];
}

unfoldable pub make_reject : ℕ → ℕ → Side → ℤ → RejectReason → ExecutionReport
make_reject client_order_id symbol_id side timestamp_ns reason = record {
  client_order_id = client_order_id;
  exchange_order_id = 0;
  symbol_id = symbol_id;
  side = side;
  order_status = OrderStatus.rejected;
  exec_type = ExecType.rejected;
  filled_quantity = pos 0;
  remaining_quantity = pos 0;
  last_fill_quantity = pos 0;
  last_fill_price_ticks = pos 0;
  average_price_ticks = pos 0;
  resting_price_ticks = pos 0;
  timestamp_ns = timestamp_ns;
  reject_reason = reason;
}

abbrev pub is_terminal : OrderStatus → Bool
is_terminal OrderStatus.canceled = true
is_terminal OrderStatus.filled = true
is_terminal OrderStatus.rejected = true
is_terminal _ = false

abbrev pub is_limit : OrderType → Bool
is_limit OrderType.limit = true
is_limit _ = false

abbrev pub is_market : OrderType → Bool
is_market OrderType.market = true
is_market _ = false

unfoldable pub make_report : OrderState → ExecType → ℤ → ℤ → ℤ → RejectReason → ExecutionReport
unfolding remaining_quantity average_price_ticks
make_report s exec_type last_fill_quantity last_fill_price_ticks timestamp_ns reject_reason =
    let remaining = if is_terminal s.status then pos 0 else remaining_quantity s in
    record {
      client_order_id = s.client_order_id;
      exchange_order_id = s.exchange_order_id;
      symbol_id = s.symbol_id;
      side = s.side;
      order_status = s.status;
      exec_type = exec_type;
      filled_quantity = s.filled_quantity;
      remaining_quantity = remaining;
      last_fill_quantity = last_fill_quantity;
      last_fill_price_ticks = last_fill_price_ticks;
      average_price_ticks = average_price_ticks s;
      resting_price_ticks =
          if ltb_ℤ (pos 0) remaining && is_limit s.order_type then s.limit_price_ticks else pos 0;
      timestamp_ns = timestamp_ns;
      reject_reason = reject_reason;
    }

-- `record_report(reports, make_report(state, ...))` for a state of the map.
unfoldable pub report_state : ℕ → ExecType → ℤ → ℤ → ℤ → RejectReason → Reported → Reported
unfolding record_report make_report
report_state id exec_type quantity price timestamp_ns reason r = elim (find id r.engine.states) [
  | none ↦ r
  | some s ↦ record_report (make_report s exec_type quantity price timestamp_ns reason) r
]

-- Writes through a reference into `states_`.
unfoldable pub update_state : ℕ → (OrderState → OrderState) → Reported → Reported
update_state id f r = record r {
  engine = record (r.engine) { states = modify id f r.engine.states };
}

unfoldable pub update_book : OrderBook → Reported → Reported
update_book b r = record r { engine = record (r.engine) { book = b } }

abbrev pub set_status : OrderStatus → OrderState → OrderState
set_status status s = record s { status = status }

-- `state.status = Rejected`, reported as an internal error.
unfoldable pub fail_internally : ℕ → ℤ → Reported → Reported
unfolding report_state update_state
fail_internally id timestamp_ns r =
    report_state id ExecType.rejected (pos 0) (pos 0) timestamp_ns RejectReason.internal_error
      (update_state id (set_status OrderStatus.rejected) r)

abbrev pub member : ℕ → List ℕ → Bool
member id [] = false
member id (x ∷ xs) = if x == id then true else member id xs

unfoldable pub reserve_client_order_id : ℕ → MatchingEngine → MatchingEngine × Bool
reserve_client_order_id id e =
    if id == 0
    then (e, false)
    else if member id e.seen_client_order_ids
    then (e, false)
    else (record e { seen_client_order_ids = id ∷ e.seen_client_order_ids }, true)

abbrev pub resting_order : OrderState → ℤ → ℤ → Order
resting_order s remaining timestamp_ns = record {
  order_id = s.exchange_order_id;
  client_order_id = s.client_order_id;
  symbol_id = s.symbol_id;
  side = s.side;
  price_ticks = s.limit_price_ticks;
  quantity = remaining;
  timestamp_ns = timestamp_ns;
  sequence_number = s.exchange_order_id;
}

-- `rest_limit_order`, on the book.
unfoldable pub rest_limit_order : OrderState → ℤ → ℤ → OrderBook → OrderBook × Bool
rest_limit_order s remaining timestamp_ns b = add_order (resting_order s remaining timestamp_ns) b
