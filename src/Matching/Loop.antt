-- ===== src/Matching/Loop.antt =====
-- `match_against_book`: the loop that trades an incoming order against the best orders of the other
-- side. `incoming` and `resting_state` are references into `states_`.
use asterion.Prelude.{ℕ, zero, suc, Bool, true, false, ◌&&◌, none, some, if◌then◌else◌}
use asterion.Prelude.Int.{ℤ, pos, ◌+ℤ◌, ◌-ℤ◌, ◌*ℤ◌, ltb_ℤ, eqb_ℤ, min_ℤ}
use asterion.Prelude.Assoc.{find}
use asterion.Core.Types.{opposite}
use asterion.Book.Queue.{Order}
use asterion.Book.{best_order, reduce_order, order_count}
use asterion.Matching.Report.{OrderStatus, ExecType, RejectReason}
use asterion.Matching.State.{OrderState, remaining_quantity}
use asterion.Matching.Admit.{crosses}
use asterion.Matching.{
  Reported, update_state, update_book, report_state, fail_internally, set_status,
}

-- What one fill writes to a state.
unfoldable pub filled_by : ℤ → ℤ → OrderState → OrderState
unfolding remaining_quantity
filled_by quantity price s =
    let t = record s {
      filled_quantity = s.filled_quantity +ℤ quantity;
      filled_notional_ticks = s.filled_notional_ticks +ℤ quantity *ℤ price;
    } in
    set_status
      (if eqb_ℤ (remaining_quantity t) (pos 0)
        then OrderStatus.filled
        else OrderStatus.partially_filled)
      t

-- The engine and reports, the reference parameter `remaining`, and whether the loop goes on.
pub record Round : Type 0 where
  pub reported : Reported
  pub remaining : ℤ
  pub running : Bool

unfoldable pub trade : ℕ → ℤ → ℤ → Order → Reported → Reported
unfolding filled_by update_state report_state
trade id timestamp_ns quantity resting r =
    let filled1 = update_state resting.order_id (filled_by quantity resting.price_ticks) r in
    let filled2 = update_state id (filled_by quantity resting.price_ticks) filled1 in
    let reported1 =
      report_state resting.order_id ExecType.trade quantity resting.price_ticks timestamp_ns
        RejectReason.none filled2 in
    report_state id ExecType.trade quantity resting.price_ticks timestamp_ns RejectReason.none
      reported1

-- The end of the loop's body: the fill, then the book.
unfoldable pub fill : ℕ → ℤ → Order → Reported → ℤ → Round
unfolding trade update_book fail_internally
fill id timestamp_ns resting r remaining =
    let quantity = min_ℤ remaining resting.quantity in
    let traded = trade id timestamp_ns quantity resting r in
    let (book, reduced) = reduce_order resting.order_id quantity traded.engine.book in
    if reduced
    then record {
      reported = update_book book traded;
      remaining = remaining -ℤ quantity;
      running = true;
    }
    else record {
      reported = fail_internally id timestamp_ns (update_book book traded);
      remaining = remaining -ℤ quantity;
      running = false;
    }

-- The loop's body, for the best order that rests on the other side.
unfoldable pub match_best : ℕ → ℤ → Order → Reported → ℤ → Round
unfolding fill fail_internally
match_best id timestamp_ns resting r remaining = elim (find resting.order_id r.engine.states) [
  | none ↦ record {
    reported = fail_internally id timestamp_ns r;
    remaining = remaining;
    running = false;
  }
  | some _ ↦ fill id timestamp_ns resting r remaining
]

abbrev pub stop : Reported → ℤ → Round
stop r remaining = record { reported = r; remaining = remaining; running = false }

-- One turn of the loop, the test included.
unfoldable pub turn : ℕ → ℤ → OrderState → Reported → ℤ → Round
unfolding match_best crosses
turn id timestamp_ns incoming r remaining =
    if ltb_ℤ (pos 0) remaining
      && crosses incoming.side incoming.order_type incoming.limit_price_ticks r.engine.book
    then elim (best_order (opposite incoming.side) r.engine.book) [
      | none ↦ stop r remaining
      | some resting ↦ match_best id timestamp_ns resting r remaining
    ]
    else stop r remaining

unfoldable pub turn_of : ℕ → ℤ → Reported → ℤ → Round
unfolding turn
turn_of id timestamp_ns r remaining = elim (find id r.engine.states) [
  | none ↦ stop r remaining
  | some incoming ↦ turn id timestamp_ns incoming r remaining
]

unfoldable pub match_loop : ℕ → ℕ → ℤ → Reported → ℤ → Round
unfolding turn_of
match_loop zero id timestamp_ns r remaining = stop r remaining
match_loop (suc fuel) id timestamp_ns r remaining =
    let after = turn_of id timestamp_ns r remaining in
    let rest = match_loop fuel id timestamp_ns after.reported after.remaining in
    if after.running then rest else after

-- Every turn that goes on ends an order of the book or the incoming order, so that one turn more than
-- there are orders is enough.
unfoldable pub match_against_book : ℕ → ℤ → Reported → ℤ → Round
unfolding match_loop
match_against_book id timestamp_ns r remaining =
    match_loop (suc (order_count r.engine.book)) id timestamp_ns r remaining
