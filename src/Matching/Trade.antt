-- ===== src/Matching/Trade.antt =====
-- One turn of `match_against_book` on a sound engine.
use asterion.Prelude.{ℕ, ◌≡◌, refl, ap, ◌∙◌, none, some, List}
use asterion.Prelude.Int.{ℤ, pos, ◌-ℤ◌, ◌≤ℤ◌, int_laws}
use asterion.Prelude.Assoc.{find, modify}
use asterion.Core.Types.{Side}
use asterion.Book.Queue.{Order}
use asterion.Book.{find_order}
use asterion.Matching.Report.{OrderType, ExecType, RejectReason}
use asterion.Matching.State.{OrderState}
use asterion.Matching.Sound.{digest_of, report_state-engine}
use asterion.Matching.Loop.{filled_by, trade}
use asterion.Matching.{MatchingEngine, Reported, update_state, report_state}

abbrev pub states_of : Reported → List (ℕ × OrderState)
states_of r = r.engine.states

-- The order that the loop trades: off the book, with its state, and with `remaining` left to fill.
pub record Incoming (id : ℕ) (side : Side) (order_type : OrderType) (limit : ℤ) (remaining : ℤ)
    (e : MatchingEngine) : Type 0 where
  pub off_book : find_order id e.book ≡ none
  pub state : OrderState
  pub found : find id e.states ≡ some state
  pub same_side : state.side ≡ side
  pub same_type : state.order_type ≡ order_type
  pub same_limit : state.limit_price_ticks ≡ limit
  pub unfilled : state.original_quantity -ℤ state.filled_quantity ≡ remaining
  pub nonnegative : pos 0 ≤ℤ remaining

-- A fill changes what is filled, and the status.
pub record Filled (quantity : ℤ) (s t : OrderState) : Type 0 where
  pub same_id : t.exchange_order_id ≡ s.exchange_order_id
  pub same_symbol : t.symbol_id ≡ s.symbol_id
  pub same_side : t.side ≡ s.side
  pub same_type : t.order_type ≡ s.order_type
  pub same_limit : t.limit_price_ticks ≡ s.limit_price_ticks
  pub unfilled :
      t.original_quantity -ℤ t.filled_quantity
      ≡ s.original_quantity -ℤ s.filled_quantity -ℤ quantity

pub filled_by-Filled : (q price : ℤ) (s : OrderState) → Filled q s (filled_by q price s)
unfolding filled_by
filled_by-Filled q price s = record {
  same_id = refl;
  same_symbol = refl;
  same_side = refl;
  same_type = refl;
  same_limit = refl;
  unfilled = omega int_laws;
}

-- The two fills of a trade, on the map of the states.
abbrev pub traded_states : ℕ → ℕ → ℤ → ℤ → List (ℕ × OrderState) → List (ℕ × OrderState)
traded_states id other q price states =
    modify id (filled_by q price) (modify other (filled_by q price) states)

pub trade-engine :
    (id : ℕ) (t q : ℤ) (x : Order) (r : Reported)
    → (trade id t q x r).engine ≡ record (r.engine) {
      states = traded_states id x.order_id q x.price_ticks r.engine.states;
      reports_checksum = digest_of (trade id t q x r);
    }
unfolding trade update_state
trade-engine id t q x r =
    let filled2 =
      update_state id (filled_by q x.price_ticks)
        (update_state x.order_id (filled_by q x.price_ticks) r) in
    let reported1 =
      report_state x.order_id ExecType.trade q x.price_ticks t RejectReason.none filled2 in
    report_state-engine id ExecType.trade q x.price_ticks t RejectReason.none reported1
    ∙ ap (λ (e : MatchingEngine). record e { reports_checksum = digest_of (trade id t q x r) })
        (report_state-engine x.order_id ExecType.trade q x.price_ticks t RejectReason.none filled2)
