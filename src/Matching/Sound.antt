-- ===== src/Matching/Sound.antt =====
-- The invariant of the engine: its book is valid and not crossed, and every resting order has the
-- state that it should have.
use asterion.Prelude.{ℕ, ◌≤◌, ◌≡◌, ◌≢◌, refl, true, none, some, List, arith, Option-cases, inl, inr}
use asterion.Prelude.Int.{ℤ, ◌-ℤ◌, ◌<ℤ◌}
use asterion.Prelude.Assoc.{find}
use asterion.Core.Types.{buy, sell, is_valid_side}
use asterion.Book.Queue.{Order}
use asterion.Book.Valid.{IsValid, new_book-IsValid}
use asterion.Book.{OrderBook, find_order, new_book}
use asterion.Matching.Report.{OrderType}
use asterion.Matching.State.{OrderState}
use asterion.Matching.{MatchingEngine, new_engine, Reported, record_report, report_state}

-- Every bid is priced below every ask.
abbrev pub Uncrossed : OrderBook → Type 0
Uncrossed b =
    (i j : ℕ) (x y : Order)
    → find_order i b ≡ some x
    → find_order j b ≡ some y
    → x.side ≡ buy
    → y.side ≡ sell
    → x.price_ticks <ℤ y.price_ticks

-- The state of a resting order.
pub record Backs (id : ℕ) (o : Order) (states : List (ℕ × OrderState)) : Type 0 where
  pub state : OrderState
  pub found : find id states ≡ some state
  pub same_side : state.side ≡ o.side
  pub same_price : state.limit_price_ticks ≡ o.price_ticks
  pub is_limit_order : state.order_type ≡ OrderType.limit
  pub unfilled : state.original_quantity -ℤ state.filled_quantity ≡ o.quantity

-- A state of the engine's symbol, kept under its own id.
pub record Named (symbol_id id : ℕ) (s : OrderState) : Type 0 where
  pub same_id : s.exchange_order_id ≡ id
  pub same_symbol : s.symbol_id ≡ symbol_id
  pub valid_side : is_valid_side s.side ≡ true

pub record IsSound (e : MatchingEngine) : Type 0 where
  pub valid : IsValid e.book
  pub book_symbol : e.book.symbol_id ≡ e.symbol_id
  pub has_symbol : e.symbol_id ≢ 0
  pub uncrossed : Uncrossed e.book
  pub backed : (id : ℕ) (o : Order) → find_order id e.book ≡ some o → Backs id o e.states
  pub named : (id : ℕ) (s : OrderState) → find id e.states ≡ some s → Named e.symbol_id id s
  pub fresh : (id : ℕ) → e.next_exchange_order_id ≤ id → find id e.states ≡ none
  pub started : 1 ≤ e.next_exchange_order_id

pub find_order-new_book : (symbol_id id : ℕ) → find_order id (new_book symbol_id) ≡ none
unfolding find_order new_book find
find_order-new_book symbol_id id = refl

pub new_engine-IsSound : (symbol_id : ℕ) → symbol_id ≢ 0 → IsSound (new_engine symbol_id)
unfolding new_engine find new_book
new_engine-IsSound symbol_id nonzero = record {
  valid = new_book-IsValid symbol_id;
  book_symbol = refl;
  has_symbol = nonzero;
  uncrossed = λ i j x y hx hy sx sy. absurd (cc (hx, find_order-new_book symbol_id i));
  backed = λ id o h. absurd (cc (h, find_order-new_book symbol_id id));
  named = λ id s h. absurd (cc h);
  fresh = λ id h. refl;
  started = omega arith;
}

-- The digest of the reports and the clients' ids play no part in it.
pub IsSound-digest :
    (e : MatchingEngine) (seen : List ℕ) (digest : ℕ)
    → IsSound e
    → IsSound (record e { seen_client_order_ids = seen; reports_checksum = digest })
IsSound-digest e seen digest h = record {
  valid = h.valid;
  book_symbol = h.book_symbol;
  has_symbol = h.has_symbol;
  uncrossed = h.uncrossed;
  backed = h.backed;
  named = h.named;
  fresh = h.fresh;
  started = h.started;
}

abbrev pub digest_of : Reported → ℕ
digest_of r = r.engine.reports_checksum

-- A report changes nothing of the engine but the digest.
pub record_report-engine :
    (report : _) (r : Reported)
    → (record_report report r).engine
      ≡ record (r.engine) { reports_checksum = digest_of (record_report report r) }
unfolding record_report
record_report-engine report r = refl

pub report_state-engine :
    (id : ℕ) (exec_type : _) (quantity price t : ℤ) (reason : _) (r : Reported)
    → let after = report_state id exec_type quantity price t reason r in
      after.engine ≡ record (r.engine) { reports_checksum = digest_of after }
unfolding report_state record_report
report_state-engine id exec_type quantity price t reason r =
    elim (Option-cases (find id r.engine.states)) [
      | inl e ↦ ground (arith, e)
      | inr (s, e) ↦ ground (arith, e)
    ]
