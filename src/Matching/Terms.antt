-- ===== src/Matching/Terms.antt =====
-- What writes to a state and reports leave as it is, and what a well-formed request is.
use asterion.Prelude.{
  ℕ, ◌≡◌, refl, sym, ap, subst, ◌∙◌, Bool, true, false, none, arith, if◌then◌else◌,
}
use asterion.Prelude.Int.{ℤ, pos, ◌-ℤ◌, ◌<ℤ◌}
use asterion.Prelude.Assoc.{find-modify}
use asterion.Core.Types.{Side, is_valid_side}
use asterion.Book.{find_order}
use asterion.Matching.Report.{OrderType, OrderStatus, ExecType, RejectReason}
use asterion.Matching.State.{OrderState}
use asterion.Matching.Admit.{NewOrderRequest}
use asterion.Matching.Sound.{IsSound, IsSound-digest, Named, report_state-engine}
use asterion.Matching.Trade.{Incoming}
use asterion.Matching.Resting.{modify-IsSound}
use asterion.Matching.Handlers.{malformed, passes}
use asterion.Matching.{MatchingEngine, Reported, report_state, update_state, set_status, is_limit}

-- What a request that passes the first guards is.
pub record WellFormed (r : NewOrderRequest) (e : MatchingEngine) : Type 0 where
  pub symbol : r.symbol_id ≡ e.symbol_id
  pub valid_side : is_valid_side r.side ≡ true
  pub some_quantity : pos 0 <ℤ r.quantity
  pub priced : is_limit r.order_type ≡ true → pos 0 <ℤ r.price_ticks

pub malformed-WellFormed :
    (r : NewOrderRequest) (e : MatchingEngine) → passes (malformed r e) ≡ true → WellFormed r e
unfolding malformed
malformed-WellFormed r e h = record {
  symbol = ground arith;
  valid_side = ground arith;
  some_quantity = ground arith;
  priced = λ l. ground arith;
}

-- The same order, but for its status.
pub record SameTerms (s t : OrderState) : Type 0 where
  pub same_id : t.exchange_order_id ≡ s.exchange_order_id
  pub same_symbol : t.symbol_id ≡ s.symbol_id
  pub same_side : t.side ≡ s.side
  pub same_type : t.order_type ≡ s.order_type
  pub same_limit : t.limit_price_ticks ≡ s.limit_price_ticks
  pub same_original : t.original_quantity ≡ s.original_quantity
  pub same_filled : t.filled_quantity ≡ s.filled_quantity

pub set_status-SameTerms :
    (status : OrderStatus) (s : OrderState) → SameTerms s (set_status status s)
set_status-SameTerms status s = record {
  same_id = refl;
  same_symbol = refl;
  same_side = refl;
  same_type = refl;
  same_limit = refl;
  same_original = refl;
  same_filled = refl;
}

pub SameTerms-refl : (s : OrderState) → SameTerms s s
SameTerms-refl s = record {
  same_id = refl;
  same_symbol = refl;
  same_side = refl;
  same_type = refl;
  same_limit = refl;
  same_original = refl;
  same_filled = refl;
}

pub if-SameTerms : (c : Bool) (s t : OrderState) → SameTerms s t → SameTerms s (if c then t else s)
if-SameTerms true s t h = h
if-SameTerms false s t h = SameTerms-refl s

module _ (id : ℕ) (f : OrderState → OrderState) (terms : (s : OrderState) → SameTerms s (f s))
    (r : Reported) (h : IsSound r.engine) where
  keeps_name : (s : OrderState) → Named r.engine.symbol_id id s → Named r.engine.symbol_id id (f s)
  keeps_name s n = record {
    same_id = (terms s).same_id ∙ n.same_id;
    same_symbol = (terms s).same_symbol ∙ n.same_symbol;
    valid_side = ap is_valid_side (terms s).same_side ∙ n.valid_side;
  }

  pub update_state-IsSound :
      find_order id r.engine.book ≡ none → IsSound (update_state id f r).engine
  unfolding update_state
  update_state-IsSound off = modify-IsSound r.engine id f h off keeps_name

  pub update_state-Incoming :
      (side : Side) (order_type : OrderType) (limit remaining : ℤ)
      → Incoming id side order_type limit remaining r.engine
      → Incoming id side order_type limit remaining (update_state id f r).engine
  unfolding update_state
  update_state-Incoming side order_type limit remaining inc = record {
    off_book = inc.off_book;
    state = f inc.state;
    found = ground (arith, find-modify id id f r.engine.states, inc.found);
    same_side = (terms inc.state).same_side ∙ inc.same_side;
    same_type = (terms inc.state).same_type ∙ inc.same_type;
    same_limit = (terms inc.state).same_limit ∙ inc.same_limit;
    unfilled =
        ap (λ q. q -ℤ (f inc.state).filled_quantity) (terms inc.state).same_original
        ∙ ap (λ q. inc.state.original_quantity -ℤ q) (terms inc.state).same_filled
        ∙ inc.unfilled;
    nonnegative = inc.nonnegative;
  }

-- A report keeps both.
module _ (id : ℕ) (exec_type : ExecType) (q p t : ℤ) (reason : RejectReason) (r : Reported) where
  pub report_state-IsSound :
      IsSound r.engine → IsSound (report_state id exec_type q p t reason r).engine
  report_state-IsSound h =
      subst IsSound (sym (report_state-engine id exec_type q p t reason r))
        (IsSound-digest r.engine r.engine.seen_client_order_ids _ h)

  pub report_state-Incoming :
      (j : ℕ) (side : Side) (order_type : OrderType) (limit remaining : ℤ)
      → Incoming j side order_type limit remaining r.engine
      → Incoming j side order_type limit remaining (report_state id exec_type q p t reason r).engine
  report_state-Incoming j side order_type limit remaining inc =
      subst (Incoming j side order_type limit remaining)
        (sym (report_state-engine id exec_type q p t reason r))
        (record {
          off_book = inc.off_book;
          state = inc.state;
          found = inc.found;
          same_side = inc.same_side;
          same_type = inc.same_type;
          same_limit = inc.same_limit;
          unfilled = inc.unfilled;
          nonnegative = inc.nonnegative;
        })
