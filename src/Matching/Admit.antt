-- ===== src/Matching/Admit.antt =====
-- The requests, and the tests of the engine that read the book and change nothing: `crosses`,
-- `can_fully_fill` and `would_self_trade`.
use asterion.Prelude.{
  ℕ, ◌==◌, Bool, true, false, not, ◌&&◌, ◌||◌, Option, none, some, List, [], ◌∷◌, if◌then◌else◌,
}
use asterion.Prelude.Int.{ℤ, ◌-ℤ◌, leb_ℤ}
use asterion.Core.Types.{Side, buy, sell, opposite, eqb_side}
use asterion.Book.{OrderBook, best_bid, best_ask, find_order, order_count}
use asterion.Book.Depth.{L2Level, l2_view}
use asterion.Matching.Report.{OrderType, TimeInForce}
use asterion.Matching.State.{OrderState}
use asterion.Matching.{MatchingEngine, is_market}

pub record NewOrderRequest : Type 0 where
  pub client_order_id : ℕ
  pub symbol_id : ℕ
  pub side : Side
  pub order_type : OrderType
  pub price_ticks : ℤ
  pub quantity : ℤ
  pub timestamp_ns : ℤ
  pub client_id : ℕ
  pub time_in_force : TimeInForce
  pub post_only : Bool

pub record CancelOrderRequest : Type 0 where
  pub client_order_id : ℕ
  pub exchange_order_id : ℕ
  pub timestamp_ns : ℤ

pub record ReplaceOrderRequest : Type 0 where
  pub client_order_id : ℕ
  pub exchange_order_id : ℕ
  pub new_price_ticks : ℤ
  pub new_quantity : ℤ
  pub timestamp_ns : ℤ

-- Whether an order of a side reaches a price of the other side.
abbrev pub reaches : Side → OrderType → ℤ → ℤ → Bool
reaches buy order_type limit_price_ticks best = is_market order_type || leb_ℤ best limit_price_ticks
reaches sell order_type limit_price_ticks best =
    is_market order_type || leb_ℤ limit_price_ticks best
reaches Side.none order_type limit_price_ticks best = false

unfoldable pub crosses : Side → OrderType → ℤ → OrderBook → Bool
unfolding best_bid best_ask
crosses buy order_type limit_price_ticks b = elim (best_ask b) [
  | none ↦ false
  | some best ↦ reaches buy order_type limit_price_ticks best
]
crosses sell order_type limit_price_ticks b = elim (best_bid b) [
  | none ↦ false
  | some best ↦ reaches sell order_type limit_price_ticks best
]
crosses Side.none order_type limit_price_ticks b = false

-- The loop of `can_fully_fill` over the levels of the other side.
unfoldable pub fillable : NewOrderRequest → ℤ → List L2Level → Bool
fillable r required [] = false
fillable r required (l ∷ ls) =
    let rest = fillable r (required -ℤ l.quantity) ls in
    let executable =
      is_market r.order_type
      || eqb_side r.side buy && leb_ℤ l.price_ticks r.price_ticks
      || eqb_side r.side sell && leb_ℤ r.price_ticks l.price_ticks in
    if not executable then false else if leb_ℤ required l.quantity then true else rest

unfoldable pub can_fully_fill : NewOrderRequest → OrderBook → Bool
unfolding fillable
can_fully_fill r b =
    let view = l2_view (order_count b) b in
    fillable r r.quantity (if eqb_side r.side buy then view.asks else view.bids)

abbrev pub is_some {ℓ} : {A : Type ℓ} → Option A → Bool
is_some none = false
is_some (some a) = true

-- The loop of `would_self_trade`. Its result does not depend on the order of the states.
unfoldable pub self_trade_among :
    Side → OrderType → ℤ → ℕ → ℕ → OrderBook → List (ℕ × OrderState) → Bool
self_trade_among side order_type limit_price_ticks client_id excluded b [] = false
self_trade_among side order_type limit_price_ticks client_id excluded b ((id, s) ∷ states) =
    let rest = self_trade_among side order_type limit_price_ticks client_id excluded b states in
    if id == excluded
      || not (s.client_id == client_id)
      || not (eqb_side s.side (opposite side))
      || not (is_some (find_order id b))
    then rest
    else if is_market order_type || reaches side order_type limit_price_ticks s.limit_price_ticks
    then true
    else rest

unfoldable pub would_self_trade : Side → OrderType → ℤ → ℕ → ℕ → MatchingEngine → Bool
unfolding self_trade_among
would_self_trade side order_type limit_price_ticks client_id excluded e =
    if client_id == 0
    then false
    else self_trade_among side order_type limit_price_ticks client_id excluded e.book e.states
