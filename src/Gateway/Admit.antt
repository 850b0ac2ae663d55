-- ===== src/Gateway/Admit.antt =====
-- `check_new_order` and `check_replace_order`. The checks of one stretch of the code stand in a list, in
-- their order: the first that is breached decides.
pub mod Counted
pub mod Meaning
pub mod Limits
use Prim.Native.String.{String}
use asterion.Prelude.{
  ℕ, ◌-◌, ◌^◌, ltb, Bool, true, false, not, ◌&&◌, ◌||◌, Option, none, some, List, [], ◌∷◌,
  if◌then◌else◌, is_empty,
}
use asterion.Prelude.Text.{Text, codes}
use asterion.Prelude.Int.{ℤ, pos, negsuc, ◌+ℤ◌, ◌-ℤ◌, ◌*ℤ◌, neg_ℤ, ltb_ℤ, leb_ℤ}
use asterion.Prelude.Assoc.{find, modify}
use asterion.Core.Types.{Side, buy, sell, eqb_side}
use asterion.Matching.Report.{OrderType, limit, market, TimeInForce, gtc, RejectReason}
use asterion.Matching.Admit.{NewOrderRequest, ReplaceOrderRequest}
use asterion.Portfolio.{abs_i64}
use asterion.Gateway.ClientOrderIds.{contains, insert}
use asterion.Gateway.Working.{is_limit, is_gtc, register_working_order, change_terms}
use asterion.Gateway.Rate.{rate_limit_allows}
use asterion.Gateway.{
  RiskGateway, RiskResult, MarketState, WorkingOrder, RateLimitMode, fixed_window, sliding_window,
  DisconnectOrderPolicy, reject_new_orders, allow_new_orders, position, working_quantity,
  client_symbol_key, tracks_working_orders, decide, decide_request,
}

-- `static_cast<std::int64_t>` of an unsigned 64-bit value.
abbrev pub as_i64 : ℕ → ℤ
as_i64 n = if ltb n (2 ^ 63) then pos n else negsuc (2 ^ 64 - n - 1)

-- One check: when it is breached, and what it reports.
pub record Check : Type 0 where
  pub breached : Bool
  pub check_name : Text
  pub reason : RejectReason
  pub limit_value : ℤ
  pub observed_value : ℤ

abbrev pub check : Bool → String → RejectReason → ℤ → ℤ → Check
check breached check_name reason limit_value observed_value = record {
  breached = breached;
  check_name = codes check_name;
  reason = reason;
  limit_value = limit_value;
  observed_value = observed_value;
}

unfoldable pub first_breach : List Check → Option Check
first_breach [] = none
first_breach (c ∷ cs) = if c.breached then some c else first_breach cs

abbrev pub is_market_order : OrderType → Bool
is_market_order market = true
is_market_order _ = false

abbrev pub refuses_new : DisconnectOrderPolicy → Bool
refuses_new reject_new_orders = true
refuses_new allow_new_orders = false

abbrev pub is_sliding : RateLimitMode → Bool
is_sliding sliding_window = true
is_sliding fixed_window = false

-- The price that an order is valued at.
unfoldable pub price_of : NewOrderRequest → RiskGateway → ℤ
price_of r g =
    if is_market_order r.order_type
    then elim (find r.symbol_id g.market_state) [ none ↦ pos 0 | some m ↦ m.reference_price_ticks ]
    else r.price_ticks

unfoldable pub notional_for : NewOrderRequest → RiskGateway → ℤ
unfolding price_of abs_i64
notional_for r g = abs_i64 (price_of r g *ℤ r.quantity)

-- The loop of `gross_exposure_with`.
unfoldable pub exposure_of : List (ℕ × ℤ) → RiskGateway → ℤ
unfolding abs_i64
exposure_of [] g = pos 0
exposure_of ((symbol_id, signed_position) ∷ ps) g =
    (elim (find symbol_id g.market_state) [
      | none ↦ pos 0
      | some m ↦ abs_i64 signed_position *ℤ m.reference_price_ticks
    ])
    +ℤ exposure_of ps g

unfoldable pub gross_exposure_with : NewOrderRequest → RiskGateway → ℤ
unfolding notional_for exposure_of
gross_exposure_with r g = notional_for r g +ℤ exposure_of g.positions g

-- The best price of a side of the client's own resting orders.
abbrev pub best_price : List (ℤ × ℤ) → Option ℤ
best_price [] = none
best_price ((p, q) ∷ m) = some p

-- Whether an order does not meet the client's own orders, and the price that it would meet.
abbrev pub own_cross : Bool → ℤ → Side → Option ℤ → Option ℤ → Bool × ℤ
own_cross is_market price buy bid (some ask) = (not is_market && ltb_ℤ price ask, ask)
own_cross is_market price sell (some bid) ask = (not is_market && ltb_ℤ bid price, bid)
own_cross is_market price _ _ _ = (true, pos 0)

unfoldable pub self_trade_check_allows : NewOrderRequest → RiskGateway → Bool × ℤ
self_trade_check_allows r g =
    if not g.limits.enable_self_trade_prevention || r.post_only
    then (true, pos 0)
    else elim (find (client_symbol_key r.client_id r.symbol_id) g.client_books) [
      | none ↦ (true, pos 0)
      | some b ↦
          own_cross (is_market_order r.order_type) r.price_ticks r.side
            (best_price b.buy_qty_by_price) (best_price b.sell_qty_by_price)
    ]

abbrev pub refuse : ℤ → ℕ → ℕ → Side → Check → RiskGateway → RiskGateway × RiskResult
refuse now_ns client_order_id symbol_id side c g =
    decide now_ns client_order_id symbol_id side c.check_name false c.reason c.limit_value
      c.observed_value g

abbrev pub refuse_request : NewOrderRequest → ℤ → Check → RiskGateway → RiskGateway × RiskResult
refuse_request r now_ns c g =
    decide_request r now_ns c.check_name false c.reason c.limit_value c.observed_value g

-- The first two checks of both functions.
unfoldable pub connection_checks : RiskGateway → List Check
connection_checks g =
    check g.kill_switch "kill_switch" RejectReason.kill_switch (pos 0) (pos 0)
    ∷ check (not g.connected && refuses_new g.limits.disconnect_order_policy) "disconnected"
        RejectReason.disconnected (pos 0) (pos 0)
    ∷ []

abbrev pub rate_check : String → String → Bool → ℤ → RiskGateway → Check
rate_check fixed_name sliding_name allowed observed_rate g =
    check (not allowed) (if is_sliding g.limits.rate_limit_mode then sliding_name else fixed_name)
      RejectReason.message_rate_limit (pos g.limits.max_messages_per_window) observed_rate

-- The checks of `check_new_order` on the request alone.
unfoldable pub request_checks : NewOrderRequest → RiskGateway → List Check
unfolding contains
request_checks r g =
    check (leb_ℤ r.quantity (pos 0)) "invalid_quantity" RejectReason.invalid_quantity (pos 0)
      r.quantity
    ∷ check (is_limit r.order_type && leb_ℤ r.price_ticks (pos 0)) "invalid_price"
        RejectReason.invalid_price (pos 0) r.price_ticks
    ∷ check (contains r.client_order_id g.accepted_client_order_ids) "duplicate_client_order_id"
        RejectReason.duplicate_client_order_id (pos 0) (as_i64 r.client_order_id)
    ∷ check (ltb_ℤ g.limits.max_order_quantity r.quantity) "max_order_quantity"
        RejectReason.max_order_quantity g.limits.max_order_quantity r.quantity
    ∷ []

abbrev pub age_of : MarketState → ℤ → ℤ
age_of m now_ns = now_ns -ℤ m.last_timestamp_ns

abbrev pub is_stale : MarketState → ℤ → RiskGateway → Bool
is_stale m now_ns g =
    ltb_ℤ (pos 0) g.limits.stale_after_ns && ltb_ℤ g.limits.stale_after_ns (age_of m now_ns)

abbrev pub distance : ℤ → MarketState → ℤ
distance price m = abs_i64 (price -ℤ m.reference_price_ticks)

-- The position after a fill of the whole order.
abbrev pub projected_position : NewOrderRequest → RiskGateway → ℤ
projected_position r g =
    position r.symbol_id g +ℤ (if eqb_side r.side buy then r.quantity else neg_ℤ r.quantity)

abbrev pub missing_market : String → RiskGateway → Check
missing_market name g =
    check true name RejectReason.stale_market_data g.limits.stale_after_ns (pos 0)

-- The checks of `check_new_order` against the market and the exposure.
unfoldable pub market_checks : NewOrderRequest → MarketState → ℤ → RiskGateway → List Check
unfolding abs_i64 notional_for self_trade_check_allows working_quantity position gross_exposure_with
market_checks r m now_ns g =
    check (is_stale m now_ns g) "stale_market_data" RejectReason.stale_market_data
      g.limits.stale_after_ns (age_of m now_ns)
    ∷ check (is_limit r.order_type && ltb_ℤ g.limits.price_band_ticks (distance r.price_ticks m))
        "price_band" RejectReason.price_band g.limits.price_band_ticks (distance r.price_ticks m)
    ∷ check (ltb_ℤ g.limits.max_notional_ticks (notional_for r g)) "max_notional"
        RejectReason.max_notional g.limits.max_notional_ticks (notional_for r g)
    ∷ check (not (self_trade_check_allows r g).0) "self_trade_prevention"
        RejectReason.self_trade_prevention r.price_ticks (self_trade_check_allows r g).1
    ∷ check
        (ltb_ℤ (pos 0) g.limits.max_open_order_quantity
          && is_limit r.order_type
          && is_gtc r.time_in_force
          && ltb_ℤ g.limits.max_open_order_quantity (working_quantity r.symbol_id g +ℤ r.quantity))
        "max_open_order_quantity" RejectReason.max_open_order_quantity
        g.limits.max_open_order_quantity (working_quantity r.symbol_id g +ℤ r.quantity)
    ∷ check (ltb_ℤ g.limits.max_position_per_symbol (abs_i64 (projected_position r g)))
        "max_position" RejectReason.max_position g.limits.max_position_per_symbol
        (abs_i64 (projected_position r g))
    ∷ check (ltb_ℤ g.limits.max_gross_exposure_ticks (gross_exposure_with r g)) "max_gross_exposure"
        RejectReason.max_gross_exposure g.limits.max_gross_exposure_ticks (gross_exposure_with r g)
    ∷ []

-- The end of `check_new_order`, when no check is breached.
unfoldable pub admit : NewOrderRequest → ℤ → RiskGateway → RiskGateway × RiskResult
admit r now_ns g =
    let known = record g {
      accepted_client_order_ids = insert r.client_order_id g.accepted_client_order_ids;
    } in
    decide_request r now_ns (codes "accepted") true RejectReason.none g.limits.max_notional_ticks
      (notional_for r g)
      (if tracks_working_orders known then register_working_order r known else known)

-- The rest of `check_new_order`, from the lookup of the market on.
unfoldable pub check_market : NewOrderRequest → ℤ → RiskGateway → RiskGateway × RiskResult
check_market r now_ns g = elim (find r.symbol_id g.market_state) [
  | none ↦ refuse_request r now_ns (missing_market "stale_market_data" g) g
  | some m ↦ elim (first_breach (market_checks r m now_ns g)) [
    | some c ↦ refuse_request r now_ns c g
    | none ↦ admit r now_ns g
  ]
]

-- From the message rate on.
unfoldable pub check_request :
    NewOrderRequest → ℤ → RiskGateway × Bool × ℤ → RiskGateway × RiskResult
check_request r now_ns (g, allowed, observed_rate) =
    elim (first_breach (
      rate_check "message_rate_limit" "message_rate_limit_sliding" allowed observed_rate g
      ∷ request_checks r g)) [
        | some c ↦ refuse_request r now_ns c g
        | none ↦ check_market r now_ns g
      ]

unfoldable pub check_new_order : NewOrderRequest → ℤ → RiskGateway → RiskGateway × RiskResult
check_new_order r now_ns g = elim (first_breach (connection_checks g)) [
  | some c ↦ refuse_request r now_ns c g
  | none ↦ check_request r now_ns (rate_limit_allows r now_ns g)
]
