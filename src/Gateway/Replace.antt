-- ===== src/Gateway/Replace.antt =====
-- `check_replace_order`: the checks of a replacement, and the change of the working order.
use asterion.Prelude.{ℕ, Bool, true, false, not, ◌&&◌, Option, none, some, List, [], ◌∷◌}
use asterion.Prelude.Text.{codes}
use asterion.Prelude.Int.{ℤ, pos, ◌+ℤ◌, ◌-ℤ◌, ltb_ℤ, leb_ℤ}
use asterion.Prelude.Assoc.{find}
use asterion.Core.Types.{Side}
use asterion.Matching.Report.{limit, gtc, RejectReason}
use asterion.Matching.Admit.{NewOrderRequest, ReplaceOrderRequest}
use asterion.Portfolio.{abs_i64}
use asterion.Gateway.ClientOrderIds.{contains, insert}
use asterion.Gateway.Working.{change_terms}
use asterion.Gateway.Rate.{rate_limit_allows}
use asterion.Gateway.{
  RiskGateway, RiskResult, MarketState, WorkingOrder, position, working_quantity, decide_request,
}
use asterion.Gateway.Admit.{
  as_i64, Check, check, first_breach, connection_checks, rate_check, refuse, refuse_request,
  is_stale, age_of, distance, missing_market, notional_for, self_trade_check_allows,
  projected_position, gross_exposure_with,
}

-- The checks before the order is looked up.
unfoldable pub replace_checks : ReplaceOrderRequest → RiskGateway → List Check
unfolding contains
replace_checks r g =
    check (leb_ℤ r.new_quantity (pos 0)) "replace_invalid_quantity" RejectReason.invalid_quantity
      (pos 0) r.new_quantity
    ∷ check (leb_ℤ r.new_price_ticks (pos 0)) "replace_invalid_price" RejectReason.invalid_price
        (pos 0) r.new_price_ticks
    ∷ check (contains r.client_order_id g.accepted_client_order_ids)
        "replace_duplicate_client_order_id" RejectReason.duplicate_client_order_id (pos 0)
        (as_i64 r.client_order_id)
    ∷ []

abbrev pub unknown_replace : ReplaceOrderRequest → Check
unknown_replace r =
    check true "unknown_replace_order_id" RejectReason.unknown_order (pos 0)
      (as_i64 r.exchange_order_id)

-- `replacement`: the request that the replaced order amounts to.
abbrev pub replacement : ReplaceOrderRequest → WorkingOrder → NewOrderRequest
replacement r existing = record {
  client_order_id = r.client_order_id;
  symbol_id = existing.symbol_id;
  side = existing.side;
  order_type = limit;
  price_ticks = r.new_price_ticks;
  quantity = r.new_quantity;
  timestamp_ns = r.timestamp_ns;
  client_id = existing.client_id;
  time_in_force = gtc;
  post_only = false;
}

-- The working quantity of the symbol with the new quantity in place of the old one.
abbrev pub projected_working : ReplaceOrderRequest → WorkingOrder → RiskGateway → ℤ
projected_working r existing g =
    working_quantity existing.symbol_id g -ℤ existing.quantity +ℤ r.new_quantity

unfoldable pub replace_market_checks :
    ReplaceOrderRequest → WorkingOrder → MarketState → ℤ → RiskGateway → List Check
unfolding abs_i64 notional_for self_trade_check_allows working_quantity position gross_exposure_with
replace_market_checks r existing m now_ns g =
    let n = replacement r existing in
    check (is_stale m now_ns g) "replace_stale_market_data" RejectReason.stale_market_data
      g.limits.stale_after_ns (age_of m now_ns)
    ∷ check (ltb_ℤ g.limits.price_band_ticks (distance r.new_price_ticks m)) "replace_price_band"
        RejectReason.price_band g.limits.price_band_ticks (distance r.new_price_ticks m)
    ∷ check (ltb_ℤ g.limits.max_notional_ticks (notional_for n g)) "replace_max_notional"
        RejectReason.max_notional g.limits.max_notional_ticks (notional_for n g)
    ∷ check (not (self_trade_check_allows n g).0) "replace_self_trade_prevention"
        RejectReason.self_trade_prevention r.new_price_ticks (self_trade_check_allows n g).1
    ∷ check
        (ltb_ℤ (pos 0) g.limits.max_open_order_quantity
          && ltb_ℤ g.limits.max_open_order_quantity (projected_working r existing g))
        "replace_max_open_order_quantity" RejectReason.max_open_order_quantity
        g.limits.max_open_order_quantity (projected_working r existing g)
    ∷ check (ltb_ℤ g.limits.max_position_per_symbol (abs_i64 (projected_position n g)))
        "replace_max_position" RejectReason.max_position g.limits.max_position_per_symbol
        (abs_i64 (projected_position n g))
    ∷ check (ltb_ℤ g.limits.max_gross_exposure_ticks (gross_exposure_with n g))
        "replace_max_gross_exposure" RejectReason.max_gross_exposure
        g.limits.max_gross_exposure_ticks (gross_exposure_with n g)
    ∷ []

-- The end, when no check is breached: `key` is the client id under which the order works.
unfoldable pub replace_working :
    ReplaceOrderRequest → ℕ → WorkingOrder → ℤ → RiskGateway → RiskGateway × RiskResult
replace_working r key existing now_ns g =
    let n = replacement r existing in
    let changed = change_terms key existing r.new_price_ticks r.new_quantity g in
    decide_request n now_ns (codes "replace_accepted") true RejectReason.none
      g.limits.max_notional_ticks (notional_for n g)
      (record changed {
        accepted_client_order_ids = insert r.client_order_id changed.accepted_client_order_ids;
      })

unfoldable pub check_replace_market :
    ReplaceOrderRequest → ℕ → WorkingOrder → ℤ → RiskGateway → RiskGateway × RiskResult
check_replace_market r key existing now_ns g =
    let n = replacement r existing in
    elim (find existing.symbol_id g.market_state) [
      | none ↦ refuse_request n now_ns (missing_market "replace_stale_market_data" g) g
      | some m ↦ elim (first_breach (replace_market_checks r existing m now_ns g)) [
        | some c ↦ refuse_request n now_ns c g
        | none ↦ replace_working r key existing now_ns g
      ]
    ]

-- From the message rate on, for the working order that was found.
unfoldable pub check_replacement :
    ReplaceOrderRequest → ℕ → WorkingOrder → ℤ → RiskGateway × Bool × ℤ → RiskGateway × RiskResult
check_replacement r key existing now_ns (g, allowed, observed_rate) =
    let n = replacement r existing in
    elim (first_breach (
      rate_check "replace_message_rate_limit" "replace_message_rate_limit_sliding" allowed
        observed_rate g
      ∷ check (ltb_ℤ g.limits.max_order_quantity r.new_quantity) "replace_max_order_quantity"
          RejectReason.max_order_quantity g.limits.max_order_quantity r.new_quantity
      ∷ [])) [
        | some c ↦ refuse_request n now_ns c g
        | none ↦ check_replace_market r key existing now_ns g
      ]

-- A refusal before the order is known names no symbol and no side.
abbrev pub refuse_replace : ReplaceOrderRequest → ℤ → Check → RiskGateway → RiskGateway × RiskResult
refuse_replace r now_ns c g = refuse now_ns r.client_order_id 0 Side.none c g

-- The working order that an exchange id leads to, with its client id.
unfoldable pub working_by_exchange : ℕ → RiskGateway → Option (ℕ × WorkingOrder)
working_by_exchange exchange_order_id g =
    elim (find exchange_order_id g.exchange_to_client_order_ids) [
      | none ↦ none
      | some key ↦ elim (find key g.working_orders) [ none ↦ none | some o ↦ some (key, o) ]
    ]

unfoldable pub check_replace_order :
    ReplaceOrderRequest → ℤ → RiskGateway → RiskGateway × RiskResult
check_replace_order r now_ns g = elim (first_breach (connection_checks g)) [
  | some c ↦ refuse_replace r now_ns c g
  | none ↦ elim (first_breach (replace_checks r g)) [
    | some c ↦ refuse_replace r now_ns c g
    | none ↦ elim (working_by_exchange r.exchange_order_id g) [
      | none ↦ refuse_replace r now_ns (unknown_replace r) g
      | some found ↦
          check_replacement r found.0 found.1 now_ns
            (rate_limit_allows (replacement r found.1) now_ns g)
    ]
  ]
]
