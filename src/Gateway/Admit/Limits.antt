-- ===== src/Gateway/Admit/Limits.antt =====
-- What the gateway admits: exactly the orders that keep within every limit.
use asterion.Prelude.{
  ℕ, ◌≡◌, ◌↔◌, ◌⊎◌, inl, inr, refl, sym, subst, Bool, true, false, not, ◌&&◌, none, some, List, [],
  ◌∷◌, All, Bool-cases, Option-cases, if◌then◌else◌, arith,
}
use asterion.Prelude.Int.{ℤ, pos, ltb_ℤ, ◌-ℤ◌, ◌*ℤ◌, ◌+ℤ◌, ◌≤ℤ◌, ◌<ℤ◌}
use asterion.Prelude.Assoc.{find}
use asterion.Matching.Admit.{NewOrderRequest}
use asterion.Portfolio.{abs_i64}
use asterion.Gateway.ClientOrderIds.{contains}
use asterion.Gateway.Working.{is_limit, is_gtc}
use asterion.Gateway.Rate.{rate_limit_allows}
use asterion.Gateway.{
  RiskGateway, RiskResult, MarketState, RateState, DisconnectOrderPolicy, reject_new_orders,
  allow_new_orders, working_quantity, decide, decide_request,
}
use asterion.Gateway.Admit.Meaning.{
  IsWithin, abs_i64-IsWithin, IsInRate, rate_limit_allows-IsInRate, MeetsNoOwn,
  self_trade_check_allows-MeetsNoOwn,
}
use asterion.Gateway.Admit.Counted.{
  with_rates, rate_limit_allows-with_rates, market_checks-with_rates,
}
use asterion.Gateway.Admit.{
  Check, first_breach, refuses_new, connection_checks, request_checks, market_checks, rate_check,
  check_market, check_request, check_new_order, admit, notional_for, price_of, is_market_order,
  projected_position, gross_exposure_with, age_of,
}

abbrev pub IsClear : Check → Type 0
IsClear c = c.breached ≡ false

pub first_breach-none : (cs : List Check) → (first_breach cs ≡ none) ↔ All IsClear cs
unfolding first_breach
first_breach-none [] = (λ _. tt, λ _. refl)
first_breach-none (c ∷ cs) =
    let (there, back) = first_breach-none cs in
    elim (Bool-cases c.breached) [
      | inl e ↦ (λ h. absurd (ground (arith, e)), λ h. absurd (ground (arith, e)))
      | inr e ↦ rw e (λ h. (refl, there h), λ h. back h.1)
    ]

-- The price that an order is valued at, where `m` is the market of its symbol.
abbrev pub value_price : NewOrderRequest → MarketState → ℤ
value_price r m = if is_market_order r.order_type then m.reference_price_ticks else r.price_ticks

-- The limits on an order, as the market `m` of its symbol stands.
pub record IsWithinLimits (r : NewOrderRequest) (now_ns : ℤ) (m : MarketState) (g : RiskGateway)
    : Type 0 where
  pub current : pos 0 <ℤ g.limits.stale_after_ns → age_of m now_ns ≤ℤ g.limits.stale_after_ns
  pub in_band :
      is_limit r.order_type ≡ true
      → IsWithin g.limits.price_band_ticks (r.price_ticks -ℤ m.reference_price_ticks)
  pub in_notional : IsWithin g.limits.max_notional_ticks (value_price r m *ℤ r.quantity)
  pub no_self_trade : MeetsNoOwn r g
  pub in_open_quantity :
      pos 0 <ℤ g.limits.max_open_order_quantity
      → is_limit r.order_type ≡ true
      → is_gtc r.time_in_force ≡ true
      → working_quantity r.symbol_id g +ℤ r.quantity ≤ℤ g.limits.max_open_order_quantity
  pub in_position : IsWithin g.limits.max_position_per_symbol (projected_position r g)
  pub in_gross : gross_exposure_with r g ≤ℤ g.limits.max_gross_exposure_ticks

unbreached : (bound v : ℤ) → ltb_ℤ bound v ≡ false → v ≤ℤ bound
unbreached bound v h = ground arith

within_bound : (bound v : ℤ) → v ≤ℤ bound → ltb_ℤ bound v ≡ false
within_bound bound v h = ground arith

notional_for_lem :
    (r : NewOrderRequest) (m : MarketState) (g : RiskGateway)
    → find r.symbol_id g.market_state ≡ some m
    → notional_for r g ≡ abs_i64 (value_price r m *ℤ r.quantity)
unfolding notional_for price_of
notional_for_lem r m g e = rw e refl

pub market_checks-IsWithinLimits :
    (r : NewOrderRequest) (m : MarketState) (now_ns : ℤ) (g : RiskGateway)
    → find r.symbol_id g.market_state ≡ some m
    → All IsClear (market_checks r m now_ns g) ↔ IsWithinLimits r now_ns m g
unfolding market_checks
market_checks-IsWithinLimits r m now_ns g e = (there, back)
  where
    valued : notional_for r g ≡ abs_i64 (value_price r m *ℤ r.quantity)
    valued = notional_for_lem r m g e

    there : All IsClear (market_checks r m now_ns g) → IsWithinLimits r now_ns m g
    there a = record {
      current = λ h. ground arith;
      in_band = λ h.
          (abs_i64-IsWithin g.limits.price_band_ticks (r.price_ticks -ℤ m.reference_price_ticks)).0
            (ground arith);
      in_notional =
          (abs_i64-IsWithin g.limits.max_notional_ticks (value_price r m *ℤ r.quantity)).0 (
            subst (λ n. n ≤ℤ g.limits.max_notional_ticks) valued
              (unbreached g.limits.max_notional_ticks (notional_for r g) a.1.1.0));
      no_self_trade = (self_trade_check_allows-MeetsNoOwn r g).0 (ground arith);
      in_open_quantity = λ h k l. ground arith;
      in_position =
          (abs_i64-IsWithin g.limits.max_position_per_symbol (projected_position r g)).0
            (ground arith);
      in_gross = ground arith;
    }

    back : IsWithinLimits r now_ns m g → All IsClear (market_checks r m now_ns g)
    back w =
        let notional =
          (abs_i64-IsWithin g.limits.max_notional_ticks (value_price r m *ℤ r.quantity)).1
            w.in_notional in
        let own = (self_trade_check_allows-MeetsNoOwn r g).1 w.no_self_trade in
        let position =
          (abs_i64-IsWithin g.limits.max_position_per_symbol (projected_position r g)).1
            w.in_position in
        let band = λ (h : is_limit r.order_type ≡ true).
          (abs_i64-IsWithin g.limits.price_band_ticks (r.price_ticks -ℤ m.reference_price_ticks)).1
            (w.in_band h) in
        (
          ground (arith, w.current),
          (
            ground (arith, band),
            (
              within_bound g.limits.max_notional_ticks (notional_for r g)
                  (subst (λ n. n ≤ℤ g.limits.max_notional_ticks) (sym valued) notional),
              (
                ground arith,
                (ground (arith, w.in_open_quantity), (ground arith, (ground arith, tt))),
              ),
            ),
          ),
        )

-- What the gateway asks of a new order. The gross exposure is what `gross_exposure_with` sums.
pub record IsAdmissible (r : NewOrderRequest) (now_ns : ℤ) (g : RiskGateway) : Type 0 where
  pub live : g.kill_switch ≡ false
  pub online : (g.connected ≡ true) ⊎ (g.limits.disconnect_order_policy ≡ allow_new_orders)
  pub in_rate : IsInRate r now_ns g
  pub has_quantity : pos 0 <ℤ r.quantity
  pub has_price : is_limit r.order_type ≡ true → pos 0 <ℤ r.price_ticks
  pub new_id : contains r.client_order_id g.accepted_client_order_ids ≡ false
  pub small : r.quantity ≤ℤ g.limits.max_order_quantity
  pub within :
      (m : MarketState) × (find r.symbol_id g.market_state ≡ some m) × IsWithinLimits r now_ns m g

refuses_new-policy : (p : DisconnectOrderPolicy) → refuses_new p ≡ false → p ≡ allow_new_orders
refuses_new-policy reject_new_orders h = cc
refuses_new-policy allow_new_orders h = refl

connection_checks_lem :
    (g : RiskGateway)
    → All IsClear (connection_checks g)
      ↔ (g.kill_switch ≡ false)
        × ((g.connected ≡ true) ⊎ (g.limits.disconnect_order_policy ≡ allow_new_orders))
unfolding connection_checks
connection_checks_lem g = (λ h. (h.0, online h.1.0), λ h. (h.0, (ground arith, tt)))
  where
    online :
        (not g.connected && refuses_new g.limits.disconnect_order_policy) ≡ false
        → (g.connected ≡ true) ⊎ (g.limits.disconnect_order_policy ≡ allow_new_orders)
    online h = elim (Bool-cases g.connected) [
      | inl e ↦ inl e
      | inr e ↦ inr (refuses_new-policy g.limits.disconnect_order_policy (ground arith))
    ]

-- A property of every refusal, and of what follows the checks where none is breached.
pub stage_lem {ℓ} :
    (P : RiskGateway × RiskResult → Type ℓ) (cs : List Check)
    (refused : Check → RiskGateway × RiskResult) (next : RiskGateway × RiskResult)
    → ((c : Check) → P (refused c))
    → (All IsClear cs → P next)
    → P (elim (first_breach cs) as (λ _. RiskGateway × RiskResult) [
      | some c ↦ refused c
      | none ↦ next
    ])
stage_lem P cs refused next keep pass = elim (Option-cases (first_breach cs)) [
  | inl e ↦ rw e (pass ((first_breach-none cs).0 e))
  | inr (c, e) ↦ rw e (keep c)
]

-- A stretch of checks lets a request through exactly if none is breached and what follows does.
pub stage_accepted :
    (cs : List Check) (refused : Check → RiskGateway × RiskResult) (next : RiskGateway × RiskResult)
    → ((c : Check) → (refused c).1.accepted ≡ false)
    → ((elim (first_breach cs) as (λ _. RiskGateway × RiskResult) [
      | some c ↦ refused c
      | none ↦ next
    ]).1.accepted
        ≡ true)
      ↔ (All IsClear cs × (next.1.accepted ≡ true))
stage_accepted cs refused next off =
    let (clear, back) = first_breach-none cs in
    elim (Option-cases (first_breach cs)) [
      | inl e ↦ rw e (λ h. (clear e, h), λ h. h.1)
      | inr (c, e) ↦
          rw e (λ h. absurd (ground (arith, off c)), λ h. absurd (ground (arith, back h.0)))
    ]

module _ (r : NewOrderRequest) (now_ns : ℤ) (rates : List (ℕ × RateState)) (g : RiskGateway) where
  check_market-accepted : ((check_market r now_ns (with_rates rates g)).1.accepted ≡ true) ↔ (
      (m : MarketState) × (find r.symbol_id g.market_state ≡ some m) × IsWithinLimits r now_ns m g)
  unfolding check_market admit decide_request decide
  check_market-accepted = elim (Option-cases (find r.symbol_id g.market_state)) [
    | inl e ↦ rw (e, check_market) (λ h. absurd (ground arith), λ h. absurd (ground arith))
    | inr (m, e) ↦
        let g' = with_rates rates g in
        let (clear, pass) =
          stage_accepted (market_checks r m now_ns g')
            (λ c.
              decide_request r now_ns c.check_name false c.reason c.limit_value c.observed_value g')
            (admit r now_ns g') (λ c. refl) in
        let (there, back) = market_checks-IsWithinLimits r m now_ns g e in
        let same = market_checks-with_rates rates g r m now_ns in
        rw (e, check_market)
          (
            λ h. (m, refl, there (subst (All IsClear) same (clear h).0)),
            λ h.
                let one : h.0 ≡ m = cc (h.1) in
                pass (
                  subst (All IsClear) (sym same)
                      (back (subst (λ t. IsWithinLimits r now_ns t g) one h.2)),
                  refl,
                ),
          )
  ]

  -- The checks from the message rate on.
  check_request-accepted :
      (allowed : Bool) (rate : ℤ)
      → ((check_request r now_ns (with_rates rates g, allowed, rate)).1.accepted ≡ true) ↔ (
          (allowed ≡ true)
          × (pos 0 <ℤ r.quantity)
          × (is_limit r.order_type ≡ true → pos 0 <ℤ r.price_ticks)
          × (contains r.client_order_id g.accepted_client_order_ids ≡ false)
          × (r.quantity ≤ℤ g.limits.max_order_quantity)
          × ((check_market r now_ns (with_rates rates g)).1.accepted ≡ true))
  unfolding check_request decide_request decide request_checks
  check_request-accepted allowed rate =
      let g' = with_rates rates g in
      let (clear, pass) =
        stage_accepted
          (rate_check "message_rate_limit" "message_rate_limit_sliding" allowed rate g'
            ∷ request_checks r g')
          (λ c.
            decide_request r now_ns c.check_name false c.reason c.limit_value c.observed_value g')
          (check_market r now_ns g') (λ c. refl) in
      (
        λ h.
            let (a, p) = clear h in
            (ground arith, ground arith, λ k. ground arith, ground arith, ground arith, p),
        λ h. pass (
          (
            ground (arith, h.0),
            (ground (arith, h.1), (ground (arith, h.2), (h.3, (ground (arith, h.4), tt)))),
          ),
          h.5,
        ),
      )

-- The gateway accepts a new order exactly if the order is admissible.
pub check_new_order-IsAdmissible :
    (r : NewOrderRequest) (now_ns : ℤ) (g : RiskGateway)
    → ((check_new_order r now_ns g).1.accepted ≡ true) ↔ IsAdmissible r now_ns g
unfolding check_new_order decide_request decide
check_new_order-IsAdmissible r now_ns g =
    let counted = rate_limit_allows r now_ns g in
    let rates = counted.0.rate_states in
    let (clear, pass) =
      stage_accepted (connection_checks g)
        (λ c. decide_request r now_ns c.check_name false c.reason c.limit_value c.observed_value g)
        (check_request r now_ns counted) (λ c. refl) in
    let same : counted ≡ (with_rates rates g, counted.1, counted.2) =
      λ i. (rate_limit_allows-with_rates r now_ns g i, counted.1, counted.2) in
    let (requested, request) = check_request-accepted r now_ns rates g counted.1 counted.2 in
    let (marketed, market) = check_market-accepted r now_ns rates g in
    let (connected, connect) = connection_checks_lem g in
    (
      λ h.
          let (c, q) = clear h in
          let (live, online) = connected c in
          let (in_rate, has_quantity, has_price, new_id, small, m) =
            requested (subst (λ t. (check_request r now_ns t).1.accepted ≡ true) same q) in
          record {
            live = live;
            online = online;
            in_rate = (rate_limit_allows-IsInRate r now_ns g).0 in_rate;
            has_quantity = has_quantity;
            has_price = has_price;
            new_id = new_id;
            small = small;
            within = marketed m;
          },
      λ a.
          let q = request (
            (rate_limit_allows-IsInRate r now_ns g).1 a.in_rate,
            a.has_quantity,
            a.has_price,
            a.new_id,
            a.small,
            market a.within,
          ) in
          pass (
            connect (a.live, a.online),
            subst (λ t. (check_request r now_ns t).1.accepted ≡ true) (sym same) q,
          ),
    )
