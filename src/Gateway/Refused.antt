-- ===== src/Gateway/Refused.antt =====
-- A refused request leaves the gateway as it was, but for the message rates and the audit trail.
use asterion.Prelude.{
  ℕ, ◌≡◌, sym, subst, inl, inr, refl, Bool, false, List, Bool-cases, Option-cases,
}
use asterion.Prelude.Text.{Text}
use asterion.Prelude.Int.{ℤ}
use asterion.Prelude.Assoc.{find}
use asterion.Core.Types.{Side}
use asterion.Matching.Report.{RejectReason}
use asterion.Matching.Admit.{NewOrderRequest, ReplaceOrderRequest}
use asterion.Gateway.Rate.{rate_limit_allows}
use asterion.Gateway.{RiskGateway, RiskResult, RateState, WorkingOrder, decide, decide_request}
use asterion.Gateway.Admit.{
  connection_checks, market_checks, check_market, check_request, check_new_order, admit,
}
use asterion.Gateway.Replace.{
  replace_checks, replace_market_checks, replacement, replace_working, check_replace_market,
  check_replacement, working_by_exchange, check_replace_order,
}
use asterion.Gateway.Admit.Limits.{stage_lem}
use asterion.Gateway.Admit.Counted.{with_rates, rate_limit_allows-with_rates}

-- Two gateways that differ in nothing but the message rates and the audit trail.
abbrev pub Matches : RiskGateway → RiskGateway → Type 0
Matches g h = h ≡ record g { rate_states = h.rate_states; audit = h.audit }

-- A refusal matches the gateway that was asked.
abbrev pub RefusalMatches : RiskGateway → RiskGateway × RiskResult → Type 0
RefusalMatches g p = p.1.accepted ≡ false → Matches g p.0

decide-Matches :
    (now_ns : ℤ) (id symbol_id : ℕ) (side : Side) (name : Text) (accepted : Bool)
    (reason : RejectReason) (limit_value observed_value : ℤ) (rates : List (ℕ × RateState))
    (g : RiskGateway)
    → Matches g
        (decide now_ns id symbol_id side name accepted reason limit_value observed_value
          (with_rates rates g)).0
unfolding decide
decide-Matches now_ns id symbol_id side name accepted reason l v rates g =
    elim (Bool-cases g.record_audit) [ inl e ↦ rw e refl | inr e ↦ rw e refl ]

module _ (r : NewOrderRequest) (now_ns : ℤ) (g : RiskGateway) where
  check_market-RefusalMatches :
      (rates : List (ℕ × RateState)) → RefusalMatches g (check_market r now_ns (with_rates rates g))
  unfolding check_market decide_request admit decide
  check_market-RefusalMatches rates = elim (Option-cases (find r.symbol_id g.market_state)) [
    | inl e ↦ rw (e, check_market) (λ _. decide-Matches now_ns _ _ _ _ _ _ _ _ rates g)
    | inr (m, e) ↦
        rw (e, check_market)
          (stage_lem (RefusalMatches g) (market_checks r m now_ns (with_rates rates g)) _ _
            (λ c _. decide-Matches now_ns _ _ _ _ _ _ _ _ rates g) (λ _ h. cc))
  ]

  check_request-RefusalMatches :
      (rates : List (ℕ × RateState)) (allowed : Bool) (rate : ℤ)
      → RefusalMatches g (check_request r now_ns (with_rates rates g, allowed, rate))
  unfolding check_request decide_request
  check_request-RefusalMatches rates allowed rate =
      stage_lem (RefusalMatches g) _ _ _ (λ c _. decide-Matches now_ns _ _ _ _ _ _ _ _ rates g)
        (λ _. check_market-RefusalMatches rates)

  -- A refused new order changes nothing else.
  pub check_new_order-RefusalMatches : RefusalMatches g (check_new_order r now_ns g)
  unfolding check_new_order decide_request
  check_new_order-RefusalMatches =
      let counted = rate_limit_allows r now_ns g in
      let same : (with_rates counted.0.rate_states g, counted.1, counted.2) ≡ counted =
        λ i. (sym (rate_limit_allows-with_rates r now_ns g) i, counted.1, counted.2) in
      stage_lem (RefusalMatches g) _ _ _
        (λ c _. decide-Matches now_ns _ _ _ _ _ _ _ _ g.rate_states g)
        (λ _.
          subst (λ t. RefusalMatches g (check_request r now_ns t)) same
            (check_request-RefusalMatches counted.0.rate_states counted.1 counted.2))

module _ (r : ReplaceOrderRequest) (now_ns : ℤ) (g : RiskGateway) where
  module _ (key : ℕ) (o : WorkingOrder) (rates : List (ℕ × RateState)) where
    check_replace_market-RefusalMatches :
        RefusalMatches g (check_replace_market r key o now_ns (with_rates rates g))
    unfolding check_replace_market decide_request replace_working decide
    check_replace_market-RefusalMatches = elim (Option-cases (find o.symbol_id g.market_state)) [
      | inl e ↦ rw (e, check_replace_market) (λ _. decide-Matches now_ns _ _ _ _ _ _ _ _ rates g)
      | inr (m, e) ↦
          rw (e, check_replace_market)
            (stage_lem (RefusalMatches g) (replace_market_checks r o m now_ns (with_rates rates g))
              _ _ (λ c _. decide-Matches now_ns _ _ _ _ _ _ _ _ rates g) (λ _ h. cc))
    ]

    check_replacement-RefusalMatches :
        (allowed : Bool) (rate : ℤ)
        → RefusalMatches g (check_replacement r key o now_ns (with_rates rates g, allowed, rate))
    unfolding check_replacement decide_request
    check_replacement-RefusalMatches allowed rate =
        stage_lem (RefusalMatches g) _ _ _ (λ c _. decide-Matches now_ns _ _ _ _ _ _ _ _ rates g)
          (λ _. check_replace_market-RefusalMatches)

  -- A refused replacement changes nothing else.
  pub check_replace_order-RefusalMatches : RefusalMatches g (check_replace_order r now_ns g)
  unfolding check_replace_order
  check_replace_order-RefusalMatches =
      stage_lem (RefusalMatches g) (connection_checks g) _ _
        (λ c _. decide-Matches now_ns _ _ _ _ _ _ _ _ g.rate_states g)
        (λ _.
          stage_lem (RefusalMatches g) (replace_checks r g) _ _
            (λ c _. decide-Matches now_ns _ _ _ _ _ _ _ _ g.rate_states g)
            (λ _. elim (Option-cases (working_by_exchange r.exchange_order_id g)) [
              | inl e ↦ rw e (λ _. decide-Matches now_ns _ _ _ _ _ _ _ _ g.rate_states g)
              | inr (f, e) ↦
                  let n = replacement r f.1 in
                  let counted = rate_limit_allows n now_ns g in
                  let same : (with_rates counted.0.rate_states g, counted.1, counted.2) ≡ counted =
                    λ i. (sym (rate_limit_allows-with_rates n now_ns g) i, counted.1, counted.2) in
                  rw e (
                    subst (λ t. RefusalMatches g (check_replacement r f.0 f.1 now_ns t)) same
                      (check_replacement-RefusalMatches f.0 f.1 counted.0.rate_states counted.1
                        counted.2))
            ]))

-- A refused new order leaves everything but the message rates and the audit trail as it was.
pub check_new_order_refused :
    (r : NewOrderRequest) (now_ns : ℤ) (g : RiskGateway)
    → (check_new_order r now_ns g).1.accepted ≡ false
    → Matches g (check_new_order r now_ns g).0
check_new_order_refused r now_ns g = check_new_order-RefusalMatches r now_ns g
