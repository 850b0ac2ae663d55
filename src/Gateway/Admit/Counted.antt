-- ===== src/Gateway/Admit/Counted.antt =====
-- Counting a message changes the rate states of the gateway, which no other check reads.
use asterion.Prelude.{inl, inr, ℕ, ◌≡◌, refl, ◌||◌, List, [], ◌∷◌, Bool-cases, ◌==◌}
use asterion.Prelude.Int.{ℤ, pos, leb_ℤ}
use asterion.Matching.Admit.{NewOrderRequest}
use asterion.Gateway.Rate.{rate_limit_allows}
use asterion.Gateway.{RiskGateway, RateState, MarketState, position, working_quantity}
use asterion.Gateway.Admit.{
  market_checks, exposure_of, notional_for, price_of, gross_exposure_with, self_trade_check_allows,
}

abbrev pub with_rates : List (ℕ × RateState) → RiskGateway → RiskGateway
with_rates rates g = record g { rate_states = rates }

pub rate_limit_allows-with_rates :
    (r : NewOrderRequest) (now_ns : ℤ) (g : RiskGateway)
    → (rate_limit_allows r now_ns g).0 ≡ with_rates (rate_limit_allows r now_ns g).0.rate_states g
unfolding rate_limit_allows
rate_limit_allows-with_rates r now_ns g =
    elim (Bool-cases
      ((g.limits.max_messages_per_window == 0) || leb_ℤ g.limits.rate_window_ns (pos 0))) [
        | inl e ↦ rw e refl
        | inr e ↦ rw e refl
      ]

module _ (rates : List (ℕ × RateState)) (g : RiskGateway) where
  exposure_of-with_rates :
      (ps : List (ℕ × ℤ)) → exposure_of ps (with_rates rates g) ≡ exposure_of ps g
  unfolding exposure_of
  exposure_of-with_rates [] = refl
  exposure_of-with_rates ((k, v) ∷ ps) = rw (exposure_of-with_rates ps) refl

  pub gross_exposure_with-with_rates :
      (r : NewOrderRequest) → gross_exposure_with r (with_rates rates g) ≡ gross_exposure_with r g
  unfolding gross_exposure_with notional_for price_of
  gross_exposure_with-with_rates r = rw (exposure_of-with_rates g.positions) refl

  pub market_checks-with_rates :
      (r : NewOrderRequest) (m : MarketState) (now_ns : ℤ)
      → market_checks r m now_ns (with_rates rates g) ≡ market_checks r m now_ns g
  unfolding market_checks notional_for price_of self_trade_check_allows working_quantity position
  market_checks-with_rates r m now_ns = rw (gross_exposure_with-with_rates r) refl
