-- ===== src/Portfolio/Limits.antt =====
-- `evaluate`: the portfolio's limits, in a fixed order.
use asterion.Prelude.{ℕ, Bool, true, false, ◌&&◌, All, [], ◌∷◌, if◌then◌else◌, arith}
use asterion.Prelude.Int.{ℤ, pos, ◌+ℤ◌, ◌*ℤ◌, ◌/ℤ◌, neg_ℤ, ltb_ℤ, leb_ℤ, ◌≤ℤ◌}
use asterion.Core.Types.{Side}
use asterion.Portfolio.{
  PortfolioRiskLimits, PortfolioRiskMonitor, Positions, SymbolPosition, abs_i64, mark_of, gross_of,
  net_of, unrealised_of, apply_fill,
}

pub data PortfolioBreach : Type 0 where
  none gross_exposure net_exposure concentration loss : PortfolioBreach

pub record PortfolioCheckResult : Type 0 where
  pub accepted : Bool
  pub breach : PortfolioBreach
  pub symbol_id : ℕ
  pub limit_value : ℤ
  pub observed_value : ℤ

abbrev pub share : ℤ → SymbolPosition → ℤ
share gross p = abs_i64 p.quantity *ℤ mark_of p *ℤ pos 10000 /ℤ gross

-- The loop for the symbol with the largest share of the gross exposure: its id and its basis points.
unfoldable pub worst : ℤ → ℕ × ℤ → Positions → ℕ × ℤ
unfolding abs_i64 mark_of
worst gross so_far [] = so_far
worst gross so_far ((k, p) ∷ m) =
    worst gross (if ltb_ℤ so_far.1 (share gross p) then (k, share gross p) else so_far) m

abbrev pub breached : PortfolioBreach → ℕ → ℤ → ℤ → PortfolioCheckResult
breached breach symbol_id limit_value observed_value = record {
  accepted = false;
  breach = breach;
  symbol_id = symbol_id;
  limit_value = limit_value;
  observed_value = observed_value;
}

abbrev pub within_limits : PortfolioCheckResult
within_limits = record {
  accepted = true;
  breach = PortfolioBreach.none;
  symbol_id = 0;
  limit_value = pos 0;
  observed_value = pos 0;
}

abbrev pub is_on : ℤ → Bool
is_on limit = ltb_ℤ (pos 0) limit

-- The end of `evaluate`: the concentration and the loss.
unfoldable pub evaluate_rest : PortfolioRiskLimits → Positions → ℤ → ℤ → PortfolioCheckResult
unfolding worst
evaluate_rest l positions gross total_pnl =
    let top = worst gross (0, pos 0) positions in
    if is_on l.max_symbol_concentration_bps
      && ltb_ℤ (pos 0) gross
      && ltb_ℤ l.max_symbol_concentration_bps top.1
    then breached PortfolioBreach.concentration top.0 l.max_symbol_concentration_bps top.1
    else if is_on l.max_loss_ticks && leb_ℤ total_pnl (neg_ℤ l.max_loss_ticks)
    then breached PortfolioBreach.loss 0 l.max_loss_ticks (neg_ℤ total_pnl)
    else within_limits

unfoldable pub evaluate : PortfolioRiskLimits → Positions → ℤ → PortfolioCheckResult
unfolding gross_of net_of unrealised_of abs_i64 evaluate_rest
evaluate l positions realised_pnl =
    let gross = gross_of positions in
    let net = abs_i64 (net_of positions) in
    if is_on l.max_gross_exposure_ticks && ltb_ℤ l.max_gross_exposure_ticks gross
    then breached PortfolioBreach.gross_exposure 0 l.max_gross_exposure_ticks gross
    else if is_on l.max_net_exposure_ticks && ltb_ℤ l.max_net_exposure_ticks net
    then breached PortfolioBreach.net_exposure 0 l.max_net_exposure_ticks net
    else evaluate_rest l positions gross (realised_pnl +ℤ unrealised_of positions)

-- `evaluate_order`: the limits after a fill of the whole order.
unfoldable pub evaluate_order : ℕ → Side → ℤ → ℤ → PortfolioRiskMonitor → PortfolioCheckResult
unfolding apply_fill evaluate
evaluate_order symbol_id side quantity price m =
    let after = apply_fill symbol_id side quantity price m in
    evaluate m.limits after.positions after.realised_pnl

unfoldable pub evaluate_state : PortfolioRiskMonitor → PortfolioCheckResult
unfolding evaluate
evaluate_state m = evaluate m.limits m.positions m.realised_pnl

pub worst-le :
    (gross limit : ℤ) (s : ℕ × ℤ) (m : Positions)
    → s.1 ≤ℤ limit
    → All (λ (e : ℕ × SymbolPosition). share gross e.1 ≤ℤ limit) m
    → (worst gross s m).1 ≤ℤ limit
unfolding worst
worst-le gross limit s [] h a = h
worst-le gross limit s ((k, p) ∷ m) h a =
    worst-le gross limit (if ltb_ℤ s.1 (share gross p) then (k, share gross p) else s) m
      (next (ltb_ℤ s.1 (share gross p))) a.1
  where
    next : (c : Bool) → (if c then (k, share gross p) else s).1 ≤ℤ limit
    next true = a.0
    next false = h

worst-ge : (gross : ℤ) (s : ℕ × ℤ) (m : Positions) → s.1 ≤ℤ (worst gross s m).1
unfolding worst
worst-ge gross s [] = omega arith
worst-ge gross s ((k, p) ∷ m) =
    let c = ltb_ℤ s.1 (share gross p) in
    let n : ℕ × ℤ = if c then (k, share gross p) else s in ground (arith, worst-ge gross n m)

pub worst-All :
    (gross : ℤ) (s : ℕ × ℤ) (m : Positions)
    → All (λ (e : ℕ × SymbolPosition). share gross e.1 ≤ℤ (worst gross s m).1) m
unfolding worst
worst-All gross s [] = tt
worst-All gross s ((k, p) ∷ m) =
    let n : ℕ × ℤ = if ltb_ℤ s.1 (share gross p) then (k, share gross p) else s in
    (ground (arith, worst-ge gross n m), worst-All gross n m)
