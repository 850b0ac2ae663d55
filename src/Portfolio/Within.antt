-- ===== src/Portfolio/Within.antt =====
-- A portfolio is accepted exactly if it is within every limit that is switched on.
use asterion.Prelude.{ℕ, ◌≡◌, refl, ◌↔◌, Bool, true, false, ◌&&◌, arith, All, All-mono}
use asterion.Prelude.Int.{ℤ, pos, ◌+ℤ◌, neg_ℤ, ltb_ℤ, leb_ℤ, ◌≤ℤ◌, ◌<ℤ◌}
use asterion.Portfolio.{
  PortfolioRiskLimits, Positions, SymbolPosition, abs_i64, gross_of, net_of, unrealised_of,
}
use asterion.Portfolio.Limits.{share, worst, worst-le, worst-All, is_on, evaluate, evaluate_rest}

-- A limit binds where it is switched on, that is, positive. The concentration is tested only where there
-- is any exposure.
pub record IsWithin (l : PortfolioRiskLimits) (m : Positions) (realised_pnl : ℤ) : Type 0 where
  pub gross : is_on l.max_gross_exposure_ticks ≡ true → gross_of m ≤ℤ l.max_gross_exposure_ticks
  pub net : is_on l.max_net_exposure_ticks ≡ true → abs_i64 (net_of m) ≤ℤ l.max_net_exposure_ticks
  pub concentration :
      is_on l.max_symbol_concentration_bps ≡ true
      → pos 0 <ℤ gross_of m
      → All (λ (e : ℕ × SymbolPosition). share (gross_of m) e.1 ≤ℤ l.max_symbol_concentration_bps) m
  pub loss :
      is_on l.max_loss_ticks ≡ true → neg_ℤ l.max_loss_ticks <ℤ realised_pnl +ℤ unrealised_of m

guard_off : (a b : Bool) → (a ≡ true → b ≡ false) → a && b ≡ false
guard_off true b h = h refl
guard_off false b h = refl

module _ (l : PortfolioRiskLimits) (m : Positions) (realised_pnl : ℤ) where
  abbrev bps : ℤ
  bps = (worst (gross_of m) (0, pos 0) m).1

  accepted-IsWithin : (evaluate l m realised_pnl).accepted ≡ true → IsWithin l m realised_pnl
  unfolding evaluate evaluate_rest
  accepted-IsWithin h = record {
    gross = λ on. ground arith;
    net = λ on. ground arith;
    concentration = λ on exposed.
        let low : bps ≤ℤ l.max_symbol_concentration_bps = ground arith in
        All-mono (λ (e : ℕ × SymbolPosition). share (gross_of m) e.1 ≤ℤ bps)
          (λ (e : ℕ × SymbolPosition). share (gross_of m) e.1 ≤ℤ l.max_symbol_concentration_bps) m
          (λ e le. omega arith) (worst-All (gross_of m) (0, pos 0) m);
    loss = λ on. ground arith;
  }

  IsWithin-accepted : IsWithin l m realised_pnl → (evaluate l m realised_pnl).accepted ≡ true
  unfolding evaluate evaluate_rest
  IsWithin-accepted w =
      let below_gross =
        guard_off (is_on l.max_gross_exposure_ticks) (ltb_ℤ l.max_gross_exposure_ticks (gross_of m))
          (λ on. ground (arith, w.gross on)) in
      let below_net =
        guard_off (is_on l.max_net_exposure_ticks)
          (ltb_ℤ l.max_net_exposure_ticks (abs_i64 (net_of m))) (λ on. ground (arith, w.net on)) in
      let spread =
        guard_off (is_on l.max_symbol_concentration_bps && ltb_ℤ (pos 0) (gross_of m))
          (ltb_ℤ l.max_symbol_concentration_bps bps)
          (λ both. ground (
            arith,
            worst-le (gross_of m) l.max_symbol_concentration_bps (0, pos 0) m (ground arith)
                (w.concentration (ground arith) (ground arith)),
          )) in
      let solvent =
        guard_off (is_on l.max_loss_ticks)
          (leb_ℤ (realised_pnl +ℤ unrealised_of m) (neg_ℤ l.max_loss_ticks))
          (λ on. ground (arith, w.loss on)) in
      rw (below_gross, below_net, evaluate_rest, spread, solvent) refl

-- The monitor accepts a portfolio exactly if it is within every limit that is switched on.
pub evaluate-IsWithin :
    (l : PortfolioRiskLimits) (m : Positions) (realised_pnl : ℤ)
    → ((evaluate l m realised_pnl).accepted ≡ true) ↔ IsWithin l m realised_pnl
evaluate-IsWithin l m realised_pnl =
    (accepted-IsWithin l m realised_pnl, IsWithin-accepted l m realised_pnl)
