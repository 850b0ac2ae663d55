-- ===== src/Portfolio/Tests.antt =====
-- A portfolio of two symbols, and the monitor's theorems at it.
use asterion.Prelude.{◌≡◌, ◌↔◌, true, false, [], ◌∷◌, arith, if◌then◌else◌, ◌==◌, ◌&&◌}
use asterion.Prelude.Int.{pos, negsuc, ◌+ℤ◌, ltb_ℤ}
use asterion.Core.Types.{buy, is_valid_side}
use asterion.Portfolio.{
  Positions, PortfolioRiskLimits, PortfolioRiskMonitor, apply_fill, position, signed,
}
use asterion.Portfolio.Limits.{evaluate}
use asterion.Portfolio.Within.{IsWithin, evaluate-IsWithin}
use asterion.Portfolio.Position.{position-apply_fill}

abbrev limits : PortfolioRiskLimits
limits = record {
  max_gross_exposure_ticks = pos 5000;
  max_net_exposure_ticks = pos 2000;
  max_symbol_concentration_bps = pos 6000;
  max_loss_ticks = pos 100;
}

abbrev positions : Positions
positions =
    (3, record { quantity = pos 10; average_cost = pos 90; mark = pos 100; has_mark = true })
    ∷ (7, record { quantity = negsuc 11; average_cost = pos 80; mark = pos 0; has_mark = false })
    ∷ []

abbrev monitor : PortfolioRiskMonitor
monitor = record { limits = limits; positions = positions; realised_pnl = pos 0 }

evaluate-IsWithin_example :
    ((evaluate limits positions (pos 0)).accepted ≡ true) ↔ IsWithin limits positions (pos 0)
evaluate-IsWithin_example = evaluate-IsWithin limits positions (pos 0)

position-apply_fill_example : position 7 (apply_fill 7 buy (pos 20) (pos 85) monitor) ≡ (
    if (7 == 7) && (is_valid_side buy && ltb_ℤ (pos 0) (pos 20))
    then position 7 monitor +ℤ signed buy (pos 20)
    else position 7 monitor)
position-apply_fill_example =
    position-apply_fill 7 buy (pos 20) (pos 85) monitor 7 ((omega arith, tt), (tt, tt))
