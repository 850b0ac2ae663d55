-- ===== src/Portfolio.antt =====
-- risk/portfolio_risk.hpp and portfolio_risk.cpp: the portfolio risk monitor, without its audit trail.
-- The `std::map` of the positions is an association list in ascending order of the symbols.
pub mod Limits
pub mod Within
pub mod Position
mod Tests
use asterion.Prelude.{
  ℕ, ◌+◌, ◌==◌, ltb, Bool, true, false, not, ◌&&◌, ◌||◌, Option, none, some, List, [], ◌∷◌,
  if◌then◌else◌,
}
use asterion.Prelude.Int.{ℤ, pos, ◌+ℤ◌, ◌-ℤ◌, ◌*ℤ◌, ◌/ℤ◌, neg_ℤ, ltb_ℤ, leb_ℤ, eqb_ℤ, min_ℤ}
use asterion.Prelude.Assoc.{find}
use asterion.Core.Types.{Side, buy, is_valid_side, eqb_side}

pub record PortfolioRiskLimits : Type 0 where
  pub max_gross_exposure_ticks : ℤ
  pub max_net_exposure_ticks : ℤ
  pub max_symbol_concentration_bps : ℤ
  pub max_loss_ticks : ℤ

pub record SymbolPosition : Type 0 where
  pub quantity : ℤ
  pub average_cost : ℤ
  pub mark : ℤ
  pub has_mark : Bool

abbrev pub Positions : Type 0
Positions = List (ℕ × SymbolPosition)

pub record PortfolioRiskMonitor : Type 0 where
  pub limits : PortfolioRiskLimits
  pub positions : Positions
  pub realised_pnl : ℤ

unfoldable pub abs_i64 : ℤ → ℤ
abs_i64 v = if ltb_ℤ v (pos 0) then neg_ℤ v else v

abbrev pub new_position : SymbolPosition
new_position = record { quantity = pos 0; average_cost = pos 0; mark = pos 0; has_mark = false }

-- `positions_[symbol_id]` and the writes through the reference.
unfoldable pub with_position : ℕ → (SymbolPosition → SymbolPosition) → Positions → Positions
with_position k f [] = (k, f new_position) ∷ []
with_position k f ((j, p) ∷ m) =
    let rest = with_position k f m in
    if ltb k j
    then (k, f new_position) ∷ (j, p) ∷ m
    else if ltb j k
    then (j, p) ∷ rest
    else (j, f p) ∷ m

unfoldable pub active : PortfolioRiskMonitor → Bool
active m =
    ltb_ℤ (pos 0) m.limits.max_gross_exposure_ticks
    || ltb_ℤ (pos 0) m.limits.max_net_exposure_ticks
    || ltb_ℤ (pos 0) m.limits.max_symbol_concentration_bps
    || ltb_ℤ (pos 0) m.limits.max_loss_ticks

unfoldable pub mark_of : SymbolPosition → ℤ
mark_of p = if p.has_mark then p.mark else p.average_cost

unfoldable pub set_mark : ℕ → ℤ → PortfolioRiskMonitor → PortfolioRiskMonitor
unfolding with_position
set_mark symbol_id mark_ticks m = record m {
  positions =
      with_position symbol_id (λ p. record p { mark = mark_ticks; has_mark = true }) m.positions;
}

unfoldable pub set_position : ℕ → ℤ → ℤ → PortfolioRiskMonitor → PortfolioRiskMonitor
unfolding with_position
set_position symbol_id signed_quantity average_cost_ticks m = record m {
  positions =
      with_position symbol_id
        (λ p. record p { quantity = signed_quantity; average_cost = average_cost_ticks })
        m.positions;
}

-- The quantity of a fill, signed by its side.
abbrev pub signed : Side → ℤ → ℤ
signed side quantity = if eqb_side side buy then quantity else neg_ℤ quantity

-- A fill on the side of the position.
unfoldable pub extend : Side → ℤ → ℤ → SymbolPosition → SymbolPosition
unfolding abs_i64
extend side quantity price p =
    let new_qty = p.quantity +ℤ signed side quantity in
    let total_cost = p.average_cost *ℤ abs_i64 p.quantity +ℤ price *ℤ quantity in
    record p {
      quantity = new_qty;
      average_cost = if eqb_ℤ new_qty (pos 0) then pos 0 else total_cost /ℤ abs_i64 new_qty;
    }

-- A fill against it, which reduces, closes or flips the position.
unfoldable pub reduce : Side → ℤ → ℤ → SymbolPosition → SymbolPosition
reduce side quantity price p =
    let new_signed = p.quantity +ℤ signed side quantity in
    record p {
      quantity = new_signed;
      average_cost =
          if eqb_ℤ new_signed (pos 0)
          then pos 0
          else if ltb_ℤ (pos 0) p.quantity && ltb_ℤ new_signed (pos 0)
              || ltb_ℤ p.quantity (pos 0) && ltb_ℤ (pos 0) new_signed
          then price
          else p.average_cost;
    }

unfoldable pub realised_by : ℤ → ℤ → SymbolPosition → ℤ
unfolding abs_i64
realised_by quantity price p =
    let closing_qty = min_ℤ quantity (abs_i64 p.quantity) in
    if ltb_ℤ (pos 0) p.quantity
    then (price -ℤ p.average_cost) *ℤ closing_qty
    else (p.average_cost -ℤ price) *ℤ closing_qty

abbrev pub is_extending : Side → ℤ → SymbolPosition → Bool
is_extending side quantity p =
    leb_ℤ (pos 0) p.quantity && ltb_ℤ (pos 0) (signed side quantity)
    || leb_ℤ p.quantity (pos 0) && ltb_ℤ (signed side quantity) (pos 0)

-- `apply_fill_to`: the position after the fill, and what is added to the realised profit.
unfoldable pub apply_fill_to : Side → ℤ → ℤ → SymbolPosition → SymbolPosition × ℤ
unfolding extend reduce realised_by is_valid_side
apply_fill_to side quantity price p =
    if leb_ℤ quantity (pos 0) || not (is_valid_side side)
    then (p, pos 0)
    else if is_extending side quantity p
    then (extend side quantity price p, pos 0)
    else (reduce side quantity price p, realised_by quantity price p)

-- The position that `operator[]` refers to.
abbrev pub position_or_new : Option SymbolPosition → SymbolPosition
position_or_new none = new_position
position_or_new (some p) = p

unfoldable pub apply_fill : ℕ → Side → ℤ → ℤ → PortfolioRiskMonitor → PortfolioRiskMonitor
unfolding with_position apply_fill_to
apply_fill symbol_id side quantity price m = record m {
  positions = with_position symbol_id (λ p. (apply_fill_to side quantity price p).0) m.positions;
  realised_pnl =
      m.realised_pnl
      +ℤ (apply_fill_to side quantity price (position_or_new (find symbol_id m.positions))).1;
}

unfoldable pub position : ℕ → PortfolioRiskMonitor → ℤ
position symbol_id m = elim (find symbol_id m.positions) [ none ↦ pos 0 | some p ↦ p.quantity ]

-- The three sums over the positions.
unfoldable pub gross_of : Positions → ℤ
unfolding abs_i64 mark_of
gross_of [] = pos 0
gross_of ((k, p) ∷ m) = abs_i64 p.quantity *ℤ mark_of p +ℤ gross_of m

unfoldable pub net_of : Positions → ℤ
unfolding mark_of
net_of [] = pos 0
net_of ((k, p) ∷ m) = p.quantity *ℤ mark_of p +ℤ net_of m

unfoldable pub unrealised_of : Positions → ℤ
unfolding mark_of
unrealised_of [] = pos 0
unrealised_of ((k, p) ∷ m) = (mark_of p -ℤ p.average_cost) *ℤ p.quantity +ℤ unrealised_of m

unfoldable pub gross_exposure_ticks : PortfolioRiskMonitor → ℤ
gross_exposure_ticks m = gross_of m.positions

unfoldable pub net_exposure_ticks : PortfolioRiskMonitor → ℤ
unfolding abs_i64
net_exposure_ticks m = abs_i64 (net_of m.positions)

unfoldable pub total_pnl_ticks : PortfolioRiskMonitor → ℤ
total_pnl_ticks m = m.realised_pnl +ℤ unrealised_of m.positions
