-- ===== src/Book/Depth.antt =====
-- book/l2_view.hpp and `fill_l2_view`: the aggregated view of the best levels.
use asterion.Prelude.{
  ℕ, zero, suc, ◌+◌, ◌≡◌, refl, List, [], ◌∷◌, ◌++◌, map, arith, ◌==◌, leb, if◌then◌else◌, length,
  length-append, take, append-nil, append_assoc, sym,
}
use asterion.Prelude.Int.{ℤ}
use asterion.Book.PriceMap.{PriceLevel, Levels}
use asterion.Book.{OrderBook}

pub record L2Level : Type 0 where
  pub price_ticks : ℤ
  pub quantity : ℤ

pub record L2View : Type 0 where
  pub symbol_id : ℕ
  pub bids : List L2Level
  pub asks : List L2Level

abbrev pub to_l2 : ℤ × PriceLevel → L2Level
to_l2 e = record { price_ticks = e.0; quantity = e.1.total_quantity }

-- One of the two loops: it stops when the side of the view holds `depth` levels.
unfoldable pub fill_side : ℕ → List L2Level → Levels → List L2Level
fill_side depth view [] = view
fill_side depth view (e ∷ ls) =
    let rest = fill_side depth (view ++ to_l2 e ∷ []) ls in
    if leb depth (length view) then view else rest

unfoldable pub l2_view : ℕ → OrderBook → L2View
unfolding fill_side
l2_view depth b =
    if depth == 0 then record { symbol_id = b.symbol_id; bids = []; asks = [] } else record {
      symbol_id = b.symbol_id;
      bids = fill_side depth [] b.bids;
      asks = fill_side depth [] b.asks;
    }

fill_side-take :
    (n depth : ℕ) (view : List L2Level) (ls : Levels)
    → n + length view ≡ depth
    → fill_side depth view ls ≡ view ++ take n (map to_l2 ls)
unfolding fill_side
fill_side-take zero depth view [] h = sym (append-nil view)
fill_side-take (suc n) depth view [] h = sym (append-nil view)
fill_side-take zero depth view (e ∷ ls) h = ground (arith, append-nil view)
fill_side-take (suc n) depth view (e ∷ ls) h = ground (
  arith,
  length-append view (to_l2 e ∷ []),
  fill_side-take n depth (view ++ to_l2 e ∷ []) ls,
  append_assoc view (to_l2 e ∷ []) (take n (map to_l2 ls)),
)

-- The view of depth `depth` is, on each side, the best `depth` levels with their totals.
pub l2_view-take :
    (depth : ℕ) (b : OrderBook)
    → l2_view depth b ≡ record {
      symbol_id = b.symbol_id;
      bids = take depth (map to_l2 b.bids);
      asks = take depth (map to_l2 b.asks);
    }
unfolding l2_view
l2_view-take zero b = refl
l2_view-take (suc n) b =
    ground
      (arith, fill_side-take (suc n) (suc n) [] b.bids, fill_side-take (suc n) (suc n) [] b.asks)
