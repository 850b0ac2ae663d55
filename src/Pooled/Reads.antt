-- ===== src/Pooled/Reads.antt =====
-- The reads of the pooled book.
use asterion.Prelude.{
  ℕ, Bool, ◌==◌, Option, none, some, List, [], ◌∷◌, ◌++◌, if◌then◌else◌, leb, length,
}
use asterion.Prelude.Int.{ℤ, pos}
use asterion.Core.Types.{Side, buy, sell}
use asterion.Book.Queue.{Order}
use asterion.Book.Depth.{L2Level, L2View}
use asterion.Pooled.FlatIndex
use asterion.Pooled.State.{LevelNode, PooledOrderBook, node_at}
use asterion.Pooled.{level}

unfoldable pub empty : PooledOrderBook → Bool
empty b = b.order_index.size == 0

unfoldable pub order_count : PooledOrderBook → ℕ
order_count b = b.order_index.size

-- The order at the head of the first level. A level that is listed has an order.
abbrev front_order : List LevelNode → PooledOrderBook → Option Order
front_order [] b = none
front_order (l ∷ ls) b = some (node_at b.order_nodes l.head).order

unfoldable pub best_order : Side → PooledOrderBook → Option Order
best_order buy b = front_order b.bids b
best_order sell b = front_order b.asks b
best_order Side.none b = none

abbrev first_price : List LevelNode → Option ℤ
first_price [] = none
first_price (l ∷ ls) = some l.price_ticks

unfoldable pub best_bid : PooledOrderBook → Option ℤ
best_bid b = first_price b.bids

unfoldable pub best_ask : PooledOrderBook → Option ℤ
best_ask b = first_price b.asks

unfoldable pub total_quantity_at : Side → ℤ → PooledOrderBook → ℤ
unfolding level
total_quantity_at side price b = elim (level side price b) [
  | none ↦ pos 0
  | some l ↦ l.total_quantity
]

-- One of the two loops of `fill_l2_view`.
unfoldable pub fill_levels : ℕ → List L2Level → List LevelNode → List L2Level
fill_levels depth view [] = view
fill_levels depth view (l ∷ ls) =
    let more : List L2Level =
      view ++ record { price_ticks = l.price_ticks; quantity = l.total_quantity } ∷ [] in
    let rest = fill_levels depth more ls in if leb depth (length view) then view else rest

unfoldable pub l2_view : ℕ → PooledOrderBook → L2View
unfolding fill_levels
l2_view depth b =
    if depth == 0 then record { symbol_id = b.symbol_id; bids = []; asks = [] } else record {
      symbol_id = b.symbol_id;
      bids = fill_levels depth [] b.bids;
      asks = fill_levels depth [] b.asks;
    }

-- The vectors' capacities are not modelled.
unfoldable pub reserve_order_capacity : ℕ → PooledOrderBook → PooledOrderBook
unfolding FlatIndex.reserve
reserve_order_capacity n b = record b { order_index = FlatIndex.reserve n b.order_index }
