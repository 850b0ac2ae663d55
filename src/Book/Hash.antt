-- ===== src/Book/Hash.antt =====
-- `OrderBook::checksum`: a digest of the symbol and of both sides in price and time order.
use asterion.Prelude.{ℕ, List, [], ◌∷◌, length}
use asterion.Core.Types.{Side, buy, sell, side_code}
use asterion.Core.Checksum.{fnv_offset_basis, append_u64, append_u32, append_u8, append_i64}
use asterion.Book.Queue.{Order}
use asterion.Book.PriceMap.{Levels}
use asterion.Book.{OrderBook}

unfoldable pub checksum_orders : ℕ → List Order → ℕ
unfolding append_u64 append_u32 append_i64
checksum_orders seed [] = seed
checksum_orders seed (o ∷ os) =
    let seed1 = append_u64 seed o.order_id in
    let seed2 = append_u64 seed1 o.client_order_id in
    let seed3 = append_u32 seed2 o.symbol_id in
    let seed4 = append_i64 seed3 o.quantity in
    let seed5 = append_i64 seed4 o.timestamp_ns in
    checksum_orders (append_u64 seed5 o.sequence_number) os

unfoldable pub checksum_each : ℕ → Levels → ℕ
unfolding checksum_orders
checksum_each seed [] = seed
checksum_each seed ((price, l) ∷ ls) =
    let seed1 = append_i64 seed price in
    let seed2 = append_i64 seed1 l.total_quantity in
    let seed3 = append_u64 seed2 (length l.orders) in
    checksum_each (checksum_orders seed3 l.orders) ls

unfoldable pub checksum_levels : ℕ → Side → Levels → ℕ
unfolding checksum_each append_u8 side_code
checksum_levels seed side ls =
    checksum_each (append_u64 (append_u8 seed (side_code side)) (length ls)) ls

unfoldable pub checksum : OrderBook → ℕ
unfolding checksum_levels
checksum b =
    checksum_levels (checksum_levels (append_u32 fnv_offset_basis b.symbol_id) buy b.bids) sell
      b.asks
