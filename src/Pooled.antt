-- ===== src/Pooled.antt =====
-- book/pooled_order_book.hpp and pooled_order_book.cpp: the order book on pooled nodes.
pub mod FlatIndex
pub mod State
pub mod Sorted
pub mod Reads
pub mod Calls
pub mod Accepts
mod Tests
use asterion.Prelude.{
  ℕ, ◌==◌, Bool, true, false, not, ◌&&◌, ◌||◌, Option, none, some, List, [], ◌∷◌, ◌++◌,
  if◌then◌else◌, leb, length, is_empty, get_or, set,
}
use asterion.Prelude.Int.{ℤ, pos, ◌-ℤ◌, leb_ℤ}
use asterion.Core.Types.{Side, buy, sell}
use asterion.Book.Queue.{Order, is_valid_resting_order}
use asterion.Book.Depth.{L2Level, L2View}
use FlatIndex.{new_index, no_index, insert}
use State.{
  LevelNode, OrderNode, PooledOrderBook, level_node, node_at, mutable_bid_level, mutable_ask_level,
  find_level, erase_if_empty, acquire_node, release_node, append_order, unlink_order,
}

unfoldable pub new_book : ℕ → PooledOrderBook
new_book symbol_id = record {
  symbol_id = symbol_id;
  bids = [];
  asks = [];
  order_nodes = [];
  free_head = no_index;
  order_index = new_index;
}

unfoldable pub clear : PooledOrderBook → PooledOrderBook
unfolding FlatIndex.clear
clear b = record b {
  bids = [];
  asks = [];
  order_nodes = [];
  free_head = no_index;
  order_index = FlatIndex.clear b.order_index;
}

-- The side after the search, and the position of the level.
unfoldable pub mutable_level : Side → ℤ → PooledOrderBook → Option (PooledOrderBook × ℕ)
unfolding mutable_bid_level mutable_ask_level
mutable_level buy price b =
    let (bids, position) = mutable_bid_level price b.bids in
    some (record b { bids = bids }, position)
mutable_level sell price b =
    let (asks, position) = mutable_ask_level price b.asks in
    some (record b { asks = asks }, position)
mutable_level Side.none price b = none

unfoldable pub level : Side → ℤ → PooledOrderBook → Option LevelNode
unfolding find_level
level buy price b = find_level price b.bids
level sell price b = find_level price b.asks
level Side.none price b = none

unfoldable pub erase_level_if_empty : Side → ℤ → PooledOrderBook → PooledOrderBook
unfolding erase_if_empty
erase_level_if_empty buy price b = record b { bids = erase_if_empty price b.bids }
erase_level_if_empty sell price b = record b { asks = erase_if_empty price b.asks }
erase_level_if_empty Side.none price b = b

-- A read and a write through the pointer to a level.
abbrev pub level_at : Side → ℕ → PooledOrderBook → LevelNode
level_at buy position b = get_or b.bids position (level_node (pos 0))
level_at _ position b = get_or b.asks position (level_node (pos 0))

abbrev pub set_level : Side → ℕ → LevelNode → PooledOrderBook → PooledOrderBook
set_level buy position l b = record b { bids = set b.bids position l }
set_level _ position l b = record b { asks = set b.asks position l }

unfoldable pub append_at : Side → ℕ → ℕ → PooledOrderBook → PooledOrderBook
unfolding append_order
append_at side position index b =
    let (l, nodes) = append_order (level_at side position b) b.order_nodes index in
    set_level side position l (record b { order_nodes = nodes })

unfoldable pub unlink_at : Side → ℕ → ℕ → PooledOrderBook → PooledOrderBook
unfolding unlink_order
unlink_at side position index b =
    let (l, nodes) = unlink_order (level_at side position b) b.order_nodes index in
    set_level side position l (record b { order_nodes = nodes })

-- The end of `add_order`, once its level is known.
unfoldable pub place_node : Order → ℕ → PooledOrderBook → PooledOrderBook × Bool
unfolding acquire_node append_at unlink_at insert release_node erase_level_if_empty
place_node o position b =
    let (c, index) = acquire_node o b in
    let d = append_at o.side position index c in
    let (order_index, done) = insert o.order_id index d.order_index in
    let e = record d { order_index = order_index } in
    if done then (e, true) else (
      erase_level_if_empty o.side o.price_ticks
          (release_node index (unlink_at o.side position index e)),
      false,
    )

unfoldable pub add_order : Order → PooledOrderBook → PooledOrderBook × Bool
unfolding mutable_level place_node FlatIndex.find
add_order o b =
    if not (is_valid_resting_order o) || not (o.symbol_id == b.symbol_id)
    then (b, false)
    else elim (FlatIndex.find o.order_id b.order_index) [
      | some _ ↦ (b, false)
      | none ↦ elim (mutable_level o.side o.price_ticks b) [
        | none ↦ (b, false)
        | some (c, position) ↦ place_node o position c
      ]
    ]

abbrev pub take_quantity : Side → ℕ → ℤ → PooledOrderBook → PooledOrderBook
take_quantity side position quantity b =
    let l = level_at side position b in
    set_level side position (record l { total_quantity = l.total_quantity -ℤ quantity }) b

-- The end of `cancel_order`, once its level is known.
unfoldable pub remove_node : ℕ → ℕ → ℕ → PooledOrderBook → PooledOrderBook
unfolding unlink_at release_node erase_level_if_empty FlatIndex.erase
remove_node id index position b =
    let order = (node_at b.order_nodes index).order in
    let c =
      unlink_at order.side position index (take_quantity order.side position order.quantity b) in
    let d = record c { order_index = (FlatIndex.erase id c.order_index).0 } in
    let side = (node_at d.order_nodes index).order.side in
    let price = (node_at d.order_nodes index).order.price_ticks in
    erase_level_if_empty side price (release_node index d)

unfoldable pub cancel_order : ℕ → PooledOrderBook → PooledOrderBook × Bool
unfolding mutable_level remove_node FlatIndex.find
cancel_order id b = elim (FlatIndex.find id b.order_index) [
  | none ↦ (b, false)
  | some index ↦
      let order = (node_at b.order_nodes index).order in
      elim (mutable_level order.side order.price_ticks b) [
        | none ↦ (b, false)
        | some (c, position) ↦ (remove_node id index position c, true)
      ]
]

abbrev pub reduce_node : ℕ → ℕ → ℤ → PooledOrderBook → PooledOrderBook
reduce_node index position quantity b =
    let node = node_at b.order_nodes index in
    let order = record node.order { quantity = node.order.quantity -ℤ quantity } in
    take_quantity node.order.side position quantity
      (record b { order_nodes = set b.order_nodes index (record node { order = order }) })

unfoldable pub reduce_order : ℕ → ℤ → PooledOrderBook → PooledOrderBook × Bool
unfolding cancel_order
reduce_order id quantity b =
    if leb_ℤ quantity (pos 0) then (b, false) else elim (FlatIndex.find id b.order_index) [
      | none ↦ (b, false)
      | some index ↦
          let order = (node_at b.order_nodes index).order in
          if leb_ℤ order.quantity quantity
          then cancel_order id b
          else elim (mutable_level order.side order.price_ticks b) [
            | none ↦ (b, false)
            | some (c, position) ↦ (reduce_node index position quantity c, true)
          ]
    ]

unfoldable pub find_order : ℕ → PooledOrderBook → Option Order
unfolding FlatIndex.find
find_order id b = elim (FlatIndex.find id b.order_index) [
  | none ↦ none
  | some index ↦
      if (node_at b.order_nodes index).active
      then some (node_at b.order_nodes index).order
      else none
]

unfoldable pub replace_order : ℕ → ℤ → ℤ → ℤ → ℕ → PooledOrderBook → PooledOrderBook × Bool
unfolding find_order cancel_order add_order
replace_order id price quantity timestamp_ns sequence_number b =
    if leb_ℤ price (pos 0) || leb_ℤ quantity (pos 0) then (b, false) else elim (find_order id b) [
      | none ↦ (b, false)
      | some o ↦
          let (c, done) = cancel_order id b in
          let replaced = record o {
            price_ticks = price;
            quantity = quantity;
            timestamp_ns = timestamp_ns;
            sequence_number = sequence_number;
          } in
          if done then add_order replaced c else (c, false)
    ]
