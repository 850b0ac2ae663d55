-- ===== src/Book.antt =====
-- book/order_book.hpp and order_book.cpp: the L3 book of one symbol.
-- `order_index_` maps an order id to its `Locator`; a locator's iterator is the id of the order
-- that it points at. Methods return the new book beside their result.
pub mod Queue
pub mod PriceMap
pub mod Places
pub mod Valid
pub mod Reads
pub mod Add
pub mod Cancel
pub mod Reduce
pub mod Replace
pub mod Best
pub mod Depth
pub mod Hash
pub mod Lookup
pub mod Effects
pub mod Front
pub mod Priority
pub mod Totals
pub mod Calls
mod Tests
use asterion.Prelude.{
  ℕ, ◌==◌, Bool, true, false, not, ◌&&◌, ◌||◌, Option, none, some, List, [], ◌∷◌, ◌++◌,
  if◌then◌else◌, length, is_empty, take, map,
}
use asterion.Prelude.Int.{ℤ, pos, ◌+ℤ◌, ◌-ℤ◌, ltb_ℤ, leb_ℤ}
use asterion.Prelude.Assoc.{find, put, erase}
use asterion.Core.Types.{Side, buy, sell}
use Queue.{Order, is_valid_resting_order, deref, erase_node, reduce_node}
use PriceMap.{
  PriceLevel, Levels, bid_before, ask_before, find_level, with_level, drop_level_if_empty,
}

pub record Locator : Type 0 where
  pub side : Side
  pub price_ticks : ℤ
  pub iterator : ℕ

pub record OrderBook : Type 0 where
  pub symbol_id : ℕ
  pub bids : Levels
  pub asks : Levels
  pub order_index : List (ℕ × Locator)

unfoldable pub new_book : ℕ → OrderBook
new_book symbol_id = record { symbol_id = symbol_id; bids = []; asks = []; order_index = [] }

unfoldable pub clear : OrderBook → OrderBook
clear b = record b { bids = []; asks = []; order_index = [] }

unfoldable pub order_count : OrderBook → ℕ
order_count b = length b.order_index

-- The container of one side. `Side::None` has none.
unfoldable pub side_levels : Side → OrderBook → Levels
side_levels buy b = b.bids
side_levels sell b = b.asks
side_levels Side.none b = []

abbrev pub before_of : Side → ℤ → ℤ → Bool
before_of buy = bid_before
before_of _ = ask_before

-- `level(side, price)`.
unfoldable pub level : Side → ℤ → OrderBook → Option PriceLevel
unfolding side_levels
level side p b = find_level (before_of side) p (side_levels side b)

-- `mutable_level(side, price)` and the writes through its result. For `Side::None` the pointer is
-- null and nothing is written.
unfoldable pub update_level : Side → ℤ → (PriceLevel → PriceLevel) → OrderBook → OrderBook
update_level buy p f b = record b { bids = with_level bid_before p f b.bids }
update_level sell p f b = record b { asks = with_level ask_before p f b.asks }
update_level Side.none p f b = b

unfoldable pub erase_level_if_empty : Side → ℤ → OrderBook → OrderBook
erase_level_if_empty buy p b = record b { bids = drop_level_if_empty bid_before p b.bids }
erase_level_if_empty sell p b = record b { asks = drop_level_if_empty ask_before p b.asks }
erase_level_if_empty Side.none p b = b

-- The writes of `add_order` to its level.
abbrev pub push_back : Order → PriceLevel → PriceLevel
push_back o l = record {
  price_ticks = o.price_ticks;
  total_quantity = l.total_quantity +ℤ o.quantity;
  orders = l.orders ++ o ∷ [];
}

-- The writes of `add_order`: to the level, and the locator in the index.
unfoldable pub place : Order → OrderBook → OrderBook
place o b = record (update_level o.side o.price_ticks (push_back o) b) {
  order_index =
      put o.order_id (record { side = o.side; price_ticks = o.price_ticks; iterator = o.order_id })
        b.order_index;
}

-- Its two guards come first; a valid side makes the null test on the level pass.
unfoldable pub add_order : Order → OrderBook → OrderBook × Bool
add_order o b =
    if not (is_valid_resting_order o) || not (o.symbol_id == b.symbol_id)
    then (b, false)
    else elim (find o.order_id b.order_index) [ some _ ↦ (b, false) | none ↦ (place o b, true) ]

-- The order that a locator's iterator points at.
unfoldable pub deref_locator : Locator → OrderBook → Option Order
unfolding level
deref_locator loc b = elim (level loc.side loc.price_ticks b) [
  | none ↦ none
  | some l ↦ deref loc.iterator l.orders
]

unfoldable pub find_order : ℕ → OrderBook → Option Order
unfolding deref_locator
find_order id b = elim (find id b.order_index) [ none ↦ none | some loc ↦ deref_locator loc b ]

-- The writes of `cancel_order` to its level; `o` is the order under the iterator.
abbrev pub unlink : Order → ℕ → PriceLevel → PriceLevel
unlink o id l = record l {
  total_quantity = l.total_quantity -ℤ o.quantity;
  orders = erase_node id l.orders;
}

-- The writes of `cancel_order`: to the level, to the index, and the empty level dropped.
unfoldable pub remove : ℕ → Locator → Order → OrderBook → OrderBook
remove id loc o b =
    erase_level_if_empty loc.side loc.price_ticks
      (record (update_level loc.side loc.price_ticks (unlink o loc.iterator) b) {
        order_index = erase id b.order_index;
      })

-- The end of `cancel_order`, once the locator is known. Reading through an iterator that points at
-- nothing would be undefined behaviour; here it refuses, and a valid book never gets there.
unfoldable pub remove_located : ℕ → Locator → OrderBook → OrderBook × Bool
unfolding deref_locator
remove_located id loc b = elim (deref_locator loc b) [
  | none ↦ (b, false)
  | some o ↦ (remove id loc o b, true)
]

unfoldable pub cancel_order : ℕ → OrderBook → OrderBook × Bool
cancel_order id b = elim (find id b.order_index) [
  | none ↦ (b, false)
  | some loc ↦ remove_located id loc b
]

-- The writes of `reduce_order` when some quantity stays.
abbrev pub shrink : ℕ → ℤ → PriceLevel → PriceLevel
shrink id q l = record l {
  total_quantity = l.total_quantity -ℤ q;
  orders = reduce_node id q l.orders;
}

unfoldable pub reduce_located : ℕ → ℤ → Locator → OrderBook → OrderBook × Bool
unfolding deref_locator
reduce_located id q loc b = elim (deref_locator loc b) [
  | none ↦ (b, false)
  | some o ↦
      if leb_ℤ o.quantity q
      then cancel_order id b
      else (update_level loc.side loc.price_ticks (shrink loc.iterator q) b, true)
]

unfoldable pub reduce_order : ℕ → ℤ → OrderBook → OrderBook × Bool
reduce_order id q b =
    if leb_ℤ q (pos 0)
    then (b, false)
    else elim (find id b.order_index) [ none ↦ (b, false) | some loc ↦ reduce_located id q loc b ]

abbrev pub replacement : Order → ℤ → ℤ → ℤ → ℕ → Order
replacement o price quantity timestamp_ns sequence_number = record o {
  price_ticks = price;
  quantity = quantity;
  timestamp_ns = timestamp_ns;
  sequence_number = sequence_number;
}

unfoldable pub replace_order : ℕ → ℤ → ℤ → ℤ → ℕ → OrderBook → OrderBook × Bool
replace_order id price quantity timestamp_ns sequence_number b =
    if leb_ℤ price (pos 0) || leb_ℤ quantity (pos 0) then (b, false) else elim (find_order id b) [
      | none ↦ (b, false)
      | some o ↦
          let (c, done) = cancel_order id b in
          if done
          then add_order (replacement o price quantity timestamp_ns sequence_number) c
          else (c, false)
    ]

abbrev pub front : Levels → Option Order
front [] = none
front ((p, l) ∷ ls) = elim l.orders [ [] ↦ none | o ∷ os ↦ some o ]

-- The first order of the best level. `front()` of an empty list would be undefined behaviour; no
-- level of a valid book is empty.
unfoldable pub best_order : Side → OrderBook → Option Order
unfolding side_levels
best_order side b = front (side_levels side b)

abbrev pub first_price : Levels → Option ℤ
first_price [] = none
first_price ((p, l) ∷ ls) = some p

unfoldable pub best_bid : OrderBook → Option ℤ
best_bid b = first_price b.bids

unfoldable pub best_ask : OrderBook → Option ℤ
best_ask b = first_price b.asks

unfoldable pub total_quantity_at : Side → ℤ → OrderBook → ℤ
unfolding level
total_quantity_at side p b = elim (level side p b) [ none ↦ pos 0 | some l ↦ l.total_quantity ]
