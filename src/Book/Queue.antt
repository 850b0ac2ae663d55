-- ===== src/Book/Queue.antt =====
-- book/order.hpp, and the queue of one price level: a `std::list<Order>`, oldest first. No code
-- changes the `order_id` of a queued order, so it names the list node that an iterator points to.
pub mod Laws
use asterion.Prelude.{
  ℕ, suc, ◌+◌, ◌≤◌, ◌<◌, ◌≡◌, refl, Bool, true, false, not, ◌&&◌, Option, none, some, List, [], ◌∷◌,
  ◌++◌, arith, ◌==◌, if◌then◌else◌, All,
}
use asterion.Prelude.Int.{ℤ, pos, ◌+ℤ◌, ◌-ℤ◌, ltb_ℤ, ◌<ℤ◌}
use asterion.Core.Types.{Side, is_valid_side}

pub record Order : Type 0 where
  pub order_id : ℕ
  pub client_order_id : ℕ
  pub symbol_id : ℕ
  pub side : Side
  pub price_ticks : ℤ
  pub quantity : ℤ
  pub timestamp_ns : ℤ
  pub sequence_number : ℕ

unfoldable pub is_valid_resting_order : Order → Bool
unfolding is_valid_side
is_valid_resting_order o =
    not (o.order_id == 0)
    && not (o.symbol_id == 0)
    && is_valid_side o.side
    && ltb_ℤ (pos 0) o.price_ticks
    && ltb_ℤ (pos 0) o.quantity

-- `*iterator`; `none` for an iterator that points at no order of the queue.
unfoldable pub deref : ℕ → List Order → Option Order
deref id [] = none
deref id (o ∷ os) = if o.order_id == id then some o else deref id os

-- `orders.erase(iterator)`.
unfoldable pub erase_node : ℕ → List Order → List Order
erase_node id [] = []
erase_node id (o ∷ os) = if o.order_id == id then os else o ∷ erase_node id os

-- `order.quantity -= quantity` through the iterator.
unfoldable pub reduce_node : ℕ → ℤ → List Order → List Order
reduce_node id q [] = []
reduce_node id q (o ∷ os) =
    if o.order_id == id
    then record o { quantity = o.quantity -ℤ q } ∷ os
    else o ∷ reduce_node id q os

-- The sum of the quantities of a queue: `child_sum` in `check_invariants`.
unfoldable pub child_sum : List Order → ℤ
child_sum [] = pos 0
child_sum (o ∷ os) = o.quantity +ℤ child_sum os

-- How often an id stands in a queue.
unfoldable pub occurs : ℕ → List Order → ℕ
occurs id [] = 0
occurs id (o ∷ os) = if o.order_id == id then suc (occurs id os) else occurs id os
