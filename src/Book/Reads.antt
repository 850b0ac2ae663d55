-- ===== src/Book/Reads.antt =====
-- What a locator leads to after a write to one level. The index plays no part in it.
use asterion.Prelude.{ℕ, ◌≤◌, ◌≡◌, refl, ap, true, Option, none, some, List, [], arith, ◌∙◌}
use asterion.Prelude.Int.{ℤ}
use asterion.Core.Types.{Side, buy, sell, is_valid_side}
use asterion.Book.Queue.{Order, deref, occurs}
use asterion.Book.PriceMap.{PriceLevel}
use asterion.Book.PriceMap.Laws.{level_or_new, unless_empty}
use asterion.Book.Places.{
  Elsewhere, IsSortedBook, occurs_book, level-update_level_self, level-update_level_ne,
  level-erase_self, level-erase_ne, occurs-update_level,
}
use asterion.Book.{OrderBook, Locator, level, update_level, erase_level_if_empty, deref_locator}

pub level-order_index :
    (s : Side) (p : ℤ) (b : OrderBook) (m : List (ℕ × Locator))
    → level s p (record b { order_index = m }) ≡ level s p b
unfolding level
level-order_index buy p b m = refl
level-order_index sell p b m = refl
level-order_index Side.none p b m = refl

pub deref_locator-order_index :
    (loc : Locator) (b : OrderBook) (m : List (ℕ × Locator))
    → deref_locator loc (record b { order_index = m }) ≡ deref_locator loc b
unfolding deref_locator level
deref_locator-order_index loc b m = ground (arith, level-order_index loc.side loc.price_ticks b m)

-- The orders at a place: none where there is no level.
unfoldable pub queue_at : Side → ℤ → OrderBook → List Order
queue_at s p b = (level_or_new (level s p b)).orders

pub deref_locator-queue_at :
    (loc : Locator) (b : OrderBook)
    → deref_locator loc b ≡ deref loc.iterator (queue_at loc.side loc.price_ticks b)
unfolding deref_locator queue_at deref level
deref_locator-queue_at loc b = ground arith

orders_at : Option PriceLevel → List Order
orders_at o = (level_or_new o).orders

pub queue_at-order_index :
    (s : Side) (p : ℤ) (b : OrderBook) (m : List (ℕ × Locator))
    → queue_at s p (record b { order_index = m }) ≡ queue_at s p b
unfolding queue_at orders_at
queue_at-order_index s p b m = ap orders_at (level-order_index s p b m)

module _ (p : ℤ) (f : PriceLevel → PriceLevel) (b : OrderBook) where
  pub queue_at-update_level_self :
      (s : Side)
      → is_valid_side s ≡ true
      → queue_at s p (update_level s p f b) ≡ (f (level_or_new (level s p b))).orders
  unfolding queue_at orders_at
  queue_at-update_level_self s h = ap orders_at (level-update_level_self p f b s h)

  pub queue_at-update_level_ne :
      (s t : Side) (j : ℤ)
      → Elsewhere s p t j
      → queue_at t j (update_level s p f b) ≡ queue_at t j b
  unfolding queue_at orders_at
  queue_at-update_level_ne s t j e = ap orders_at (level-update_level_ne p f b s t j e)

module _ (p : ℤ) (b : OrderBook) where
  unless_empty_orders :
      (o : Option PriceLevel) → (level_or_new (unless_empty o)).orders ≡ (level_or_new o).orders
  unless_empty_orders none = refl
  unless_empty_orders (some l) = ground arith

  -- Dropping an empty level changes no queue.
  pub queue_at-erase_self :
      (s : Side) → IsSortedBook b → queue_at s p (erase_level_if_empty s p b) ≡ queue_at s p b
  unfolding queue_at orders_at
  queue_at-erase_self s h =
      ap orders_at (level-erase_self p b s h) ∙ unless_empty_orders (level s p b)

  pub queue_at-erase_ne :
      (s t : Side) (j : ℤ)
      → IsSortedBook b
      → Elsewhere s p t j
      → queue_at t j (erase_level_if_empty s p b) ≡ queue_at t j b
  unfolding queue_at orders_at
  queue_at-erase_ne s t j h e = ap orders_at (level-erase_ne p b s t j h e)

-- One queue holds an id at most as often as the book.
pub occurs-queue_at-le :
    (id : ℕ) (s : Side) (p : ℤ) (b : OrderBook)
    → is_valid_side s ≡ true
    → occurs id (queue_at s p b) ≤ occurs_book id b
unfolding queue_at occurs
occurs-queue_at-le id s p b h =
    omega (arith, occurs-update_level p (λ l. record l { orders = [] }) b id s h)
