-- ===== src/Book/PriceMap.antt =====
-- book/price_level.hpp and the two `std::map`s of `OrderBook`: association lists kept in the order
-- of the map's comparator, best price first.
pub mod Comparator
pub mod Laws
use asterion.Prelude.{
  ℕ, ◌+◌, ◌≡◌, refl, Bool, true, false, Option, none, some, List, [], ◌∷◌, ◌++◌, arith,
  if◌then◌else◌, is_empty,
}
use asterion.Prelude.Int.{ℤ, pos, ltb_ℤ}
use asterion.Book.Queue.{Order, occurs}

pub record PriceLevel : Type 0 where
  pub price_ticks : ℤ
  pub total_quantity : ℤ
  pub orders : List Order

-- What `try_emplace` makes where the key is new.
abbrev pub new_level : PriceLevel
new_level = record { price_ticks = pos 0; total_quantity = pos 0; orders = [] }

abbrev pub Levels : Type 0
Levels = List (ℤ × PriceLevel)

-- The comparators: `std::greater<>` for the bids, `std::less<>` for the asks.
abbrev pub bid_before : ℤ → ℤ → Bool
bid_before a b = ltb_ℤ b a

abbrev pub ask_before : ℤ → ℤ → Bool
ask_before a b = ltb_ℤ a b

module _ (before : ℤ → ℤ → Bool) where
  -- `levels.find(price)`.
  unfoldable pub find_level : ℤ → Levels → Option PriceLevel
  find_level p [] = none
  find_level p ((q, l) ∷ ls) =
      if before p q then none else if before q p then find_level p ls else some l

  -- `try_emplace(price)`, then the writes `f` through the reference that it returns.
  unfoldable pub with_level : ℤ → (PriceLevel → PriceLevel) → Levels → Levels
  with_level p f [] = (p, f new_level) ∷ []
  with_level p f ((q, l) ∷ ls) =
      let rest = with_level p f ls in
      if before p q
      then (p, f new_level) ∷ (q, l) ∷ ls
      else if before q p
      then (q, l) ∷ rest
      else (q, f l) ∷ ls

  -- `find(price)`, then `erase` if the level has no orders.
  unfoldable pub drop_level_if_empty : ℤ → Levels → Levels
  drop_level_if_empty p [] = []
  drop_level_if_empty p ((q, l) ∷ ls) =
      let rest = drop_level_if_empty p ls in
      if before p q
      then (q, l) ∷ ls
      else if before q p
      then (q, l) ∷ rest
      else if is_empty l.orders
      then ls
      else (q, l) ∷ ls

-- How often an id stands in the queues of one side.
unfoldable pub occurs_levels : ℕ → Levels → ℕ
occurs_levels id [] = 0
occurs_levels id ((q, l) ∷ ls) = occurs id l.orders + occurs_levels id ls
