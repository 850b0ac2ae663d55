-- ===== src/Book/Valid.antt =====
-- The representation invariant of `OrderBook`: what `check_invariants` looks for, as a statement.
pub mod Update
use asterion.Prelude.{
  ℕ, ◌+◌, ◌≡◌, refl, Bool, true, false, Option, none, some, List, [], ◌∷◌, All, is_empty, arith,
}
use asterion.Prelude.Int.{ℤ}
use asterion.Prelude.Assoc.{find}
use asterion.Core.Types.{Side, buy, sell, is_valid_side}
use asterion.Book.Queue.{Order, is_valid_resting_order, child_sum, occurs}
use asterion.Book.PriceMap.{PriceLevel, bid_before, ask_before, occurs_levels}
use asterion.Book.PriceMap.Comparator.{bid_order, ask_order}
use asterion.Book.PriceMap.Laws.{AllLevels, IsSorted}
use asterion.Book.Places.{occurs_book, IsSortedBook}
use asterion.Book.{OrderBook, Locator, new_book, clear, deref_locator}

-- An order that may rest at a place of the book of a symbol.
pub record BelongsAt (symbol_id : ℕ) (side : Side) (p : ℤ) (o : Order) : Type 0 where
  pub resting : is_valid_resting_order o ≡ true
  pub symbol : o.symbol_id ≡ symbol_id
  pub on_side : o.side ≡ side
  pub at_price : o.price_ticks ≡ p

-- A level whose key, total and orders agree. It may be empty while an operation runs.
pub record LevelOk (symbol_id : ℕ) (side : Side) (p : ℤ) (l : PriceLevel) : Type 0 where
  pub key : l.price_ticks ≡ p
  pub total : l.total_quantity ≡ child_sum l.orders
  pub belong : All (BelongsAt symbol_id side p) l.orders

abbrev pub NonEmptyLevel : ℤ → PriceLevel → Type 0
NonEmptyLevel p l = is_empty l.orders ≡ false

pub record LevelsOk (b : OrderBook) : Type 0 where
  pub sorted : IsSortedBook b
  pub bids_ok : AllLevels (LevelOk b.symbol_id buy) b.bids
  pub asks_ok : AllLevels (LevelOk b.symbol_id sell) b.asks

abbrev pub NonEmptyLevels : OrderBook → Type 0
NonEmptyLevels b = AllLevels NonEmptyLevel b.bids × AllLevels NonEmptyLevel b.asks

-- A locator of `id` that leads to the order of that id.
pub record LeadsTo (id : ℕ) (loc : Locator) (b : OrderBook) : Type 0 where
  pub valid_side : is_valid_side loc.side ≡ true
  pub handle : loc.iterator ≡ id
  pub order : Order
  pub found : deref_locator loc b ≡ some order

-- 1 for an indexed id.
abbrev pub indexed : Option Locator → ℕ
indexed none = 0
indexed (some loc) = 1

pub record IsValid (b : OrderBook) : Type 0 where
  pub levels : LevelsOk b
  pub nonempty : NonEmptyLevels b
  pub counted : (id : ℕ) → occurs_book id b ≡ indexed (find id b.order_index)
  pub located : (id : ℕ) (loc : Locator) → find id b.order_index ≡ some loc → LeadsTo id loc b

pub new_book-IsValid : (symbol_id : ℕ) → IsValid (new_book symbol_id)
unfolding new_book occurs_book occurs_levels find
new_book-IsValid symbol_id = record {
  levels = record { sorted = (tt, tt); bids_ok = tt; asks_ok = tt };
  nonempty = (tt, tt);
  counted = λ id. refl;
  located = λ id loc e. absurd (cc e);
}

pub clear-IsValid : (b : OrderBook) → IsValid (clear b)
unfolding clear occurs_book occurs_levels find
clear-IsValid b = record {
  levels = record { sorted = (tt, tt); bids_ok = tt; asks_ok = tt };
  nonempty = (tt, tt);
  counted = λ id. refl;
  located = λ id loc e. absurd (cc e);
}

-- The index plays no part in the levels.
pub LevelsOk-order_index :
    (b : OrderBook) (m : List (ℕ × Locator)) → LevelsOk b → LevelsOk (record b { order_index = m })
LevelsOk-order_index b m v = record { sorted = v.sorted; bids_ok = v.bids_ok; asks_ok = v.asks_ok }
