-- ===== src/Book/Valid/Update.antt =====
-- Writing to one level keeps the levels in order, where what is written fits the level.
use asterion.Prelude.{◌≡◌, refl, true, false, some, is_empty, All, List, ℕ, Option-cases, inl, inr}
use asterion.Prelude.Int.{ℤ}
use asterion.Core.Types.{Side, buy, sell, is_valid_side}
use asterion.Book.PriceMap.{PriceLevel, bid_before, ask_before}
use asterion.Book.PriceMap.Comparator.{bid_order, ask_order}
use asterion.Book.PriceMap.Laws.{
  level_or_new, All-with_level, with_level-IsSorted, All-drop_level_if_empty,
  drop_level_if_empty-IsSorted, drop-with_level_nonempty, find_level_All,
}
use asterion.Book.{OrderBook, Locator, level, update_level, erase_level_if_empty}
use asterion.Book.Queue.{child_sum}
use asterion.Book.Valid.{BelongsAt, LevelOk, LevelsOk, NonEmptyLevel, NonEmptyLevels}

pub LevelOk-level :
    (s : Side) (p : ℤ) (b : OrderBook) {l : PriceLevel}
    → is_valid_side s ≡ true
    → LevelsOk b
    → level s p b ≡ some l
    → LevelOk b.symbol_id s p l
unfolding is_valid_side level
LevelOk-level buy p b h v e =
    find_level_All bid_before bid_order (LevelOk b.symbol_id buy) p b.bids v.bids_ok e
LevelOk-level sell p b h v e =
    find_level_All ask_before ask_order (LevelOk b.symbol_id sell) p b.asks v.asks_ok e
LevelOk-level Side.none p b h v e = absurd (cc h)

pub update_level-LevelsOk :
    (s : Side) (p : ℤ) (f : PriceLevel → PriceLevel) (b : OrderBook)
    → LevelOk b.symbol_id s p (f (level_or_new (level s p b)))
    → LevelsOk b
    → LevelsOk (update_level s p f b)
unfolding level update_level
update_level-LevelsOk buy p f b h v = record {
  sorted = (with_level-IsSorted bid_before bid_order p f b.bids v.sorted.0, v.sorted.1);
  bids_ok = All-with_level bid_before bid_order (LevelOk b.symbol_id buy) p f b.bids h v.bids_ok;
  asks_ok = v.asks_ok;
}
update_level-LevelsOk sell p f b h v = record {
  sorted = (v.sorted.0, with_level-IsSorted ask_before ask_order p f b.asks v.sorted.1);
  bids_ok = v.bids_ok;
  asks_ok = All-with_level ask_before ask_order (LevelOk b.symbol_id sell) p f b.asks h v.asks_ok;
}
update_level-LevelsOk Side.none p f b h v = v

pub update_level-NonEmpty :
    (s : Side) (p : ℤ) (f : PriceLevel → PriceLevel) (b : OrderBook)
    → is_empty (f (level_or_new (level s p b))).orders ≡ false
    → NonEmptyLevels b
    → NonEmptyLevels (update_level s p f b)
unfolding level update_level
update_level-NonEmpty buy p f b h v =
    (All-with_level bid_before bid_order NonEmptyLevel p f b.bids h v.0, v.1)
update_level-NonEmpty sell p f b h v =
    (v.0, All-with_level ask_before ask_order NonEmptyLevel p f b.asks h v.1)
update_level-NonEmpty Side.none p f b h v = v

pub erase_level_if_empty-LevelsOk :
    (s : Side) (p : ℤ) (b : OrderBook) → LevelsOk b → LevelsOk (erase_level_if_empty s p b)
unfolding erase_level_if_empty
erase_level_if_empty-LevelsOk buy p b v = record {
  sorted = (drop_level_if_empty-IsSorted bid_before bid_order p b.bids v.sorted.0, v.sorted.1);
  bids_ok =
      All-drop_level_if_empty bid_before bid_order (LevelOk b.symbol_id buy) p b.bids v.bids_ok;
  asks_ok = v.asks_ok;
}
erase_level_if_empty-LevelsOk sell p b v = record {
  sorted = (v.sorted.0, drop_level_if_empty-IsSorted ask_before ask_order p b.asks v.sorted.1);
  bids_ok = v.bids_ok;
  asks_ok =
      All-drop_level_if_empty ask_before ask_order (LevelOk b.symbol_id sell) p b.asks v.asks_ok;
}
erase_level_if_empty-LevelsOk Side.none p b v = v

-- Whatever is written, no empty level stays once the level is dropped if empty.
pub erase-update_level-NonEmpty :
    (s : Side) (p : ℤ) (f : PriceLevel → PriceLevel) (b : OrderBook)
    → NonEmptyLevels b
    → NonEmptyLevels (erase_level_if_empty s p (update_level s p f b))
unfolding update_level erase_level_if_empty
erase-update_level-NonEmpty buy p f b v =
    (drop-with_level_nonempty bid_before bid_order p f b.bids v.0, v.1)
erase-update_level-NonEmpty sell p f b v =
    (v.0, drop-with_level_nonempty ask_before ask_order p f b.asks v.1)
erase-update_level-NonEmpty Side.none p f b v = v

-- A looked-up level, or a new one, has the right total and only orders that belong.
pub level_or_new-ok :
    (s : Side) (p : ℤ) (b : OrderBook)
    → is_valid_side s ≡ true
    → LevelsOk b
    → let l = level_or_new (level s p b) in
      (l.total_quantity ≡ child_sum l.orders) × All (BelongsAt b.symbol_id s p) l.orders
unfolding child_sum
level_or_new-ok s p b h v = elim (Option-cases (level s p b)) [
  | inl e ↦ rw e (refl, tt)
  | inr (l, e) ↦ let ok = LevelOk-level s p b h v e in rw e (ok.total, ok.belong)
]

pub erase_level-order_index :
    (s : Side) (p : ℤ) (b : OrderBook) (m : List (ℕ × Locator))
    → erase_level_if_empty s p (record b { order_index = m })
      ≡ record (erase_level_if_empty s p b) { order_index = m }
unfolding erase_level_if_empty
erase_level-order_index buy p b m = refl
erase_level-order_index sell p b m = refl
erase_level-order_index Side.none p b m = refl

pub symbol_id-update_level :
    (s : Side) (p : ℤ) (f : PriceLevel → PriceLevel) (b : OrderBook)
    → (update_level s p f b).symbol_id ≡ b.symbol_id
unfolding update_level
symbol_id-update_level buy p f b = refl
symbol_id-update_level sell p f b = refl
symbol_id-update_level Side.none p f b = refl

pub symbol_id-erase_level :
    (s : Side) (p : ℤ) (b : OrderBook) → (erase_level_if_empty s p b).symbol_id ≡ b.symbol_id
unfolding erase_level_if_empty
symbol_id-erase_level buy p b = refl
symbol_id-erase_level sell p b = refl
symbol_id-erase_level Side.none p b = refl
