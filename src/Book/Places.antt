-- ===== src/Book/Places.antt =====
-- The two price maps seen as one: a place is a side and a price, and an operation on a place
-- leaves every other place alone.
use asterion.Prelude.{ℕ, ◌+◌, ◌≡◌, refl, ◌≢◌, ◌⊎◌, inl, inr, true, some, arith, Bool-cases}
use asterion.Prelude.Int.{ℤ}
use asterion.Core.Types.{Side, buy, sell, is_valid_side}
use asterion.Book.Queue.{occurs}
use asterion.Book.PriceMap.{PriceLevel, bid_before, ask_before, find_level, occurs_levels}
use asterion.Book.PriceMap.Comparator.{IsStrictOrder, bid_order, ask_order}
use asterion.Book.PriceMap.Laws.{
  level_or_new, unless_empty, IsSorted, occurs-with_level, occurs-drop_level_if_empty,
  find-with_level_self, find-with_level_ne, find-drop_level_if_empty_self,
  find-drop_level_if_empty_ne,
}
use asterion.Book.{OrderBook, before_of, level, update_level, erase_level_if_empty}

pub side_order : (s : Side) → IsStrictOrder (before_of s)
side_order buy = bid_order
side_order sell = ask_order
side_order Side.none = ask_order

abbrev pub IsSortedBook : OrderBook → Type 0
IsSortedBook b = IsSorted bid_before bid_order b.bids × IsSorted ask_before ask_order b.asks

-- How often an id stands in the queues of a book.
unfoldable pub occurs_book : ℕ → OrderBook → ℕ
occurs_book id b = occurs_levels id b.bids + occurs_levels id b.asks

-- The place (t, j) is not the place (s, p).
abbrev pub Elsewhere : Side → ℤ → Side → ℤ → Type 0
Elsewhere s p t j = (s ≢ t) ⊎ ((before_of t p j ≡ true) ⊎ (before_of t j p ≡ true))

same_price : (s : Side) (p j : ℤ) → ((s ≡ s) × (p ≡ j)) ⊎ Elsewhere s p s j
same_price s p j = elim (Bool-cases (before_of s p j)) [
  | inl x ↦ inr (inr (inl x))
  | inr x ↦ elim (Bool-cases (before_of s j p)) [
    | inl y ↦ inr (inr (inr y))
    | inr y ↦ inl (refl, (side_order s).connected p j x y)
  ]
]

-- Two places are the same, or one is elsewhere.
pub place_cases : (s t : Side) (p j : ℤ) → ((s ≡ t) × (p ≡ j)) ⊎ Elsewhere s p t j
place_cases buy buy p j = same_price buy p j
place_cases sell sell p j = same_price sell p j
place_cases Side.none Side.none p j = same_price Side.none p j
place_cases buy sell p j = inr (inl (λ e. cc))
place_cases buy Side.none p j = inr (inl (λ e. cc))
place_cases sell buy p j = inr (inl (λ e. cc))
place_cases sell Side.none p j = inr (inl (λ e. cc))
place_cases Side.none buy p j = inr (inl (λ e. cc))
place_cases Side.none sell p j = inr (inl (λ e. cc))

module _ (p : ℤ) (f : PriceLevel → PriceLevel) (b : OrderBook) where
  pub level-update_level_self :
      (s : Side)
      → is_valid_side s ≡ true
      → level s p (update_level s p f b) ≡ some (f (level_or_new (level s p b)))
  unfolding is_valid_side level update_level
  level-update_level_self buy h = find-with_level_self bid_before bid_order p f b.bids
  level-update_level_self sell h = find-with_level_self ask_before ask_order p f b.asks
  level-update_level_self Side.none h = absurd (cc h)

  pub level-update_level_ne :
      (s t : Side) (j : ℤ) → Elsewhere s p t j → level t j (update_level s p f b) ≡ level t j b
  unfolding level update_level
  level-update_level_ne buy buy j (inl ne) = absurd (ne refl)
  level-update_level_ne buy buy j (inr e) = find-with_level_ne bid_before bid_order p j f b.bids e
  level-update_level_ne sell sell j (inl ne) = absurd (ne refl)
  level-update_level_ne sell sell j (inr e) = find-with_level_ne ask_before ask_order p j f b.asks e
  level-update_level_ne buy sell j _ = refl
  level-update_level_ne buy Side.none j _ = refl
  level-update_level_ne sell buy j _ = refl
  level-update_level_ne sell Side.none j _ = refl
  level-update_level_ne Side.none t j _ = refl

  pub occurs-update_level :
      (id : ℕ) (s : Side)
      → is_valid_side s ≡ true
      → let l = level_or_new (level s p b) in
        occurs_book id (update_level s p f b) + occurs id l.orders
        ≡ occurs_book id b + occurs id (f l).orders
  unfolding is_valid_side level update_level occurs_book
  occurs-update_level id buy h = omega (arith, occurs-with_level bid_before bid_order id p f b.bids)
  occurs-update_level id sell h =
      omega (arith, occurs-with_level ask_before ask_order id p f b.asks)
  occurs-update_level id Side.none h = absurd (cc h)

module _ (p : ℤ) (b : OrderBook) where
  pub occurs-erase_level_if_empty :
      (id : ℕ) (s : Side) → occurs_book id (erase_level_if_empty s p b) ≡ occurs_book id b
  unfolding erase_level_if_empty occurs_book
  occurs-erase_level_if_empty id buy =
      omega (arith, occurs-drop_level_if_empty bid_before bid_order id p b.bids)
  occurs-erase_level_if_empty id sell =
      omega (arith, occurs-drop_level_if_empty ask_before ask_order id p b.asks)
  occurs-erase_level_if_empty id Side.none = refl

  pub level-erase_self :
      (s : Side)
      → IsSortedBook b
      → level s p (erase_level_if_empty s p b) ≡ unless_empty (level s p b)
  unfolding level erase_level_if_empty find_level
  level-erase_self buy h = find-drop_level_if_empty_self bid_before bid_order p b.bids h.0
  level-erase_self sell h = find-drop_level_if_empty_self ask_before ask_order p b.asks h.1
  level-erase_self Side.none h = refl

  pub level-erase_ne :
      (s t : Side) (j : ℤ)
      → IsSortedBook b
      → Elsewhere s p t j
      → level t j (erase_level_if_empty s p b) ≡ level t j b
  unfolding level erase_level_if_empty
  level-erase_ne buy buy j h (inl ne) = absurd (ne refl)
  level-erase_ne buy buy j h (inr e) =
      find-drop_level_if_empty_ne bid_before bid_order p j b.bids h.0 e
  level-erase_ne sell sell j h (inl ne) = absurd (ne refl)
  level-erase_ne sell sell j h (inr e) =
      find-drop_level_if_empty_ne ask_before ask_order p j b.asks h.1 e
  level-erase_ne buy sell j h _ = refl
  level-erase_ne buy Side.none j h _ = refl
  level-erase_ne sell buy j h _ = refl
  level-erase_ne sell Side.none j h _ = refl
  level-erase_ne Side.none t j h _ = refl
