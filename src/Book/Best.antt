-- ===== src/Book/Best.antt =====
-- The top of the book: `best_bid`, `best_ask` and `best_order` against all queues of a side.
use asterion.Prelude.{◌≡◌, ◌≢◌, refl, Bool, false, Option, none, some, List, [], ◌∷◌, arith}
use asterion.Prelude.Int.{ℤ}
use asterion.Core.Types.{buy, sell}
use asterion.Book.Queue.{Order}
use asterion.Book.PriceMap.{Levels, bid_before, ask_before, find_level}
use asterion.Book.PriceMap.Comparator.{IsStrictOrder, bid_order, ask_order}
use asterion.Book.PriceMap.Laws.{level_or_new, AllLevels}
use asterion.Book.Valid.{IsValid, NonEmptyLevel}
use asterion.Book.Reads.{queue_at}
use asterion.Book.{OrderBook, level, front, first_price, best_order, best_bid, best_ask}

-- The first order of a queue.
abbrev pub first : List Order → Option Order
first [] = none
first (o ∷ os) = some o

-- What the top of one side must be, given its queues by price: `before` says which price is better.
abbrev pub IsTop : (ℤ → ℤ → Bool) → (ℤ → List Order) → Option ℤ → Option Order → Type 0
IsTop before queue none o = (o ≡ none) × ((j : ℤ) → queue j ≡ [])
IsTop before queue (some p) o =
    (queue p ≢ []) × (o ≡ first (queue p)) × ((j : ℤ) → queue j ≢ [] → before j p ≡ false)

module _ (before : ℤ → ℤ → Bool) (ord : IsStrictOrder before) where
  abbrev queues : Levels → ℤ → List Order
  queues ls p = (level_or_new (find_level before p ls)).orders

  pub levels-IsTop :
      (ls : Levels)
      → AllLevels NonEmptyLevel ls
      → IsTop before (queues ls) (first_price ls) (front ls)
  unfolding find_level
  levels-IsTop [] a = (refl, λ j. refl)
  levels-IsTop ((p, l) ∷ ls) a = (
    ground (arith, ord.irrefl p, a.0),
    ground (arith, ord.irrefl p),
    λ j some_there. ground arith,
  )

-- On a valid book `best_bid` is the highest price at which a bid rests, or nothing if there is no
-- bid, and the best order is the oldest there; `best_ask` is the lowest price of an ask.
pub best_price_time :
    (b : OrderBook)
    → IsValid b
    → IsTop bid_before (λ p. queue_at buy p b) (best_bid b) (best_order buy b)
      × IsTop ask_before (λ p. queue_at sell p b) (best_ask b) (best_order sell b)
unfolding queue_at level best_bid best_ask best_order
best_price_time b v = (
  levels-IsTop bid_before bid_order b.bids v.nonempty.0,
  levels-IsTop ask_before ask_order b.asks v.nonempty.1,
)
