-- ===== src/Pooled/Tests.antt =====
-- Runs of the pooled order book and of its index, and the theorems at concrete inputs.
use asterion.Prelude.{
  ◌*◌, ◌≤◌, ℕ, replicate, get_or, set, ◌≡◌, refl, true, false, none, some, List, [], ◌∷◌, length,
  if◌then◌else◌,
}
use asterion.Prelude.Int.{pos, ◌-ℤ◌, ◌+ℤ◌}
use asterion.Core.Types.{Side, buy, sell}
use asterion.Book.Queue.{Order, is_valid_resting_order}
use asterion.Book.Depth.{L2View}
use asterion.Pooled.State.{PooledOrderBook}
use asterion.Pooled.{new_book, add_order, reduce_order, replace_order}
use asterion.Pooled.Reads.{l2_view, best_order, order_count}
use asterion.Pooled.Calls
use asterion.Pooled.Sorted.{IsBook}
use asterion.Pooled.Calls.{run-IsBook}
use asterion.Pooled.Accepts.{acceptable, add_order-accepts}
use asterion.Pooled.FlatIndex.{
  FlatOrderIndex, find, find_room, with_room, rehash, bucket, insert, erase, reserve, new_index,
  next_capacity,
}
use asterion.Pooled.FlatIndex.Load.{run-IsLoaded}
use asterion.Pooled.FlatIndex.Run.{
  Call, call_insert, call_erase, call_reserve, run, meant_all, run-find,
}

abbrev calls : List Call
calls =
    call_insert 7 70
    ∷ call_insert 0 1
    ∷ call_insert 8 80
    ∷ call_insert 7 71
    ∷ call_insert 9 90
    ∷ call_erase 8
    ∷ call_insert 10 100
    ∷ call_insert 11 110
    ∷ call_reserve 12
    ∷ []

index : FlatOrderIndex
unfolding run insert
index = run calls new_index

-- The fourth id is the fifth entry's turn for a larger table, and the erased id is gone.
index_finds :
    (find 7 index ≡ some 70)
    × (find 8 index ≡ none)
    × (find 11 index ≡ some 110)
    × (find 0 index ≡ none)
unfolding index find insert erase reserve find_room with_room rehash replicate next_capacity get_or
    bucket set
index_finds = (refl, refl, refl, refl)

index_length : length index.entries ≡ 64
unfolding index insert erase reserve find_room with_room rehash replicate next_capacity get_or
    bucket set
index_length = refl

insert_again : (insert 9 91 index).1 ≡ false
unfolding index insert erase reserve find_room with_room rehash replicate next_capacity get_or
    bucket set
insert_again = refl

erase_unknown : (erase 8 index).1 ≡ false
unfolding index insert erase reserve find_room with_room rehash replicate next_capacity get_or
    bucket set
erase_unknown = refl

run-find_example : find 10 (run calls new_index) ≡ some 100
unfolding meant_all
run-find_example = run-find calls 10

run-IsLoaded_example : (run calls new_index).size * 2 ≤ length (run calls new_index).entries
run-IsLoaded_example = run-IsLoaded calls

abbrev order_of : ℕ → Side → ℕ → ℕ → Order
order_of id side price quantity = record {
  order_id = id;
  client_order_id = 100;
  symbol_id = 7;
  side = side;
  price_ticks = pos price;
  quantity = pos quantity;
  timestamp_ns = pos 5;
  sequence_number = id;
}

-- The node of the cancelled order is used again, and its level goes when it is empty.
abbrev setup : List Calls.Call
setup =
    Calls.call_add (order_of 1 buy 99 10)
    ∷ Calls.call_add (order_of 2 sell 101 4)
    ∷ Calls.call_add (order_of 3 sell 101 6)
    ∷ Calls.call_add (order_of 4 buy 100 1)
    ∷ Calls.call_cancel 2
    ∷ Calls.call_add (order_of 5 buy 99 3)
    ∷ Calls.call_add (order_of 5 sell 110 3)
    ∷ Calls.call_reduce 1 (pos 4)
    ∷ Calls.call_replace 4 (pos 98) (pos 2) (pos 6) 9
    ∷ []

book : PooledOrderBook
unfolding Calls.run new_book
book = Calls.run setup (new_book 7)

book_view : L2View
unfolding book l2_view
book_view = l2_view 2 book

book_bids : book_view ≡ (record {
  symbol_id = 7;
  bids =
      record { price_ticks = pos 99; quantity = pos 9 }
      ∷ record { price_ticks = pos 98; quantity = pos 2 }
      ∷ [];
  asks = record { price_ticks = pos 101; quantity = pos 6 } ∷ [];
})
unfolding book_view replace_order reduce_order is_valid_resting_order find_room with_room rehash
    replicate next_capacity get_or bucket set ◌-ℤ◌ ◌+ℤ◌
book_bids = refl

book_best : best_order buy book ≡ some (record (order_of 1 buy 99 10) { quantity = pos 6 })
unfolding book best_order replace_order reduce_order is_valid_resting_order find_room with_room
    rehash replicate next_capacity get_or bucket set ◌-ℤ◌ ◌+ℤ◌
book_best = refl

book_nodes : (length book.order_nodes ≡ 4) × (order_count book ≡ 4)
unfolding book order_count replace_order reduce_order is_valid_resting_order find_room with_room
    rehash replicate next_capacity get_or bucket set ◌-ℤ◌ ◌+ℤ◌
book_nodes = (refl, refl)

run-IsBook_example : IsBook (Calls.run setup (new_book 7))
run-IsBook_example = run-IsBook 7 setup

add_order-accepts_example : add_order (order_of 6 sell 100 1) (Calls.run setup (new_book 7)) ≡ (
    if acceptable (order_of 6 sell 100 1) (Calls.run setup (new_book 7))
    then ((add_order (order_of 6 sell 100 1) (Calls.run setup (new_book 7))).0, true)
    else (Calls.run setup (new_book 7), false))
add_order-accepts_example =
    add_order-accepts (order_of 6 sell 100 1) (Calls.run setup (new_book 7)) run-IsBook_example
