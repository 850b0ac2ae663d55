-- ===== src/Book/Tests.antt =====
-- A small book, built by calls, and the book's theorems at it.
use asterion.Prelude.{some, ℕ, ◌≡◌, refl, true, false, List, [], ◌∷◌, ◌++◌, map, take, arith}
use asterion.Prelude.Int.{ℤ, pos, ◌+ℤ◌}
use asterion.Prelude.Assoc.{find, put}
use asterion.Core.Types.{Side, buy, sell, is_valid_side}
use asterion.Core.Checksum.{checksum_append, fnv1a_append, checksum_append-little_endian}
use asterion.Book.Queue.{Order, erase_node, is_valid_resting_order, deref}
use asterion.Book.PriceMap.{bid_before, ask_before, find_level, with_level}
use asterion.Book.Valid.{IsValid, new_book-IsValid}
use asterion.Book.Reads.{queue_at}
use asterion.Book.Best.{IsTop, best_price_time}
use asterion.Book.Depth.{l2_view, l2_view-take, to_l2}
use asterion.Book.Priority.{add_order-queue_at, cancel_order-queue_at, replace_order-queue_at}
use asterion.Book.Places.{Elsewhere}
use asterion.Book.Totals.{total_quantity_at-add_order}
use asterion.Book.{
  OrderBook, new_book, find_order, add_order, cancel_order, replace_order, replacement, best_bid,
  best_ask, best_order, total_quantity_at, place, update_level, reduce_order, reduce_located,
  deref_locator, level, side_levels,
}
use asterion.Book.Calls.{Call, add, reduce, replace, step, run, registry_run}
use asterion.Book.Calls.Refine.{run_refines, step-IsValid, view_run, registry_of}

abbrev order_of : ℕ → Side → ℕ → ℕ → Order
order_of id side price quantity = record {
  order_id = id;
  client_order_id = 100;
  symbol_id = 7;
  side = side;
  price_ticks = pos price;
  quantity = pos quantity;
  timestamp_ns = pos 5;
  sequence_number = id;
}

abbrev setup : List Call
setup =
    add (order_of 1 buy 99 10)
    ∷ add (order_of 2 sell 101 4)
    ∷ add (order_of 3 sell 101 6)
    ∷ add (order_of 4 sell 103 1)
    ∷ add (order_of 3 buy 90 6)
    ∷ reduce 1 (pos 3)
    ∷ []

abbrev small_book : OrderBook
small_book = (run setup (new_book 7)).0

small_book-IsValid : IsValid small_book
small_book-IsValid = (run_refines setup (new_book 7) (new_book-IsValid 7)).1

setup_results : (run setup (new_book 7)).1 ≡ true ∷ true ∷ true ∷ true ∷ false ∷ true ∷ []
unfolding run step new_book add_order reduce_order is_valid_resting_order place update_level find
    put with_level reduce_located deref_locator level find_level deref side_levels is_valid_side
setup_results = refl

run_refines_example :
    (view_run (run setup (new_book 7)) ≡ registry_run 7 setup (registry_of (new_book 7)))
    × IsValid (run setup (new_book 7)).0
unfolding new_book
run_refines_example = run_refines setup (new_book 7) (new_book-IsValid 7)

step-IsValid_example : IsValid (step (replace 2 (pos 99) (pos 5) (pos 8) 9) small_book).0
step-IsValid_example =
    step-IsValid (replace 2 (pos 99) (pos 5) (pos 8) 9) small_book small_book-IsValid

best_price_time_example :
    IsTop bid_before
      (λ p. queue_at buy p small_book)
      (best_bid small_book)
      (best_order buy small_book)
    × IsTop ask_before
        (λ p. queue_at sell p small_book)
        (best_ask small_book)
        (best_order sell small_book)
best_price_time_example = best_price_time small_book small_book-IsValid

l2_view-take_example : l2_view 1 small_book ≡ record {
  symbol_id = small_book.symbol_id;
  bids = take 1 (map to_l2 small_book.bids);
  asks = take 1 (map to_l2 small_book.asks);
}
l2_view-take_example = l2_view-take 1 small_book

add_order-queue_at_example :
    (queue_at sell (pos 101) (add_order (order_of 8 sell 101 2) small_book).0
      ≡ queue_at sell (pos 101) small_book ++ order_of 8 sell 101 2 ∷ [])
    × ((t : Side) (j : ℤ)
        → Elsewhere sell (pos 101) t j
        → queue_at t j (add_order (order_of 8 sell 101 2) small_book).0 ≡ queue_at t j small_book)
unfolding run step new_book add_order reduce_order is_valid_resting_order place update_level find
    put with_level reduce_located deref_locator level find_level deref side_levels is_valid_side
add_order-queue_at_example = add_order-queue_at (order_of 8 sell 101 2) small_book refl

cancel_order-queue_at_example :
    ((cancel_order 2 small_book).1 ≡ true)
    × (deref 2 (queue_at sell (pos 101) small_book) ≡ some (order_of 2 sell 101 4))
    × (queue_at sell (pos 101) (cancel_order 2 small_book).0
        ≡ erase_node 2 (queue_at sell (pos 101) small_book))
    × ((t : Side) (j : ℤ)
        → Elsewhere sell (pos 101) t j
        → queue_at t j (cancel_order 2 small_book).0 ≡ queue_at t j small_book)
unfolding run step new_book add_order reduce_order is_valid_resting_order place update_level find
    put with_level reduce_located deref_locator level find_level deref side_levels is_valid_side
    find_order
cancel_order-queue_at_example =
    cancel_order-queue_at 2 (order_of 2 sell 101 4) small_book small_book-IsValid refl

total_quantity_at-add_order_example :
    let c = (add_order (order_of 8 sell 101 2) small_book).0 in
    (total_quantity_at sell (pos 101) c ≡ total_quantity_at sell (pos 101) small_book +ℤ pos 2)
    × ((t : Side) (j : ℤ)
        → is_valid_side t ≡ true
        → Elsewhere sell (pos 101) t j
        → total_quantity_at t j c ≡ total_quantity_at t j small_book)
    × ((t : Side) (j : ℤ)
        → is_valid_side t ≡ true
        → total_quantity_at t j (cancel_order 8 c).0 ≡ total_quantity_at t j small_book)
unfolding run step new_book add_order reduce_order is_valid_resting_order place update_level find
    put with_level reduce_located deref_locator level find_level deref side_levels is_valid_side
total_quantity_at-add_order_example =
    total_quantity_at-add_order (order_of 8 sell 101 2) small_book small_book-IsValid refl

replace_order-queue_at_example :
    queue_at sell (pos 101) (replace_order 2 (pos 101) (pos 9) (pos 6) 9 small_book).0
    ≡ erase_node 2 (queue_at sell (pos 101) small_book)
      ++ replacement (order_of 2 sell 101 4) (pos 101) (pos 9) (pos 6) 9 ∷ []
unfolding run step new_book add_order reduce_order is_valid_resting_order place update_level find
    put with_level reduce_located deref_locator level find_level deref side_levels is_valid_side
    find_order
replace_order-queue_at_example =
    replace_order-queue_at 2 (order_of 2 sell 101 4) (pos 9) (pos 6) 9 small_book small_book-IsValid
      refl refl

checksum_append-little_endian_example :
    checksum_append 4 9 70000 ≡ fnv1a_append 9 (112 ∷ 17 ∷ 1 ∷ 0 ∷ [])
checksum_append-little_endian_example =
    checksum_append-little_endian (112 ∷ 17 ∷ 1 ∷ 0 ∷ []) 9
      (omega arith, (omega arith, (omega arith, (omega arith, tt))))
