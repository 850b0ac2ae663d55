-- ===== src/Pooled/Calls.antt =====
-- Every sequence of calls on the pooled book.
use asterion.Prelude.{ℕ, refl, List, [], ◌∷◌}
use asterion.Prelude.Int.{ℤ}
use asterion.Book.Queue.{Order}
use asterion.Pooled.FlatIndex.Run.{new_index_lem, clear_lem, reserve-IsIndex}
use asterion.Pooled.State.{PooledOrderBook}
use asterion.Pooled.{new_book, clear, add_order, cancel_order, reduce_order, replace_order}
use asterion.Pooled.Reads.{reserve_order_capacity}
use asterion.Pooled.Sorted.{
  IsBook, same_levels, add_order-IsBook, cancel_order-IsBook, reduce_order-IsBook,
  replace_order-IsBook,
}

pub data Call : Type 0 where
  call_add : Order → Call
  call_cancel : ℕ → Call
  call_reduce : ℕ → ℤ → Call
  call_replace : ℕ → ℤ → ℤ → ℤ → ℕ → Call
  call_reserve : ℕ → Call
  call_clear : Call

abbrev pub after : Call → PooledOrderBook → PooledOrderBook
after (call_add order) b = (add_order order b).0
after (call_cancel order_id) b = (cancel_order order_id b).0
after (call_reduce order_id quantity) b = (reduce_order order_id quantity b).0
after (call_replace order_id price quantity timestamp_ns sequence_number) b =
    (replace_order order_id price quantity timestamp_ns sequence_number b).0
after (call_reserve order_count) b = reserve_order_capacity order_count b
after call_clear b = clear b

unfoldable pub run : List Call → PooledOrderBook → PooledOrderBook
run [] b = b
run (c ∷ cs) b = run cs (after c b)

new_book-IsBook : (symbol_id : ℕ) → IsBook (new_book symbol_id)
unfolding new_book
new_book-IsBook symbol_id = record { bids_sorted = tt; asks_sorted = tt; indexed = new_index_lem.0 }

clear-IsBook : (b : PooledOrderBook) → IsBook (clear b)
unfolding clear
clear-IsBook b = record {
  bids_sorted = tt;
  asks_sorted = tt;
  indexed = (clear_lem b.order_index).0;
}

reserve-IsBook : (n : ℕ) (b : PooledOrderBook) → IsBook b → IsBook (reserve_order_capacity n b)
unfolding reserve_order_capacity
reserve-IsBook n b w =
    same_levels b (record b { order_index = _ }) refl refl
      (reserve-IsIndex n b.order_index w.indexed) w

after-IsBook : (c : Call) (b : PooledOrderBook) → IsBook b → IsBook (after c b)
after-IsBook (call_add o) b w = add_order-IsBook o b w
after-IsBook (call_cancel id) b w = cancel_order-IsBook id b w
after-IsBook (call_reduce id q) b w = reduce_order-IsBook id q b w
after-IsBook (call_replace id p q t s) b w = replace_order-IsBook id p q t s b w
after-IsBook (call_reserve n) b w = reserve-IsBook n b w
after-IsBook call_clear b w = clear-IsBook b

calls-IsBook : (cs : List Call) (b : PooledOrderBook) → IsBook b → IsBook (run cs b)
unfolding run
calls-IsBook [] b w = w
calls-IsBook (c ∷ cs) b w = calls-IsBook cs (after c b) (after-IsBook c b w)

-- After any sequence of adds, cancels, reduces, replaces, reserves and clears from a new pooled book,
-- each with any arguments, the prices of the bid levels strictly fall and those of the ask levels
-- strictly rise, every entry of the index stands where the loop for its id ends, with no id of 0, and
-- the index's size is the number of its entries.
pub run-IsBook : (symbol_id : ℕ) (cs : List Call) → IsBook (run cs (new_book symbol_id))
run-IsBook symbol_id cs = calls-IsBook cs (new_book symbol_id) (new_book-IsBook symbol_id)
