-- ===== src/Pooled/Sorted.antt =====
-- The order of the pooled book's price levels, best first, and of its index, through its calls.
pub mod Vector
use asterion.Prelude.{
  ℕ, zero, suc, ◌≡◌, refl, ap, sym, subst, ◌∙◌, Bool, true, false, not, ◌||◌, ◌⊎◌, inl, inr, Option,
  none, some, List, [], ◌∷◌, ◌==◌, if◌then◌else◌, get_or, set, Bool-cases, Option-cases, arith,
}
use asterion.Prelude.Int.{ℤ, pos, leb_ℤ}
use asterion.Core.Types.{Side, buy, sell}
use asterion.Book.PriceMap.{bid_before, ask_before}
use asterion.Book.PriceMap.Comparator.{bid_order, ask_order}
use asterion.Book.Queue.{Order, is_valid_resting_order}
use asterion.Pooled.FlatIndex
use asterion.Pooled.FlatIndex.{insert}
use asterion.Pooled.FlatIndex.Map.{IsIndex}
use asterion.Pooled.FlatIndex.Insert.{insert-IsIndex}
use asterion.Pooled.FlatIndex.Erase.{erase-IsIndex}
use asterion.Pooled.State.{
  LevelNode, PooledOrderBook, level_node, node_at, mutable_bid_level, mutable_ask_level,
  erase_if_empty, acquire_node, release_node, append_order, unlink_order, no_node,
}
use asterion.Pooled.{
  new_book, clear, mutable_level, erase_level_if_empty, level_at, set_level, append_at, unlink_at,
  place_node, add_order, take_quantity, remove_node, cancel_order, reduce_node, reduce_order,
  find_order, replace_order,
}
use Vector.{
  prices, IsSorted, prices-set, mutable_bid_level-IsSorted, mutable_ask_level-IsSorted,
  erase_if_empty-IsSorted,
}

pub record IsBook (b : PooledOrderBook) : Type 0 where
  pub bids_sorted : IsSorted bid_before (prices b.bids)
  pub asks_sorted : IsSorted ask_before (prices b.asks)
  pub indexed : IsIndex b.order_index

-- Both sides have the same prices, and the index is the same.
abbrev SamePrices : PooledOrderBook → PooledOrderBook → Type 0
SamePrices b c =
    (prices c.bids ≡ prices b.bids)
    × (prices c.asks ≡ prices b.asks)
    × (c.order_index ≡ b.order_index)

SamePrices-IsBook : (b c : PooledOrderBook) → SamePrices b c → IsBook b → IsBook c
SamePrices-IsBook b c s w = record {
  bids_sorted = subst (IsSorted bid_before) (sym s.0) w.bids_sorted;
  asks_sorted = subst (IsSorted ask_before) (sym s.1) w.asks_sorted;
  indexed = subst IsIndex (sym s.2) w.indexed;
}

set_level-SamePrices :
    (side : Side) (i : ℕ) (l : LevelNode) (b : PooledOrderBook)
    → l.price_ticks ≡ (level_at side i b).price_ticks
    → SamePrices b (set_level side i l b)
set_level-SamePrices buy i l b h = (prices-set b.bids i l h, refl, refl)
set_level-SamePrices sell i l b h = (refl, prices-set b.asks i l h, refl)
set_level-SamePrices Side.none i l b h = (refl, prices-set b.asks i l h, refl)

level_at-nodes :
    (side : Side) (i : ℕ) (b c : PooledOrderBook)
    → b.bids ≡ c.bids
    → b.asks ≡ c.asks
    → level_at side i b ≡ level_at side i c
level_at-nodes buy i b c h k = ap (λ t. get_or t i (level_node (pos 0))) h
level_at-nodes sell i b c h k = ap (λ t. get_or t i (level_node (pos 0))) k
level_at-nodes Side.none i b c h k = ap (λ t. get_or t i (level_node (pos 0))) k

append_at-IsBook :
    (side : Side) (i n : ℕ) (b : PooledOrderBook) → IsBook b → IsBook (append_at side i n b)
unfolding append_at append_order
append_at-IsBook side i n b w =
    let l = level_at side i b in
    let (grown, nodes) = append_order l b.order_nodes n in
    SamePrices-IsBook b _
      (set_level-SamePrices side i grown (record b { order_nodes = nodes })
        (ap (λ (t : LevelNode). t.price_ticks)
          (level_at-nodes side i b (record b { order_nodes = nodes }) refl refl)))
      w

unlink_at-IsBook :
    (side : Side) (i n : ℕ) (b : PooledOrderBook) → IsBook b → IsBook (unlink_at side i n b)
unfolding unlink_at unlink_order
unlink_at-IsBook side i n b w =
    let l = level_at side i b in
    let (shrunk, nodes) = unlink_order l b.order_nodes n in
    SamePrices-IsBook b _
      (set_level-SamePrices side i shrunk (record b { order_nodes = nodes })
        (ap (λ (t : LevelNode). t.price_ticks)
          (level_at-nodes side i b (record b { order_nodes = nodes }) refl refl)))
      w

take_quantity-IsBook :
    (side : Side) (i : ℕ) (q : ℤ) (b : PooledOrderBook)
    → IsBook b
    → IsBook (take_quantity side i q b)
take_quantity-IsBook side i q b w = SamePrices-IsBook b _ (set_level-SamePrices side i _ b refl) w

acquire_node-IsBook : (o : Order) (b : PooledOrderBook) → IsBook b → IsBook (acquire_node o b).0
unfolding acquire_node
acquire_node-IsBook o b w = elim (Bool-cases (not (b.free_head == FlatIndex.no_index))) [
  | inl e ↦
      rw e
        (record { bids_sorted = w.bids_sorted; asks_sorted = w.asks_sorted; indexed = w.indexed })
  | inr e ↦
      rw e
        (record { bids_sorted = w.bids_sorted; asks_sorted = w.asks_sorted; indexed = w.indexed })
]

release_node-IsBook : (n : ℕ) (b : PooledOrderBook) → IsBook b → IsBook (release_node n b)
unfolding release_node
release_node-IsBook n b w = record {
  bids_sorted = w.bids_sorted;
  asks_sorted = w.asks_sorted;
  indexed = w.indexed;
}

erase_level_if_empty-IsBook :
    (side : Side) (p : ℤ) (b : PooledOrderBook) → IsBook b → IsBook (erase_level_if_empty side p b)
unfolding erase_level_if_empty
erase_level_if_empty-IsBook buy p b w = record {
  bids_sorted = erase_if_empty-IsSorted bid_before p b.bids w.bids_sorted;
  asks_sorted = w.asks_sorted;
  indexed = w.indexed;
}
erase_level_if_empty-IsBook sell p b w = record {
  bids_sorted = w.bids_sorted;
  asks_sorted = erase_if_empty-IsSorted ask_before p b.asks w.asks_sorted;
  indexed = w.indexed;
}
erase_level_if_empty-IsBook Side.none p b w = w

mutable_level-IsBook :
    (side : Side) (p : ℤ) (b : PooledOrderBook)
    → IsBook b
    → (mutable_level side p b ≡ none)
      ⊎ ((c : PooledOrderBook) × (i : ℕ) × (mutable_level side p b ≡ some (c, i)) × IsBook c)
unfolding mutable_level
mutable_level-IsBook buy p b w = inr (
  record b { bids = (mutable_bid_level p b.bids).0 },
  (mutable_bid_level p b.bids).1,
  refl,
  record {
    bids_sorted = mutable_bid_level-IsSorted p b.bids w.bids_sorted;
    asks_sorted = w.asks_sorted;
    indexed = w.indexed;
  },
)
mutable_level-IsBook sell p b w = inr (
  record b { asks = (mutable_ask_level p b.asks).0 },
  (mutable_ask_level p b.asks).1,
  refl,
  record {
    bids_sorted = w.bids_sorted;
    asks_sorted = mutable_ask_level-IsSorted p b.asks w.asks_sorted;
    indexed = w.indexed;
  },
)
mutable_level-IsBook Side.none p b w = inl refl

-- The book with another index or other nodes.
pub same_levels :
    (b c : PooledOrderBook)
    → c.bids ≡ b.bids
    → c.asks ≡ b.asks
    → IsIndex c.order_index
    → IsBook b
    → IsBook c
same_levels b c h k index w = record {
  bids_sorted = subst (λ t. IsSorted bid_before (prices t)) (sym h) w.bids_sorted;
  asks_sorted = subst (λ t. IsSorted ask_before (prices t)) (sym k) w.asks_sorted;
  indexed = index;
}

place_node-IsBook :
    (o : Order) (i : ℕ) (b : PooledOrderBook) → IsBook b → IsBook (place_node o i b).0
unfolding place_node
place_node-IsBook o i b w =
    let (c, n) = acquire_node o b in
    let d = append_at o.side i n c in
    let (index, done) = insert o.order_id n d.order_index in
    let e = record d { order_index = index } in
    let before : IsBook d = append_at-IsBook o.side i n c (acquire_node-IsBook o b w) in
    let placed : IsBook e =
      same_levels d e refl refl (insert-IsIndex o.order_id n d.order_index before.indexed) before in
    elim (Bool-cases done) [
      | inl inserted ↦ rw inserted placed
      | inr refused ↦ rw refused (
          erase_level_if_empty-IsBook o.side o.price_ticks _
            (release_node-IsBook n _ (unlink_at-IsBook o.side i n e placed)))
    ]

pub add_order-IsBook : (o : Order) (b : PooledOrderBook) → IsBook b → IsBook (add_order o b).0
unfolding add_order
add_order-IsBook o b w =
    elim (Bool-cases (not (is_valid_resting_order o) || not (o.symbol_id == b.symbol_id))) [
      | inl e ↦ rw e w
      | inr e ↦ elim (Option-cases (FlatIndex.find o.order_id b.order_index)) [
        | inr (n, known) ↦ rw (e, known, add_order) w
        | inl new ↦ elim (mutable_level-IsBook o.side o.price_ticks b w) [
          | inl no_side ↦ rw (e, new, no_side, add_order) w
          | inr (c, i, at, sorted) ↦ rw (e, new, at, add_order) (place_node-IsBook o i c sorted)
        ]
      ]
    ]

remove_node-IsBook : (id n i : ℕ) (b : PooledOrderBook) → IsBook b → IsBook (remove_node id n i b)
unfolding remove_node
remove_node-IsBook id n i b w =
    let o = (node_at b.order_nodes n).order in
    let t = take_quantity o.side i o.quantity b in
    let c = unlink_at o.side i n t in
    let d = record c { order_index = (FlatIndex.erase id c.order_index).0 } in
    let before : IsBook c =
      unlink_at-IsBook o.side i n t (take_quantity-IsBook o.side i o.quantity b w) in
    let sorted : IsBook d =
      same_levels c d refl refl (erase-IsIndex id c.order_index before.indexed) before in
    erase_level_if_empty-IsBook _ _ _ (release_node-IsBook n d sorted)

pub cancel_order-IsBook : (id : ℕ) (b : PooledOrderBook) → IsBook b → IsBook (cancel_order id b).0
unfolding cancel_order
cancel_order-IsBook id b w = elim (Option-cases (FlatIndex.find id b.order_index)) [
  | inl lost ↦ rw (lost, cancel_order) w
  | inr (n, there) ↦
      let o = (node_at b.order_nodes n).order in
      elim (mutable_level-IsBook o.side o.price_ticks b w) [
        | inl no_side ↦ rw (there, no_side, cancel_order) w
        | inr (c, i, at, sorted) ↦ rw (there, at, cancel_order) (remove_node-IsBook id n i c sorted)
      ]
]

reduce_node-IsBook :
    (n i : ℕ) (q : ℤ) (b : PooledOrderBook) → IsBook b → IsBook (reduce_node n i q b)
reduce_node-IsBook n i q b w =
    take_quantity-IsBook _ i q _
      (same_levels b (record b { order_nodes = _ }) refl refl w.indexed w)

pub reduce_order-IsBook :
    (id : ℕ) (q : ℤ) (b : PooledOrderBook) → IsBook b → IsBook (reduce_order id q b).0
unfolding reduce_order
reduce_order-IsBook id q b w = elim (Bool-cases (leb_ℤ q (pos 0))) [
  | inl e ↦ rw e w
  | inr e ↦ elim (Option-cases (FlatIndex.find id b.order_index)) [
    | inl lost ↦ rw (e, lost, reduce_order) w
    | inr (n, there) ↦
        let o = (node_at b.order_nodes n).order in
        elim (Bool-cases (leb_ℤ o.quantity q)) [
          | inl all ↦ rw (e, there, reduce_order, all) (cancel_order-IsBook id b w)
          | inr part ↦ elim (mutable_level-IsBook o.side o.price_ticks b w) [
            | inl no_side ↦ rw (e, there, reduce_order, part, no_side) w
            | inr (c, i, at, sorted) ↦
                rw (e, there, reduce_order, part, at) (reduce_node-IsBook n i q c sorted)
          ]
        ]
  ]
]

pub replace_order-IsBook :
    (id : ℕ) (p q t : ℤ) (s : ℕ) (b : PooledOrderBook)
    → IsBook b
    → IsBook (replace_order id p q t s b).0
unfolding replace_order
replace_order-IsBook id p q t s b w = elim (Bool-cases (leb_ℤ p (pos 0) || leb_ℤ q (pos 0))) [
  | inl e ↦ rw e w
  | inr e ↦ elim (Option-cases (find_order id b)) [
    | inl lost ↦ rw (e, lost, replace_order) w
    | inr (o, there) ↦ elim (Bool-cases (cancel_order id b).1) [
      | inr kept ↦ rw (e, there, replace_order, kept) (cancel_order-IsBook id b w)
      | inl gone ↦
          rw (e, there, replace_order, gone)
            (add_order-IsBook _ (cancel_order id b).0 (cancel_order-IsBook id b w))
    ]
  ]
]
