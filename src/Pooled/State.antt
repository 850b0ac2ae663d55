-- ===== src/Pooled/State.antt =====
-- The data of the pooled book, its price levels as sorted vectors, its pool of order nodes with the list
-- of free ones, and the links of a level's queue. A pointer to a level is its position on its side.
use asterion.Prelude.{
  ℕ, suc, ◌+◌, ◌%◌, ◌^◌, ◌-◌, ◌==◌, Bool, true, false, not, Option, none, some, List, [], ◌∷◌, ◌++◌,
  if◌then◌else◌, length, get_or, set,
}
use asterion.Prelude.Int.{ℤ, pos, ◌+ℤ◌, leb_ℤ, eqb_ℤ}
use asterion.Core.Types.{Side}
use asterion.Book.Queue.{Order}
use asterion.Pooled.FlatIndex.{FlatOrderIndex, no_index}

pub record LevelNode : Type 0 where
  pub price_ticks : ℤ
  pub total_quantity : ℤ
  pub head : ℕ
  pub tail : ℕ
  pub order_count : ℕ

pub record OrderNode : Type 0 where
  pub order : Order
  pub previous : ℕ
  pub next : ℕ
  pub active : Bool

pub record PooledOrderBook : Type 0 where
  pub symbol_id : ℕ
  pub bids : List LevelNode
  pub asks : List LevelNode
  pub order_nodes : List OrderNode
  pub free_head : ℕ
  pub order_index : FlatOrderIndex

abbrev pub level_node : ℤ → LevelNode
level_node price_ticks = record {
  price_ticks = price_ticks;
  total_quantity = pos 0;
  head = no_index;
  tail = no_index;
  order_count = 0;
}

abbrev pub order_node : Order → OrderNode
order_node order = record { order = order; previous = no_index; next = no_index; active = true }

-- What a read of a node out of bounds gives here; the code makes none.
abbrev pub no_node : OrderNode
no_node = record {
  order = record {
    order_id = 0;
    client_order_id = 0;
    symbol_id = 0;
    side = Side.none;
    price_ticks = pos 0;
    quantity = pos 0;
    timestamp_ns = pos 0;
    sequence_number = 0;
  };
  previous = no_index;
  next = no_index;
  active = false;
}

abbrev pub node_at : List OrderNode → ℕ → OrderNode
node_at nodes index = get_or nodes index no_node

abbrev pub bid_stops : ℤ → ℤ → Bool
bid_stops at price = leb_ℤ at price

abbrev pub ask_stops : ℤ → ℤ → Bool
ask_stops at price = leb_ℤ price at

-- `mutable_bid_level` and `mutable_ask_level`: `find_if` for the first level where `stops` holds, and a
-- new level before it where its price is another.
unfoldable pub mutable_in : (ℤ → ℤ → Bool) → ℤ → List LevelNode → List LevelNode × ℕ
mutable_in stops price [] = (level_node price ∷ [], 0)
mutable_in stops price (l ∷ ls) =
    let (rest, position) = mutable_in stops price ls in
    if stops l.price_ticks price
    then if eqb_ℤ l.price_ticks price then (l ∷ ls, 0) else (level_node price ∷ l ∷ ls, 0)
    else (l ∷ rest, suc position)

unfoldable pub mutable_bid_level : ℤ → List LevelNode → List LevelNode × ℕ
unfolding mutable_in
mutable_bid_level = mutable_in bid_stops

unfoldable pub mutable_ask_level : ℤ → List LevelNode → List LevelNode × ℕ
unfolding mutable_in
mutable_ask_level = mutable_in ask_stops

unfoldable pub find_level : ℤ → List LevelNode → Option LevelNode
find_level price [] = none
find_level price (l ∷ ls) = if eqb_ℤ l.price_ticks price then some l else find_level price ls

-- `find_if` for the price, then `erase` where no order is left.
unfoldable pub erase_if_empty : ℤ → List LevelNode → List LevelNode
erase_if_empty price [] = []
erase_if_empty price (l ∷ ls) =
    let rest = erase_if_empty price ls in
    if eqb_ℤ l.price_ticks price then if l.order_count == 0 then ls else l ∷ ls else l ∷ rest

unfoldable pub acquire_node : Order → PooledOrderBook → PooledOrderBook × ℕ
acquire_node order b =
    if not (b.free_head == no_index)
    then (
      record b {
        free_head = (node_at b.order_nodes b.free_head).next;
        order_nodes = set b.order_nodes b.free_head (order_node order);
      },
      b.free_head,
    )
    else (record b { order_nodes = b.order_nodes ++ order_node order ∷ [] }, length b.order_nodes)

unfoldable pub release_node : ℕ → PooledOrderBook → PooledOrderBook
release_node index b = record b {
  order_nodes = set b.order_nodes index (record (node_at b.order_nodes index) {
    active = false;
    previous = no_index;
    next = b.free_head;
  });
  free_head = index;
}

abbrev pub set_next : ℕ → ℕ → List OrderNode → List OrderNode
set_next index next nodes = set nodes index (record (node_at nodes index) { next = next })

abbrev pub set_previous : ℕ → ℕ → List OrderNode → List OrderNode
set_previous index previous nodes =
    set nodes index (record (node_at nodes index) { previous = previous })

unfoldable pub append_order : LevelNode → List OrderNode → ℕ → LevelNode × List OrderNode
append_order l nodes index =
    let linked =
      set nodes index (record (node_at nodes index) { previous = l.tail; next = no_index }) in
    (
      record l {
        head = if not (l.tail == no_index) then l.head else index;
        tail = index;
        total_quantity = l.total_quantity +ℤ (node_at linked index).order.quantity;
        order_count = suc l.order_count % 2 ^ 64;
      },
      if not (l.tail == no_index) then set_next l.tail index linked else linked,
    )

-- The node is read again after the first write, as through the source's reference.
unfoldable pub unlink_order : LevelNode → List OrderNode → ℕ → LevelNode × List OrderNode
unlink_order l nodes index =
    let node = node_at nodes index in
    let ahead =
      if not (node.previous == no_index) then set_next node.previous node.next nodes else nodes in
    let reread = node_at ahead index in
    (
      record l {
        head = if not (node.previous == no_index) then l.head else node.next;
        tail = if not (reread.next == no_index) then l.tail else reread.previous;
        order_count = (l.order_count + (2 ^ 64 - 1)) % 2 ^ 64;
      },
      if not (reread.next == no_index)
          then set_previous reread.next reread.previous ahead
          else ahead,
    )
