-- ===== src/Pooled/Accepts.antt =====
-- `add_order`: its tests, its insert into the index and its rollback.
use asterion.Prelude.{
  ℕ, ◌≡◌, ◌≢◌, refl, ap, sym, subst, ◌∙◌, Bool, true, false, not, ◌&&◌, ◌||◌, inl, inr, none, some,
  ◌==◌, if◌then◌else◌, Bool-cases, Option-cases, arith,
}
use asterion.Prelude.Int.{ℤ}
use asterion.Core.Types.{Side, buy, sell, is_valid_side}
use asterion.Book.Queue.{Order, is_valid_resting_order}
use asterion.Pooled.FlatIndex
use asterion.Pooled.FlatIndex.{FlatOrderIndex, no_index, insert}
use asterion.Pooled.FlatIndex.Map.{IsIndex, is_none}
use asterion.Pooled.FlatIndex.Insert.{find-insert}
use asterion.Pooled.State.{LevelNode, PooledOrderBook, acquire_node}
use asterion.Pooled.{mutable_level, set_level, append_at, place_node, add_order}
use asterion.Pooled.Sorted.{IsBook}

-- The tests that an order has to pass.
abbrev pub acceptable : Order → PooledOrderBook → Bool
acceptable o b =
    is_valid_resting_order o
    && (o.symbol_id == b.symbol_id)
    && is_none (FlatIndex.find o.order_id b.order_index)

set_level-index :
    (side : Side) (i : ℕ) (l : LevelNode) (b : PooledOrderBook)
    → (set_level side i l b).order_index ≡ b.order_index
set_level-index buy i l b = refl
set_level-index sell i l b = refl
set_level-index Side.none i l b = refl

append_at-index :
    (side : Side) (i n : ℕ) (b : PooledOrderBook)
    → (append_at side i n b).order_index ≡ b.order_index
unfolding append_at
append_at-index side i n b = set_level-index side i _ _

acquire_node-index :
    (o : Order) (b : PooledOrderBook) → (acquire_node o b).0.order_index ≡ b.order_index
unfolding acquire_node
acquire_node-index o b = elim (Bool-cases (not (b.free_head == no_index))) [
  | inl e ↦ rw e refl
  | inr e ↦ rw e refl
]

-- The insert into the index succeeds where the index does not find the id.
place_node-accepts :
    (o : Order) (i : ℕ) (b : PooledOrderBook)
    → o.order_id ≢ 0
    → IsIndex b.order_index
    → FlatIndex.find o.order_id b.order_index ≡ none
    → (place_node o i b).1 ≡ true
unfolding place_node
place_node-accepts o i b nz w new =
    let (c, n) = acquire_node o b in
    let same : (append_at o.side i n c).order_index ≡ b.order_index =
      append_at-index o.side i n c ∙ acquire_node-index o b in
    let done : (insert o.order_id n b.order_index).1 ≡ true =
      (find-insert o.order_id n b.order_index nz w).0 ∙ ap is_none new in
    let placed : (insert o.order_id n (append_at o.side i n c).order_index).1 ≡ true =
      ap (λ t. (insert o.order_id n t).1) same ∙ done in
    rw placed refl

level_there :
    (side : Side) (p : ℤ) (b : PooledOrderBook)
    → is_valid_side side ≡ true
    → (c : PooledOrderBook) × (i : ℕ) × (mutable_level side p b ≡ some (c, i))
      × (c.order_index ≡ b.order_index)
unfolding mutable_level is_valid_side
level_there buy p b h = (_, _, refl, refl)
level_there sell p b h = (_, _, refl, refl)
level_there Side.none p b h = absurd (ground arith)

valid_parts :
    (o : Order) → is_valid_resting_order o ≡ true → (o.order_id ≢ 0) × (is_valid_side o.side ≡ true)
unfolding is_valid_resting_order
valid_parts o h = (ground arith, ground arith)

refused_at_guard :
    (o : Order) (b : PooledOrderBook)
    → not (is_valid_resting_order o) || not (o.symbol_id == b.symbol_id) ≡ true
    → add_order o b ≡ (b, false)
unfolding add_order
refused_at_guard o b e = rw e refl

refused_as_known :
    (o : Order) (n : ℕ) (b : PooledOrderBook)
    → not (is_valid_resting_order o) || not (o.symbol_id == b.symbol_id) ≡ false
    → FlatIndex.find o.order_id b.order_index ≡ some n
    → add_order o b ≡ (b, false)
unfolding add_order
refused_as_known o n b e known = rw (e, known, add_order) refl

accepted :
    (o : Order) (b : PooledOrderBook)
    → IsIndex b.order_index
    → not (is_valid_resting_order o) || not (o.symbol_id == b.symbol_id) ≡ false
    → FlatIndex.find o.order_id b.order_index ≡ none
    → (add_order o b).1 ≡ true
unfolding add_order
accepted o b w e new =
    let (nz, side) = valid_parts o (ground (arith, e)) in
    let (c, i, at, same) = level_there o.side o.price_ticks b side in
    rw (e, new, at, add_order)
      (place_node-accepts o i c nz (subst IsIndex (sym same) w)
        (ap (λ t. FlatIndex.find o.order_id t) same ∙ new))

-- The outcome that the tests decide.
abbrev outcome : Order → PooledOrderBook → Bool → PooledOrderBook × Bool
outcome o b done = if done then ((add_order o b).0, true) else (b, false)

-- In a book whose index is in order, an add succeeds exactly if the order is a valid resting order for
-- the book's symbol whose id the index does not find; one that is refused leaves the book as it was.
pub add_order-accepts :
    (o : Order) (b : PooledOrderBook)
    → IsBook b
    → add_order o b ≡ (if acceptable o b then ((add_order o b).0, true) else (b, false))
add_order-accepts o b w =
    elim (Bool-cases (not (is_valid_resting_order o) || not (o.symbol_id == b.symbol_id))) [
      | inl e ↦
          let shut : acceptable o b ≡ false = ground (arith, e) in
          refused_at_guard o b e ∙ sym (ap (outcome o b) shut)
      | inr e ↦ elim (Option-cases (FlatIndex.find o.order_id b.order_index)) [
        | inr (n, known) ↦
            let shut : acceptable o b ≡ false = ground (arith, e, known) in
            refused_as_known o n b e known ∙ sym (ap (outcome o b) shut)
        | inl new ↦
            let open_book : acceptable o b ≡ true = ground (arith, e, new) in
            ap (λ t. ((add_order o b).0, t)) (accepted o b w.indexed e new)
            ∙ sym (ap (outcome o b) open_book)
      ]
    ]
