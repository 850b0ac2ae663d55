-- ===== src/Book/Reduce.antt =====
-- `reduce_order`: a smaller quantity stays in its place in the queue, a full one is a cancel.
use asterion.Prelude.{
  ℕ, ◌≡◌, refl, sym, ◌⊎◌, inl, inr, true, false, none, some, arith, ◌==◌, if◌then◌else◌, Bool-cases,
  Option-cases, ◌∙◌, ap, is_empty,
}
use asterion.Prelude.Int.{ℤ, pos, ◌-ℤ◌, leb_ℤ, -ℤ_parts}
use asterion.Prelude.Assoc.{find}
use asterion.Core.Types.{Side, buy, sell}
use asterion.Book.Queue.{Order, is_valid_resting_order, deref, reduce_node}
use asterion.Book.Queue.Laws.{
  occurs-reduce_node, deref-reduce_node, child_sum-reduce_node, All-reduce_node, All_of_deref,
  is_empty-reduce_node, nonempty_of_deref,
}
use asterion.Book.PriceMap.{PriceLevel}
use asterion.Book.PriceMap.Laws.{level_or_new}
use asterion.Book.Places.{place_cases, occurs_book, occurs-update_level}
use asterion.Book.Valid.{BelongsAt, LevelOk, LevelsOk, NonEmptyLevels, IsValid, LeadsTo}
use asterion.Book.Valid.Update.{
  symbol_id-update_level, LevelOk-level, update_level-LevelsOk, update_level-NonEmpty,
}
use asterion.Book.Reads.{
  queue_at, deref_locator-queue_at, queue_at-update_level_self, queue_at-update_level_ne,
}
use asterion.Book.Cancel.{in_queue, found_at_level, found_nowhere, remove-IsValid}
use asterion.Book.{
  OrderBook, Locator, level, update_level, shrink, remove, remove_located, cancel_order,
  reduce_located, reduce_order, deref_locator, find_order,
}

abbrev pub with_less : Order → ℤ → Order
with_less o q = record o { quantity = o.quantity -ℤ q }

abbrev pub shrunk : Locator → ℤ → OrderBook → OrderBook
shrunk loc q b = update_level loc.side loc.price_ticks (shrink loc.iterator q) b

-- The three outcomes of `reduce_order` on a valid book.
pub data Reduced (id : ℕ) (q : ℤ) (b : OrderBook) : Type 0 where
  refused :
      (leb_ℤ q (pos 0) ≡ true) ⊎ (find_order id b ≡ none)
      → reduce_order id q b ≡ (b, false)
      → Reduced id q b
  emptied :
      (loc : Locator) (o : Order)
      → leb_ℤ q (pos 0) ≡ false
      → find id b.order_index ≡ some loc
      → deref_locator loc b ≡ some o
      → leb_ℤ o.quantity q ≡ true
      → reduce_order id q b ≡ (remove id loc o b, true)
      → Reduced id q b
  lessened :
      (loc : Locator) (o : Order)
      → leb_ℤ q (pos 0) ≡ false
      → find id b.order_index ≡ some loc
      → deref_locator loc b ≡ some o
      → leb_ℤ o.quantity q ≡ false
      → reduce_order id q b ≡ (shrunk loc q b, true)
      → Reduced id q b

pub reduce_order_cases : (id : ℕ) (q : ℤ) (b : OrderBook) → IsValid b → Reduced id q b
unfolding reduce_order reduce_located cancel_order remove_located find_order
reduce_order_cases id q b v = elim (Bool-cases (leb_ℤ q (pos 0))) [
  | inl bad ↦ refused (inl bad) (ground arith)
  | inr good ↦ elim (Option-cases (find id b.order_index)) [
    | inl e ↦ refused (inr (rw (e, find_order))) (ground arith)
    | inr (loc, e) ↦
        let l = v.located id loc e in
        elim (Bool-cases (leb_ℤ l.order.quantity q)) [
          | inl all ↦ emptied loc l.order good e l.found all (ground (arith, l.found))
          | inr part ↦ lessened loc l.order good e l.found part (ground (arith, l.found))
        ]
  ]
]

less_rests :
    (o : Order) (q : ℤ)
    → is_valid_resting_order o ≡ true
    → leb_ℤ o.quantity q ≡ false
    → is_valid_resting_order (with_less o q) ≡ true
unfolding is_valid_resting_order
less_rests o q h k = ground (arith, -ℤ_parts o.quantity q)

order_index-update_level :
    (s : Side) (p : ℤ) (f : PriceLevel → PriceLevel) (b : OrderBook)
    → (update_level s p f b).order_index ≡ b.order_index
unfolding update_level
order_index-update_level buy p f b = refl
order_index-update_level sell p f b = refl
order_index-update_level Side.none p f b = refl

module _ (id : ℕ) (loc : Locator) (o : Order) (q : ℤ) (b : OrderBook) (v : IsValid b)
    (e : find id b.order_index ≡ some loc) (found : deref_locator loc b ≡ some o)
    (part : leb_ℤ o.quantity q ≡ false) where
  lead : LeadsTo id loc b
  lead = v.located id loc e

  shrunk-LevelOk :
      (l : PriceLevel)
      → level loc.side loc.price_ticks b ≡ some l
      → LevelOk b.symbol_id loc.side loc.price_ticks (shrink loc.iterator q l)
  shrunk-LevelOk l at_level =
      let ok = LevelOk-level loc.side loc.price_ticks b lead.valid_side v.levels at_level in
      let here = found_at_level id loc o b v e found l at_level in
      let belong =
        All_of_deref (BelongsAt b.symbol_id loc.side loc.price_ticks) loc.iterator l.orders
          ok.belong here in
      record {
        key = ok.key;
        total = rw ok.total (sym (child_sum-reduce_node loc.iterator q l.orders here));
        belong = All-reduce_node _ loc.iterator q l.orders ok.belong here (record {
          resting = less_rests o q belong.resting part;
          symbol = belong.symbol;
          on_side = belong.on_side;
          at_price = belong.at_price;
        });
      }

  shrunk-LevelsOk : LevelsOk (shrunk loc q b)
  shrunk-LevelsOk = elim (Option-cases (level loc.side loc.price_ticks b)) [
    | inl absent ↦ absurd (found_nowhere id loc o b v e found absent)
    | inr (l, at_level) ↦
        update_level-LevelsOk loc.side loc.price_ticks (shrink loc.iterator q) b
          (rw at_level (shrunk-LevelOk l at_level)) v.levels
  ]

  in_queue_here : deref id (queue_at loc.side loc.price_ticks b) ≡ some o
  in_queue_here = in_queue id loc o b v e found

  still_some :
      is_empty (reduce_node loc.iterator q (level_or_new (level loc.side loc.price_ticks b)).orders)
      ≡ false
  unfolding queue_at
  still_some =
      is_empty-reduce_node loc.iterator q (queue_at loc.side loc.price_ticks b)
      ∙ nonempty_of_deref id (queue_at loc.side loc.price_ticks b) in_queue_here

  shrunk-NonEmpty : NonEmptyLevels (shrunk loc q b)
  shrunk-NonEmpty =
      update_level-NonEmpty loc.side loc.price_ticks (shrink loc.iterator q) b still_some v.nonempty

  -- The queue keeps its orders in their order; the reduced one keeps its place.
  pub queue_at-shrunk_self :
      queue_at loc.side loc.price_ticks (shrunk loc q b)
      ≡ reduce_node id q (queue_at loc.side loc.price_ticks b)
  unfolding queue_at
  queue_at-shrunk_self =
      queue_at-update_level_self loc.price_ticks (shrink loc.iterator q) b loc.side lead.valid_side
      ∙ ap (λ i. reduce_node i q (queue_at loc.side loc.price_ticks b)) lead.handle

  occurs-shrunk : (j : ℕ) → occurs_book j (shrunk loc q b) ≡ occurs_book j b
  unfolding queue_at
  occurs-shrunk j = omega (
    arith,
    occurs-update_level loc.price_ticks (shrink loc.iterator q) b j loc.side lead.valid_side,
    occurs-reduce_node loc.iterator j q (queue_at loc.side loc.price_ticks b),
  )

  pub order_index-shrunk : (shrunk loc q b).order_index ≡ b.order_index
  order_index-shrunk = order_index-update_level loc.side loc.price_ticks (shrink loc.iterator q) b

  deref_locator-shrunk :
      (j : ℕ) (there : Locator)
      → find j b.order_index ≡ some there
      → deref_locator there (shrunk loc q b)
        ≡ (if id == j then some (with_less o q) else deref_locator there b)
  deref_locator-shrunk j there h = elim (Bool-cases (id == j)) [
    | inl here ↦ ground (
      arith,
      deref_locator-queue_at loc (shrunk loc q b),
      queue_at-shrunk_self,
      lead.handle,
      in_queue_here,
      deref-reduce_node id id q (queue_at loc.side loc.price_ticks b),
    )
    | inr other ↦ elim (place_cases loc.side there.side loc.price_ticks there.price_ticks) [
      | inl (es, ep) ↦ ground (
        arith,
        (v.located j there h).handle,
        deref_locator-queue_at there (shrunk loc q b),
        deref_locator-queue_at there b,
        queue_at-shrunk_self,
        deref-reduce_node id j q (queue_at loc.side loc.price_ticks b),
      )
      | inr ne ↦ ground (
        arith,
        deref_locator-queue_at there (shrunk loc q b),
        deref_locator-queue_at there b,
        queue_at-update_level_ne loc.price_ticks (shrink loc.iterator q) b loc.side there.side
            there.price_ticks ne,
      )
    ]
  ]

  shrunk-located :
      (j : ℕ) (there : Locator)
      → find j (shrunk loc q b).order_index ≡ some there
      → LeadsTo j there (shrunk loc q b)
  shrunk-located j there h =
      let before : find j b.order_index ≡ some there = ground (arith, order_index-shrunk) in
      let l = v.located j there before in
      record {
        valid_side = l.valid_side;
        handle = l.handle;
        order = if id == j then with_less o q else l.order;
        found = ground (arith, deref_locator-shrunk j there before, l.found);
      }

  pub shrunk-IsValid : IsValid (shrunk loc q b)
  shrunk-IsValid = record {
    levels = shrunk-LevelsOk;
    nonempty = shrunk-NonEmpty;
    counted = λ j. ground (arith, occurs-shrunk j, order_index-shrunk, v.counted j);
    located = shrunk-located;
  }

  -- A partial reduction changes one order's quantity, and no other lookup.
  pub find_order-shrunk :
      (j : ℕ)
      → find_order j (shrunk loc q b) ≡ (if id == j then some (with_less o q) else find_order j b)
  unfolding find_order
  find_order-shrunk j = elim (Option-cases (find j b.order_index)) [
    | inl absent ↦ ground (arith, order_index-shrunk)
    | inr (there, h) ↦ ground (arith, order_index-shrunk, deref_locator-shrunk j there h)
  ]

-- `reduce_order` keeps the book valid, whatever it is given.
pub reduce_order-IsValid :
    (id : ℕ) (q : ℤ) (b : OrderBook) → IsValid b → IsValid (reduce_order id q b).0
reduce_order-IsValid id q b v = kept (reduce_order_cases id q b v)
  where
    kept : Reduced id q b → IsValid (reduce_order id q b).0
    kept (refused _ done) = rw done v
    kept (emptied loc o _ e found _ done) = rw done (remove-IsValid id loc o b v e found)
    kept (lessened loc o _ e found part done) = rw done (shrunk-IsValid id loc o q b v e found part)

pub symbol_id-shrunk :
    (loc : Locator) (q : ℤ) (b : OrderBook) → (shrunk loc q b).symbol_id ≡ b.symbol_id
symbol_id-shrunk loc q b = symbol_id-update_level loc.side loc.price_ticks (shrink loc.iterator q) b
