-- ===== src/Book/Cancel.antt =====
-- `cancel_order`: it finds the order of an indexed id, takes it out of its queue and keeps the book
-- valid.
use asterion.Prelude.{
  ℕ, ◌+◌, ◌≡◌, ◌≢◌, refl, sym, ◌⊎◌, inl, inr, true, false, none, some, List, arith, ◌==◌,
  if◌then◌else◌, Option-cases, ◌∙◌, ap,
}
use asterion.Prelude.Int.{ℤ}
use asterion.Prelude.Assoc.{find, erase, find-erase}
use asterion.Core.Types.{Side}
use asterion.Book.Queue.{Order, deref, erase_node}
use asterion.Book.Queue.Laws.{
  occurs-erase_node, deref-erase_node_ne, child_sum-erase_node, All-erase_node,
}
use asterion.Book.PriceMap.{PriceLevel}
use asterion.Book.Places.{
  Elsewhere, place_cases, occurs_book, occurs-update_level, occurs-erase_level_if_empty,
}
use asterion.Book.Valid.{
  LevelOk, LevelsOk, NonEmptyLevels, IsValid, LeadsTo, LevelsOk-order_index, indexed,
}
use asterion.Book.Valid.Update.{
  LevelOk-level, update_level-LevelsOk, erase_level_if_empty-LevelsOk, erase-update_level-NonEmpty,
  erase_level-order_index,
}
use asterion.Book.Reads.{
  queue_at, deref_locator-queue_at, queue_at-order_index, queue_at-update_level_self,
  queue_at-update_level_ne, queue_at-erase_self, queue_at-erase_ne,
}
use asterion.Book.{
  OrderBook, Locator, level, update_level, unlink, remove, remove_located, cancel_order,
  deref_locator, find_order,
}

-- In a valid book an indexed id has its order.
pub find_order_indexed :
    (id : ℕ) (loc : Locator) (b : OrderBook)
    → find id b.order_index ≡ some loc
    → find_order id b ≡ deref_locator loc b
unfolding find_order
find_order_indexed id loc b e = rw (e, find_order)

-- `cancel_order` refuses exactly the ids that no order has.
pub cancel_order_cases :
    (id : ℕ) (b : OrderBook)
    → IsValid b
    → ((cancel_order id b ≡ (b, false)) × (find_order id b ≡ none) × (find id b.order_index ≡ none))
      ⊎ ((loc : Locator) × (o : Order) × (find id b.order_index ≡ some loc)
          × (deref_locator loc b ≡ some o)
          × (find_order id b ≡ some o)
          × (cancel_order id b ≡ (remove id loc o b, true)))
unfolding cancel_order remove_located find_order
cancel_order_cases id b v = elim (Option-cases (find id b.order_index)) [
  | inl e ↦ inl (rw (e, cancel_order), rw (e, find_order), e)
  | inr (loc, e) ↦
      let l = v.located id loc e in
      inr (loc, l.order, e, l.found, rw (e, find_order) l.found, ground arith)
]

occurs-order_index :
    (j : ℕ) (b : OrderBook) (m : List (ℕ × Locator))
    → occurs_book j (record b { order_index = m }) ≡ occurs_book j b
unfolding occurs_book
occurs-order_index j b m = refl

pub order_index-remove :
    (id : ℕ) (loc : Locator) (o : Order) (b : OrderBook)
    → (remove id loc o b).order_index ≡ erase id b.order_index
unfolding remove
order_index-remove id loc o b = rw (
    erase_level-order_index loc.side loc.price_ticks
      (update_level loc.side loc.price_ticks (unlink o loc.iterator) b) (erase id b.order_index))

module _ (id : ℕ) (loc : Locator) (o : Order) (b : OrderBook) (v : IsValid b)
    (e : find id b.order_index ≡ some loc) (found : deref_locator loc b ≡ some o) where
  lead : LeadsTo id loc b
  lead = v.located id loc e

  pub in_queue : deref id (queue_at loc.side loc.price_ticks b) ≡ some o
  in_queue = ground (arith, lead.handle, deref_locator-queue_at loc b)

  abbrev unlinked : OrderBook
  unlinked = update_level loc.side loc.price_ticks (unlink o loc.iterator) b

  pub found_at_level :
      (l : PriceLevel)
      → level loc.side loc.price_ticks b ≡ some l
      → deref loc.iterator l.orders ≡ some o
  unfolding deref_locator
  found_at_level l at_level = ground arith

  pub found_nowhere : level loc.side loc.price_ticks b ≢ none
  unfolding deref_locator
  found_nowhere absent = ground arith

  unlinked-LevelOk :
      (l : PriceLevel)
      → level loc.side loc.price_ticks b ≡ some l
      → LevelOk b.symbol_id loc.side loc.price_ticks (unlink o loc.iterator l)
  unlinked-LevelOk l at_level =
      let ok = LevelOk-level loc.side loc.price_ticks b lead.valid_side v.levels at_level in
      record {
        key = ok.key;
        total =
            rw ok.total
              (sym (child_sum-erase_node loc.iterator l.orders (found_at_level l at_level)));
        belong = All-erase_node _ loc.iterator l.orders ok.belong;
      }

  unlinked-LevelsOk : LevelsOk unlinked
  unlinked-LevelsOk = elim (Option-cases (level loc.side loc.price_ticks b)) [
    | inl absent ↦ absurd (found_nowhere absent)
    | inr (l, at_level) ↦
        update_level-LevelsOk loc.side loc.price_ticks (unlink o loc.iterator) b
          (rw at_level (unlinked-LevelOk l at_level)) v.levels
  ]

  remove-LevelsOk : LevelsOk (remove id loc o b)
  unfolding remove
  remove-LevelsOk =
      erase_level_if_empty-LevelsOk loc.side loc.price_ticks _
        (LevelsOk-order_index _ _ unlinked-LevelsOk)

  remove-NonEmpty : NonEmptyLevels (remove id loc o b)
  unfolding remove
  remove-NonEmpty =
      rw (erase_level-order_index loc.side loc.price_ticks _ _)
        (erase-update_level-NonEmpty loc.side loc.price_ticks (unlink o loc.iterator) b v.nonempty)

  -- The queue of the order's level loses that order and keeps the others in their order.
  pub queue_at-remove_self :
      queue_at loc.side loc.price_ticks (remove id loc o b)
      ≡ erase_node id (queue_at loc.side loc.price_ticks b)
  unfolding remove queue_at
  queue_at-remove_self =
      queue_at-erase_self loc.price_ticks _ loc.side unlinked-LevelsOk.sorted
      ∙ queue_at-order_index loc.side loc.price_ticks _ _
      ∙ queue_at-update_level_self loc.price_ticks (unlink o loc.iterator) b loc.side
          lead.valid_side
      ∙ ap (λ i. erase_node i (queue_at loc.side loc.price_ticks b)) lead.handle

  pub queue_at-remove_ne :
      (t : Side) (j : ℤ)
      → Elsewhere loc.side loc.price_ticks t j
      → queue_at t j (remove id loc o b) ≡ queue_at t j b
  unfolding remove
  queue_at-remove_ne t j ne =
      queue_at-erase_ne loc.price_ticks _ loc.side t j unlinked-LevelsOk.sorted ne
      ∙ queue_at-order_index t j _ _
      ∙ queue_at-update_level_ne loc.price_ticks (unlink o loc.iterator) b loc.side t j ne

  occurs-remove :
      (j : ℕ) → occurs_book j (remove id loc o b) + (if id == j then 1 else 0) ≡ occurs_book j b
  unfolding remove queue_at
  occurs-remove j = ground (
    arith,
    lead.handle,
    occurs-erase_level_if_empty loc.price_ticks
        (record unlinked { order_index = erase id b.order_index }) j loc.side,
    occurs-order_index j unlinked (erase id b.order_index),
    occurs-update_level loc.price_ticks (unlink o loc.iterator) b j loc.side lead.valid_side,
    occurs-erase_node id j (queue_at loc.side loc.price_ticks b) in_queue,
  )

  remove-counted :
      (j : ℕ) → occurs_book j (remove id loc o b) ≡ indexed (find j (remove id loc o b).order_index)
  remove-counted j = ground (
    arith,
    occurs-remove j,
    v.counted j,
    v.counted id,
    order_index-remove id loc o b,
    find-erase id j b.order_index,
  )

  -- Another locator of the valid book leads where it led.
  kept_elsewhere :
      (j : ℕ) (there : Locator)
      → id == j ≡ false
      → there.iterator ≡ j
      → deref_locator there (remove id loc o b) ≡ deref_locator there b
  kept_elsewhere j there other h =
      elim (place_cases loc.side there.side loc.price_ticks there.price_ticks) [
        | inl (es, ep) ↦ ground (
          arith,
          deref_locator-queue_at there (remove id loc o b),
          deref_locator-queue_at there b,
          queue_at-remove_self,
          deref-erase_node_ne id there.iterator (queue_at loc.side loc.price_ticks b),
        )
        | inr ne ↦ ground (
          arith,
          deref_locator-queue_at there (remove id loc o b),
          deref_locator-queue_at there b,
          queue_at-remove_ne there.side there.price_ticks ne,
        )
      ]

  find_removed :
      (j : ℕ) (there : Locator)
      → find j (remove id loc o b).order_index ≡ some there
      → (id == j ≡ false) × (find j b.order_index ≡ some there)
  find_removed j there h =
      ground (arith, order_index-remove id loc o b, find-erase id j b.order_index)

  remove-located :
      (j : ℕ) (there : Locator)
      → find j (remove id loc o b).order_index ≡ some there
      → LeadsTo j there (remove id loc o b)
  remove-located j there h =
      let (other, before) = find_removed j there h in
      let l = v.located j there before in
      record {
        valid_side = l.valid_side;
        handle = l.handle;
        order = l.order;
        found = kept_elsewhere j there other l.handle ∙ l.found;
      }

  pub remove-IsValid : IsValid (remove id loc o b)
  remove-IsValid = record {
    levels = remove-LevelsOk;
    nonempty = remove-NonEmpty;
    counted = remove-counted;
    located = remove-located;
  }

  -- After a cancel the id is gone, and every other lookup gives what it gave.
  pub find_order-remove :
      (j : ℕ) → find_order j (remove id loc o b) ≡ (if id == j then none else find_order j b)
  unfolding find_order
  find_order-remove j = elim (Option-cases (find j b.order_index)) [
    | inl absent ↦ ground (arith, order_index-remove id loc o b, find-erase id j b.order_index)
    | inr (there, h) ↦ ground (
      arith,
      order_index-remove id loc o b,
      find-erase id j b.order_index,
      kept_elsewhere j there,
      (v.located j there h).handle,
    )
  ]

-- `cancel_order` keeps the book valid, whatever it is given.
pub cancel_order-IsValid : (id : ℕ) (b : OrderBook) → IsValid b → IsValid (cancel_order id b).0
cancel_order-IsValid id b v = elim (cancel_order_cases id b v) [
  | inl (e, _, _) ↦ rw e v
  | inr (loc, o, e, found, _, done) ↦ rw done (remove-IsValid id loc o b v e found)
]
