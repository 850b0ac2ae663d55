-- ===== src/Book/Add.antt =====
-- `add_order`: when it accepts, where the order goes, and that the book stays valid.
use asterion.Prelude.{
  ℕ, ◌+◌, ◌≡◌, refl, sym, subst, ◌⊎◌, inl, inr, true, false, none, some, List, [], ◌∷◌, ◌++◌, arith,
  ◌==◌, if◌then◌else◌, is_empty, All, All-append, Bool-cases, Option-cases, ◌∙◌, ==-eq, ==-ne,
}
use asterion.Prelude.Int.{ℤ, pos, ◌<ℤ◌}
use asterion.Prelude.Assoc.{find, find-put}
use asterion.Core.Types.{Side, is_valid_side}
use asterion.Book.Queue.{Order, is_valid_resting_order, child_sum}
use asterion.Book.Queue.Laws.{deref-append, occurs-append, child_sum-append, deref_of_occurs-zero}
use asterion.Book.PriceMap.{PriceLevel}
use asterion.Book.PriceMap.Laws.{level_or_new}
use asterion.Book.Places.{Elsewhere, place_cases, occurs_book, occurs-update_level}
use asterion.Book.Valid.{
  BelongsAt, LevelOk, LevelsOk, NonEmptyLevels, IsValid, LeadsTo, LevelsOk-order_index, indexed,
}
use asterion.Book.Valid.Update.{
  level_or_new-ok, symbol_id-update_level, update_level-LevelsOk, update_level-NonEmpty,
}
use asterion.Book.Reads.{
  queue_at, deref_locator-queue_at, queue_at-order_index, queue_at-update_level_self,
  queue_at-update_level_ne, occurs-queue_at-le,
}
use asterion.Book.{
  OrderBook, Locator, level, push_back, place, add_order, deref_locator, find_order,
}

pub resting_parts :
    (o : Order)
    → is_valid_resting_order o ≡ true
    → (is_valid_side o.side ≡ true) × (pos 0 <ℤ o.price_ticks) × (pos 0 <ℤ o.quantity)
unfolding is_valid_resting_order
resting_parts o h = ground arith

-- `add_order` accepts an order exactly if it is valid, of this symbol and new.
pub record Accepts (o : Order) (b : OrderBook) : Type 0 where
  pub resting : is_valid_resting_order o ≡ true
  pub symbol : o.symbol_id ≡ b.symbol_id
  pub fresh : find o.order_id b.order_index ≡ none

abbrev pub locator_of : Order → Locator
locator_of o = record { side = o.side; price_ticks = o.price_ticks; iterator = o.order_id }

pub add_order_cases :
    (o : Order) (b : OrderBook)
    → ((add_order o b ≡ (b, false)) × (¬ Accepts o b))
      ⊎ ((add_order o b ≡ (place o b, true)) × Accepts o b)
unfolding add_order
add_order_cases o b = elim (Bool-cases (is_valid_resting_order o)) [
  | inr bad ↦ inl (ground arith, λ a. cc (bad, a.resting))
  | inl good ↦ elim (Bool-cases (o.symbol_id == b.symbol_id)) [
    | inr other ↦ inl (ground arith, λ a. ==-ne _ _ other a.symbol)
    | inl same ↦ elim (Option-cases (find o.order_id b.order_index)) [
      | inr (loc, e) ↦ inl (ground arith, λ a. cc (e, a.fresh))
      | inl new ↦
          inr (ground arith, record { resting = good; symbol = ==-eq _ _ same; fresh = new })
    ]
  ]
]

module _ (o : Order) (b : OrderBook) where
  -- The order goes to the end of the queue of its side and price.
  pub queue_at-place_self :
      is_valid_side o.side ≡ true
      → queue_at o.side o.price_ticks (place o b) ≡ queue_at o.side o.price_ticks b ++ o ∷ []
  unfolding place queue_at
  queue_at-place_self h =
      queue_at-order_index o.side o.price_ticks _ _
      ∙ queue_at-update_level_self o.price_ticks (push_back o) b o.side h

  -- No other queue changes.
  pub queue_at-place_ne :
      (t : Side) (j : ℤ)
      → Elsewhere o.side o.price_ticks t j
      → queue_at t j (place o b) ≡ queue_at t j b
  unfolding place
  queue_at-place_ne t j e =
      queue_at-order_index t j _ _
      ∙ queue_at-update_level_ne o.price_ticks (push_back o) b o.side t j e

module _ (o : Order) (b : OrderBook) (a : Accepts o b) (v : IsValid b) where
  valid_side : is_valid_side o.side ≡ true
  valid_side = (resting_parts o a.resting).0

  pushed-LevelOk :
      (l : PriceLevel)
      → l.total_quantity ≡ child_sum l.orders
      → All (BelongsAt b.symbol_id o.side o.price_ticks) l.orders
      → LevelOk b.symbol_id o.side o.price_ticks (push_back o l)
  pushed-LevelOk l total belong = record {
    key = refl;
    total = rw (child_sum-append l.orders o, total) refl;
    belong =
        All-append _ l.orders (o ∷ []) belong
          (record { resting = a.resting; symbol = a.symbol; on_side = refl; at_price = refl }, tt);
  }

  place-LevelsOk : LevelsOk (place o b)
  unfolding place
  place-LevelsOk =
      let ok = level_or_new-ok o.side o.price_ticks b valid_side v.levels in
      LevelsOk-order_index _ _ (
        update_level-LevelsOk o.side o.price_ticks (push_back o) b
          (pushed-LevelOk (level_or_new (level o.side o.price_ticks b)) ok.0 ok.1) v.levels)

  pushed_nonempty : (os : List Order) → is_empty (os ++ o ∷ []) ≡ false
  pushed_nonempty [] = refl
  pushed_nonempty (x ∷ os) = refl

  place-NonEmpty : NonEmptyLevels (place o b)
  unfolding place
  place-NonEmpty =
      update_level-NonEmpty o.side o.price_ticks (push_back o) b
        (pushed_nonempty (level_or_new (level o.side o.price_ticks b)).orders) v.nonempty

  occurs-place :
      (id : ℕ) → occurs_book id (place o b) ≡ occurs_book id b + (if o.order_id == id then 1 else 0)
  unfolding place occurs_book
  occurs-place id = omega (
    arith,
    occurs-update_level o.price_ticks (push_back o) b id o.side valid_side,
    occurs-append id (level_or_new (level o.side o.price_ticks b)).orders o,
  )

  place-counted : (id : ℕ) → occurs_book id (place o b) ≡ indexed (find id (place o b).order_index)
  unfolding place
  place-counted id = ground (
    arith,
    occurs-place id,
    v.counted id,
    a.fresh,
    find-put o.order_id id (locator_of o) b.order_index,
  )

  unseen : occurs_book o.order_id b ≡ 0
  unseen = ground (arith, v.counted o.order_id, a.fresh)

  found_self : deref_locator (locator_of o) (place o b) ≡ some o
  found_self = ground (
    arith,
    deref_locator-queue_at (locator_of o) (place o b),
    queue_at-place_self o b valid_side,
    deref-append o.order_id (queue_at o.side o.price_ticks b) o,
    deref_of_occurs-zero o.order_id (queue_at o.side o.price_ticks b)
        (omega (arith, occurs-queue_at-le o.order_id o.side o.price_ticks b valid_side, unseen)),
  )

  found_before :
      (loc : Locator) (x : Order)
      → deref_locator loc b ≡ some x
      → deref_locator loc (place o b) ≡ some x
  found_before loc x e = elim (place_cases o.side loc.side o.price_ticks loc.price_ticks) [
    | inl (es, ep) ↦ ground (
      arith,
      deref_locator-queue_at loc (place o b),
      deref_locator-queue_at loc b,
      queue_at-place_self o b valid_side,
      deref-append loc.iterator (queue_at o.side o.price_ticks b) o,
    )
    | inr ne ↦ ground (
      arith,
      deref_locator-queue_at loc (place o b),
      deref_locator-queue_at loc b,
      queue_at-place_ne o b loc.side loc.price_ticks ne,
    )
  ]

  find_placed :
      (id : ℕ) (loc : Locator)
      → find id (place o b).order_index ≡ some loc
      → (if o.order_id == id then some (locator_of o) else find id b.order_index) ≡ some loc
  unfolding place
  find_placed id loc e = sym (find-put o.order_id id (locator_of o) b.order_index) ∙ e

  place-located :
      (id : ℕ) (loc : Locator)
      → find id (place o b).order_index ≡ some loc
      → LeadsTo id loc (place o b)
  place-located id loc e = elim (Bool-cases (o.order_id == id)) [
    | inl new ↦
        let same : locator_of o ≡ loc = ground (arith, find_placed id loc e) in
        subst (λ l. LeadsTo id l (place o b)) same
          (record {
            valid_side = valid_side;
            handle = ==-eq _ _ new;
            order = o;
            found = found_self;
          })
    | inr old ↦
        let l = v.located id loc (ground (arith, find_placed id loc e)) in
        record {
          valid_side = l.valid_side;
          handle = l.handle;
          order = l.order;
          found = found_before loc l.order l.found;
        }
  ]

  -- An accepted order leaves the book valid.
  pub place-IsValid : IsValid (place o b)
  place-IsValid = record {
    levels = place-LevelsOk;
    nonempty = place-NonEmpty;
    counted = place-counted;
    located = place-located;
  }

-- `add_order` keeps the book valid, whatever it is given.
pub add_order-IsValid : (o : Order) (b : OrderBook) → IsValid b → IsValid (add_order o b).0
add_order-IsValid o b v = elim (add_order_cases o b) [
  | inl (e, _) ↦ rw e v
  | inr (e, a) ↦ rw e (place-IsValid o b a v)
]

module _ (o : Order) (b : OrderBook) (a : Accepts o b) (v : IsValid b) where
  find_order_kept :
      (id : ℕ) (loc : Locator)
      → find id b.order_index ≡ some loc
      → deref_locator loc (place o b) ≡ deref_locator loc b
  find_order_kept id loc e =
      let l = v.located id loc e in found_before o b a v loc l.order l.found ∙ sym l.found

  -- After an accepted order a lookup finds it under its id, and what it found before under others.
  pub find_order-place :
      (id : ℕ) → find_order id (place o b) ≡ (if o.order_id == id then some o else find_order id b)
  unfolding find_order place
  find_order-place id = elim (Option-cases (find id b.order_index)) [
    | inl absent ↦
        ground (arith, find-put o.order_id id (locator_of o) b.order_index, found_self o b a v)
    | inr (loc, e) ↦ ground (
      arith,
      find-put o.order_id id (locator_of o) b.order_index,
      found_self o b a v,
      find_order_kept id loc e,
    )
  ]

pub symbol_id-place : (o : Order) (b : OrderBook) → (place o b).symbol_id ≡ b.symbol_id
unfolding place
symbol_id-place o b = symbol_id-update_level o.side o.price_ticks (push_back o) b
