-- ===== src/Book/Lookup.antt =====
-- What `find_order` finds: exactly the orders of the queues, and among them the best order of a side.
use asterion.Prelude.{
  ℕ, ◌+◌, ◌≤◌, ◌≡◌, ◌≢◌, refl, sym, ap, subst, ◌∙◌, inl, inr, Bool, true, Option, some, List, [],
  ◌∷◌, arith, ==_self, Option-cases,
}
use asterion.Prelude.Int.{ℤ}
use asterion.Prelude.Assoc.{find}
use asterion.Core.Types.{Side, is_valid_side}
use asterion.Book.Queue.{Order, deref, occurs}
use asterion.Book.Queue.Laws.{occurs_of_deref, All_of_deref}
use asterion.Book.Places.{Elsewhere, place_cases, occurs_book, occurs-update_level}
use asterion.Book.Valid.{IsValid, LeadsTo}
use asterion.Book.Cancel.{in_queue, find_order_indexed, cancel_order_cases}
use asterion.Book.Valid.Update.{level_or_new-ok}
use asterion.Book.Reads.{
  queue_at, deref_locator-queue_at, queue_at-update_level_ne, occurs-queue_at-le,
}
use asterion.Book.Replace.{found_belongs}
use asterion.Book.Best.{IsTop, first}
use asterion.Book.{OrderBook, Locator, find_order, update_level}

-- Two places together hold an id at most as often as the book.
occurs_two_places :
    (id : ℕ) (s t : Side) (p j : ℤ) (b : OrderBook)
    → is_valid_side s ≡ true
    → is_valid_side t ≡ true
    → Elsewhere s p t j
    → occurs id (queue_at s p b) + occurs id (queue_at t j b) ≤ occurs_book id b
unfolding occurs queue_at
occurs_two_places id s t p j b hs ht ne =
    let emptied = update_level s p (λ l. record l { orders = [] }) b in
    omega (
      arith,
      occurs-update_level p (λ l. record l { orders = [] }) b id s hs,
      occurs-queue_at-le id t j emptied ht,
      ap (occurs id) (queue_at-update_level_ne p (λ l. record l { orders = [] }) b s t j ne),
    )

module _ (id : ℕ) (s : Side) (p : ℤ) (x : Order) (b : OrderBook) (v : IsValid b)
    (hs : is_valid_side s ≡ true) (here : deref id (queue_at s p b) ≡ some x) where
  pub indexed_queued : (loc : Locator) → find id b.order_index ≡ some loc → LeadsTo id loc b
  indexed_queued loc e = v.located id loc e

  queued_found : (loc : Locator) → find id b.order_index ≡ some loc → find_order id b ≡ some x
  queued_found loc e =
      let lead = v.located id loc e in
      let there : deref id (queue_at loc.side loc.price_ticks b) ≡ some lead.order =
        in_queue id loc lead.order b v e lead.found in
      elim (place_cases s loc.side p loc.price_ticks) [
        | inl (same_side, same_price) ↦
            find_order_indexed id loc b e
            ∙ deref_locator-queue_at loc b
            ∙ ap (λ i. deref i (queue_at loc.side loc.price_ticks b)) lead.handle
            ∙ subst (λ t. deref id (queue_at t loc.price_ticks b) ≡ some x) same_side
                (subst (λ j. deref id (queue_at s j b) ≡ some x) same_price here)
        | inr ne ↦ absurd (
            ground (
              arith,
              occurs_two_places id s loc.side p loc.price_ticks b hs lead.valid_side ne,
              occurs_of_deref id (queue_at s p b) here,
              occurs_of_deref id (queue_at loc.side loc.price_ticks b) there,
              v.counted id,
              e,
            ))
      ]

  -- An order of a queue is what the book finds under its id.
  pub find_order-queued : find_order id b ≡ some x
  find_order-queued = elim (Option-cases (find id b.order_index)) [
    | inl absent ↦ absurd (
        ground (
          arith,
          occurs_of_deref id (queue_at s p b) here,
          occurs-queue_at-le id s p b hs,
          v.counted id,
          absent,
        ))
    | inr (loc, e) ↦ queued_found loc e
  ]

first_queued :
    (q : List Order) → q ≢ [] → (o : Order) × (first q ≡ some o) × (deref o.order_id q ≡ some o)
unfolding deref
first_queued [] ne = absurd (ne refl)
first_queued (o ∷ os) ne = (o, refl, ground (arith, ==_self o.order_id))

-- The best order of a side, as `find_order` finds it.
pub record Top (s : Side) (p : ℤ) (best : Option Order) (b : OrderBook) : Type 0 where
  pub order : Order
  pub is_best : best ≡ some order
  pub found : find_order order.order_id b ≡ some order
  pub on_side : order.side ≡ s
  pub at_price : order.price_ticks ≡ p

pub Top-found :
    (s : Side) (before : ℤ → ℤ → Bool) (p : ℤ) (best : Option Order) (b : OrderBook)
    → IsValid b
    → is_valid_side s ≡ true
    → IsTop before (λ p. queue_at s p b) (some p) best
    → Top s p best b
unfolding queue_at
Top-found s before p best b v hs (ne, e, _) =
    let (o, is_first, here) = first_queued (queue_at s p b) ne in
    let belongs =
      All_of_deref _ o.order_id (queue_at s p b) (level_or_new-ok s p b hs v.levels).1 here in
    record {
      order = o;
      is_best = e ∙ is_first;
      found = find_order-queued o.order_id s p o b v hs here;
      on_side = belongs.on_side;
      at_price = belongs.at_price;
    }

-- An order that is found stands in the queue of its side and price.
pub queued_where_found :
    (id : ℕ) (o : Order) (b : OrderBook)
    → IsValid b
    → find_order id b ≡ some o
    → deref id (queue_at o.side o.price_ticks b) ≡ some o
queued_where_found id o b v h = elim (cancel_order_cases id b v) [
  | inl (_, absent, _) ↦ absurd (cc (absent, h))
  | inr (loc, x, e, found, here, _) ↦
      let same : x ≡ o = ground (arith, h, here) in
      let belongs = (found_belongs id loc x b v e found).1 in
      subst (λ (y : Order). deref id (queue_at y.side y.price_ticks b) ≡ some y) same
        (subst (λ s. deref id (queue_at s x.price_ticks b) ≡ some x) (sym belongs.on_side)
          (subst (λ p. deref id (queue_at loc.side p b) ≡ some x) (sym belongs.at_price)
            (in_queue id loc x b v e found)))
]

pub queue_at-found :
    (id : ℕ) (o : Order) (b : OrderBook)
    → IsValid b
    → find_order id b ≡ some o
    → queue_at o.side o.price_ticks b ≢ []
unfolding deref
queue_at-found id o b v h empty =
    let e = queued_where_found id o b v h in absurd (cc (e, ap (deref id) empty))
