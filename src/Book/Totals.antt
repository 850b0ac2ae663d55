-- ===== src/Book/Totals.antt =====
-- `total_quantity_at` over `add_order` and `cancel_order`.
use asterion.Prelude.{Bool, ◌≡◌, sym, ap, ◌∙◌, inl, inr, subst, true, some, arith, if_true, ==_self}
use asterion.Prelude.Int.{ℤ, ◌+ℤ◌, ◌-ℤ◌, int_laws}
use asterion.Core.Types.{Side, is_valid_side}
use asterion.Book.Queue.{Order, child_sum}
use asterion.Book.Queue.Laws.{child_sum-append, child_sum-erase_node}
use asterion.Book.Places.{Elsewhere, place_cases}
use asterion.Book.Valid.{IsValid}
use asterion.Book.Reads.{queue_at}
use asterion.Book.Add.{add_order_cases, resting_parts, add_order-IsValid, find_order-place}
use asterion.Book.Cancel.{cancel_order-IsValid}
use asterion.Book.Priority.{add_order-queue_at, cancel_order-queue_at, total_quantity_at-child_sum}
use asterion.Book.{OrderBook, add_order, cancel_order, find_order, total_quantity_at}

module _ (o : Order) (b : OrderBook) (v : IsValid b) (done : (add_order o b).1 ≡ true) where
  abbrev added : OrderBook
  added = (add_order o b).0

  abbrev gone : OrderBook
  gone = (cancel_order o.order_id added).0

  added-IsValid : IsValid added
  added-IsValid = add_order-IsValid o b v

  -- Its side is valid, and it is found.
  on_book : (is_valid_side o.side ≡ true) × (find_order o.order_id added ≡ some o)
  on_book = elim (add_order_cases o b) [
    | inl (e, _) ↦ absurd (ground arith)
    | inr (e, a) ↦ (
      (resting_parts o a.resting).0,
      ap (λ (x : OrderBook × Bool). find_order o.order_id x.0) e
          ∙ find_order-place o b a v o.order_id
          ∙ if_true _ _ (==_self o.order_id),
    )
  ]

  total_of_queue :
      (s : Side) (p : ℤ) (c d : OrderBook)
      → IsValid c
      → IsValid d
      → is_valid_side s ≡ true
      → queue_at s p c ≡ queue_at s p d
      → total_quantity_at s p c ≡ total_quantity_at s p d
  total_of_queue s p c d vc vd h same =
      total_quantity_at-child_sum s p c vc h
      ∙ ap child_sum same
      ∙ sym (total_quantity_at-child_sum s p d vd h)

  total-added :
      total_quantity_at o.side o.price_ticks added
      ≡ total_quantity_at o.side o.price_ticks b +ℤ o.quantity
  total-added =
      let side = on_book.0 in
      total_quantity_at-child_sum o.side o.price_ticks added added-IsValid side
      ∙ ap child_sum (add_order-queue_at o b done).0
      ∙ child_sum-append (queue_at o.side o.price_ticks b) o
      ∙ ap (λ q. q +ℤ o.quantity) (sym (total_quantity_at-child_sum o.side o.price_ticks b v side))

  total-gone :
      total_quantity_at o.side o.price_ticks gone ≡ total_quantity_at o.side o.price_ticks b
  total-gone =
      let side = on_book.0 in
      let taken = cancel_order-queue_at o.order_id o added added-IsValid on_book.1 in
      total_quantity_at-child_sum o.side o.price_ticks gone
        (cancel_order-IsValid o.order_id added added-IsValid) side
      ∙ ap child_sum taken.2
      ∙ child_sum-erase_node o.order_id (queue_at o.side o.price_ticks added) {o = o} taken.1
      ∙ ap (λ q. q -ℤ o.quantity)
          (sym (total_quantity_at-child_sum o.side o.price_ticks added added-IsValid side)
            ∙ total-added)
      ∙ back_again (total_quantity_at o.side o.price_ticks b) o.quantity
    where
      back_again : (x y : ℤ) → x +ℤ y -ℤ y ≡ x
      back_again x y = omega int_laws

-- An order is added to a valid book and accepted. What the book reports at its side and price goes up by
-- its quantity, what it reports at every other valid side and price stays, and when the order is
-- cancelled again, what it reports at any valid side and price is what it was before.
pub total_quantity_at-add_order :
    (o : Order) (b : OrderBook)
    → IsValid b
    → (add_order o b).1 ≡ true
    → let c = (add_order o b).0 in
      (total_quantity_at o.side o.price_ticks c
        ≡ total_quantity_at o.side o.price_ticks b +ℤ o.quantity)
      × ((t : Side) (j : ℤ)
          → is_valid_side t ≡ true
          → Elsewhere o.side o.price_ticks t j
          → total_quantity_at t j c ≡ total_quantity_at t j b)
      × ((t : Side) (j : ℤ)
          → is_valid_side t ≡ true
          → total_quantity_at t j (cancel_order o.order_id c).0 ≡ total_quantity_at t j b)
total_quantity_at-add_order o b v done =
    let c = (add_order o b).0 in
    let vc = added-IsValid o b v done in
    let elsewhere =
      λ (t : Side) (j : ℤ) (h : is_valid_side t ≡ true) (ne : Elsewhere o.side o.price_ticks t j).
        total_of_queue o b v done t j c b vc v h ((add_order-queue_at o b done).1 t j ne) in
    (
      total-added o b v done,
      elsewhere,
      λ t j h. elim (place_cases o.side t o.price_ticks j) [
        | inl (side, price) ↦
            subst (λ s. total_quantity_at s j (gone o b v done) ≡ total_quantity_at s j b) side
              (subst
                (λ p. total_quantity_at o.side p (gone o b v done) ≡ total_quantity_at o.side p b)
                price (total-gone o b v done))
        | inr ne ↦
            total_of_queue o b v done t j (gone o b v done) c (cancel_order-IsValid o.order_id c vc)
              vc h ((cancel_order-queue_at o.order_id o c vc (on_book o b v done).1).3 t j ne)
            ∙ elsewhere t j h ne
      ],
    )
