-- ===== src/Book/Priority.antt =====
-- Time priority in `add_order`, `cancel_order`, `reduce_order` and `replace_order`: what each does to
-- the queue of every side and price.
use asterion.Prelude.{
  ℕ, ◌≡◌, refl, sym, ◌∙◌, ap, subst, inl, inr, true, false, some, [], ◌∷◌, ◌++◌, arith,
  Option-cases,
}
use asterion.Prelude.Int.{ℤ, pos, leb_ℤ}
use asterion.Prelude.Assoc.{find}
use asterion.Core.Types.{Side, is_valid_side}
use asterion.Book.Queue.{Order, deref, erase_node, child_sum}
use asterion.Book.Places.{Elsewhere}
use asterion.Book.Valid.{IsValid}
use asterion.Book.Valid.Update.{LevelOk-level}
use asterion.Book.Reads.{queue_at}
use asterion.Book.Add.{add_order_cases, resting_parts, queue_at-place_self, queue_at-place_ne}
use asterion.Book.Cancel.{cancel_order_cases, in_queue, queue_at-remove_self, queue_at-remove_ne}
use asterion.Book.Replace.{
  Replaced, refused, renews, replace_order_cases, found_belongs, find_order_belongs,
}
use asterion.Book.{
  OrderBook, Locator, add_order, cancel_order, replace_order, replacement, place, remove,
  total_quantity_at, level, find_order, deref_locator,
}

-- An accepted order goes to the back of the queue of its side and price, and no other queue changes.
pub add_order-queue_at :
    (o : Order) (b : OrderBook)
    → (add_order o b).1 ≡ true
    → (queue_at o.side o.price_ticks (add_order o b).0 ≡ queue_at o.side o.price_ticks b ++ o ∷ [])
      × ((t : Side) (j : ℤ)
          → Elsewhere o.side o.price_ticks t j
          → queue_at t j (add_order o b).0 ≡ queue_at t j b)
add_order-queue_at o b done = elim (add_order_cases o b) [
  | inl (e, bad) ↦ absurd (cc (ap (λ x. x.1) e, done))
  | inr (e, a) ↦ rw e (
    queue_at-place_self o b (resting_parts o a.resting).0,
    λ t j ne. queue_at-place_ne o b t j ne,
  )
]

abbrev TakenOut : ℕ → Order → Side → ℤ → OrderBook → OrderBook → Type 0
TakenOut id o s p b c =
    (deref id (queue_at s p b) ≡ some o)
    × (queue_at s p c ≡ erase_node id (queue_at s p b))
    × ((t : Side) (j : ℤ) → Elsewhere s p t j → queue_at t j c ≡ queue_at t j b)

-- In a valid book where an order is found under an id, the cancel of the id is accepted. It takes the
-- order out of the queue of its side and price, leaving the others there in their order, and no other
-- queue changes.
pub cancel_order-queue_at :
    (id : ℕ) (o : Order) (b : OrderBook)
    → IsValid b
    → find_order id b ≡ some o
    → ((cancel_order id b).1 ≡ true)
      × (deref id (queue_at o.side o.price_ticks b) ≡ some o)
      × (queue_at o.side o.price_ticks (cancel_order id b).0
          ≡ erase_node id (queue_at o.side o.price_ticks b))
      × ((t : Side) (j : ℤ)
          → Elsewhere o.side o.price_ticks t j
          → queue_at t j (cancel_order id b).0 ≡ queue_at t j b)
cancel_order-queue_at id o b v here = elim (cancel_order_cases id b v) [
  | inl (_, absent, _) ↦ absurd (cc (absent, here))
  | inr (loc, x, e, found, there, done) ↦
      let same : x ≡ o = ground (arith, here, there) in
      let belongs = (found_belongs id loc x b v e found).1 in
      let side : loc.side ≡ o.side = sym belongs.on_side ∙ ap (λ (y : Order). y.side) same in
      let price : loc.price_ticks ≡ o.price_ticks =
        sym belongs.at_price ∙ ap (λ (y : Order). y.price_ticks) same in
      let taken : TakenOut id x loc.side loc.price_ticks b (remove id loc x b) = (
        in_queue id loc x b v e found,
        queue_at-remove_self id loc x b v e found,
        λ t j ne. queue_at-remove_ne id loc x b v e found t j ne,
      ) in
      let at_order =
        subst (λ s. TakenOut id o s o.price_ticks b (remove id loc x b)) side
          (subst (λ p. TakenOut id o loc.side p b (remove id loc x b)) price
            (subst (λ y. TakenOut id y loc.side loc.price_ticks b (remove id loc x b)) same
              taken)) in
      rw done (refl, at_order.0, at_order.1, at_order.2)
]

-- The quantity that a valid book reports at a valid side and a price.
pub total_quantity_at-child_sum :
    (s : Side) (p : ℤ) (b : OrderBook)
    → IsValid b
    → is_valid_side s ≡ true
    → total_quantity_at s p b ≡ child_sum (queue_at s p b)
unfolding total_quantity_at queue_at level child_sum
total_quantity_at-child_sum s p b v h = elim (Option-cases (level s p b)) [
  | inl absent ↦ ground arith
  | inr (l, there) ↦ ground (arith, (LevelOk-level s p b h v.levels there).total)
]

renewed_queue :
    (id : ℕ) (loc : Locator) (o : Order) (quantity t : ℤ) (n : ℕ) (b : OrderBook)
    → IsValid b
    → find id b.order_index ≡ some loc
    → deref_locator loc b ≡ some o
    → queue_at o.side o.price_ticks
        (place (replacement o o.price_ticks quantity t n) (remove id loc o b))
      ≡ erase_node id (queue_at o.side o.price_ticks b)
        ++ replacement o o.price_ticks quantity t n ∷ []
renewed_queue id loc o quantity t n b v e found =
    let belongs = (found_belongs id loc o b v e found).1 in
    let removed : queue_at o.side o.price_ticks (remove id loc o b)
        ≡ erase_node id (queue_at o.side o.price_ticks b) =
      subst
        (λ s.
          queue_at s o.price_ticks (remove id loc o b) ≡ erase_node id (queue_at s o.price_ticks b))
        (sym belongs.on_side)
        (subst
          (λ p. queue_at loc.side p (remove id loc o b) ≡ erase_node id (queue_at loc.side p b))
          (sym belongs.at_price) (queue_at-remove_self id loc o b v e found)) in
    let r = replacement o o.price_ticks quantity t n in
    queue_at-place_self r (remove id loc o b) (resting_parts o belongs.resting).0
    ∙ ap (λ x. x ++ r ∷ []) removed

-- An accepted replace of a valid book, at the price where the order rests, still sends it to the back
-- of the queue: it gives up its time priority.
pub replace_order-queue_at :
    (id : ℕ) (o : Order) (quantity timestamp_ns : ℤ) (sequence_number : ℕ) (b : OrderBook)
    → IsValid b
    → find_order id b ≡ some o
    → leb_ℤ quantity (pos 0) ≡ false
    → queue_at o.side o.price_ticks
        (replace_order id o.price_ticks quantity timestamp_ns sequence_number b).0
      ≡ erase_node id (queue_at o.side o.price_ticks b)
        ++ replacement o o.price_ticks quantity timestamp_ns sequence_number ∷ []
replace_order-queue_at id o quantity t n b v here good =
    go (replace_order_cases id o.price_ticks quantity t n b v)
  where
    go :
        Replaced id o.price_ticks quantity t n b v
        → queue_at o.side o.price_ticks (replace_order id o.price_ticks quantity t n b).0
          ≡ erase_node id (queue_at o.side o.price_ticks b)
            ++ replacement o o.price_ticks quantity t n ∷ []
    go (refused why done) =
        absurd (ground (arith, here, good, find_order_belongs id o b v here, resting_parts o))
    go (renews loc o' fit there at found a done) =
        let same : o' ≡ o = ground (arith, here, there) in
        let done' : replace_order id o.price_ticks quantity t n b
            ≡ (place (replacement o o.price_ticks quantity t n) (remove id loc o b), true) =
          subst
            (λ x.
              replace_order id o.price_ticks quantity t n b
              ≡ (place (replacement x o.price_ticks quantity t n) (remove id loc x b), true))
            same done in
        rw done' (renewed_queue id loc o quantity t n b v at (found ∙ ap (λ x. some x) same))
