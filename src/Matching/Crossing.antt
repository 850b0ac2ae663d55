-- ===== src/Matching/Crossing.antt =====
-- What `crosses` says of the orders that rest on the other side.
use asterion.Prelude.{
  ℕ, ◌≡◌, ◌≢◌, refl, sym, subst, inl, inr, Bool, true, false, Option, none, some, [], arith,
  Option-cases,
}
use asterion.Prelude.Int.{ℤ}
use asterion.Core.Types.{Side, buy, sell, is_valid_side, opposite}
use asterion.Book.Queue.{Order}
use asterion.Book.PriceMap.{bid_before, ask_before}
use asterion.Book.Valid.{IsValid}
use asterion.Book.Reads.{queue_at}
use asterion.Book.Best.{IsTop, best_price_time}
use asterion.Book.Lookup.{Top-found, queue_at-found}
use asterion.Book.{OrderBook, best_bid, best_ask, best_order, find_order}
use asterion.Matching.Report.{OrderType}
use asterion.Matching.Admit.{reaches, crosses}

-- The best price of a side.
abbrev pub best_price : Side → OrderBook → Option ℤ
best_price buy b = best_bid b
best_price sell b = best_ask b
best_price Side.none b = none

-- The order that the engine trades against.
pub record Reached (side : Side) (order_type : OrderType) (limit : ℤ) (b : OrderBook) : Type 0 where
  pub order : Order
  pub is_best : best_order (opposite side) b ≡ some order
  pub found : find_order order.order_id b ≡ some order
  pub on_side : order.side ≡ opposite side
  pub reached : reaches side order_type limit order.price_ticks ≡ true

module _ (order_type : OrderType) (limit : ℤ) (b : OrderBook) (v : IsValid b) where
  crosses_best :
      (side : Side)
      → crosses side order_type limit b ≡ true
      → (p : ℤ) × (best_price (opposite side) b ≡ some p) × (reaches side order_type limit p ≡ true)
  unfolding crosses opposite
  crosses_best buy h = elim (Option-cases (best_ask b)) [
    | inl e ↦ absurd (ground arith)
    | inr (p, e) ↦ (p, e, ground arith)
  ]
  crosses_best sell h = elim (Option-cases (best_bid b)) [
    | inl e ↦ absurd (ground arith)
    | inr (p, e) ↦ (p, e, ground arith)
  ]
  crosses_best Side.none h = absurd (cc h)

  abbrev before_at : Side → ℤ → ℤ → Bool
  before_at buy = bid_before
  before_at _ = ask_before

  best_order-IsTop :
      (s : Side)
      → is_valid_side s ≡ true
      → IsTop (before_at s) (λ p. queue_at s p b) (best_price s b) (best_order s b)
  unfolding is_valid_side
  best_order-IsTop buy h = (best_price_time b v).0
  best_order-IsTop sell h = (best_price_time b v).1
  best_order-IsTop Side.none h = absurd (cc h)

  opposite_valid :
      (s : Side) (p : ℤ) → best_price (opposite s) b ≡ some p → is_valid_side (opposite s) ≡ true
  unfolding opposite is_valid_side
  opposite_valid buy p e = refl
  opposite_valid sell p e = refl
  opposite_valid Side.none p e = absurd (cc e)

  -- Where an order crosses, there is a best order on the other side, and it is within the limit.
  pub crosses-Reached :
      (side : Side) → crosses side order_type limit b ≡ true → Reached side order_type limit b
  crosses-Reached side h =
      let (p, e, r) = crosses_best side h in
      let hs = opposite_valid side p e in
      let top =
        Top-found (opposite side) (before_at (opposite side)) p (best_order (opposite side) b) b v
          hs
          (subst
            (λ x.
              IsTop (before_at (opposite side)) (λ p. queue_at (opposite side) p b) x
                (best_order (opposite side) b))
            e (best_order-IsTop (opposite side) hs)) in
      record {
        order = top.order;
        is_best = top.is_best;
        found = top.found;
        on_side = top.on_side;
        reached = subst (λ q. reaches side order_type limit q ≡ true) (sym top.at_price) r;
      }

  best_at_least :
      (s : Side) (id : ℕ) (o : Order)
      → is_valid_side s ≡ true
      → find_order id b ≡ some o
      → o.side ≡ s
      → (p : ℤ) × (best_price s b ≡ some p) × (before_at s o.price_ticks p ≡ false)
  best_at_least s id o hs found on_side =
      let nonempty : queue_at s o.price_ticks b ≢ [] =
        subst (λ t. queue_at t o.price_ticks b ≢ []) on_side (queue_at-found id o b v found) in
      elim (Option-cases (best_price s b)) [
        | inl e ↦
            let top =
              subst (λ x. IsTop (before_at s) (λ p. queue_at s p b) x (best_order s b)) e
                (best_order-IsTop s hs) in
            absurd (nonempty (top.1 o.price_ticks))
        | inr (p, e) ↦
            let top =
              subst (λ x. IsTop (before_at s) (λ p. queue_at s p b) x (best_order s b)) e
                (best_order-IsTop s hs) in
            (p, e, top.2 o.price_ticks nonempty)
      ]

  -- Where an order does not cross, no order of the other side is within its limit.
  pub crosses_unreached :
      (side : Side) (id : ℕ) (o : Order)
      → crosses side order_type limit b ≡ false
      → find_order id b ≡ some o
      → o.side ≡ opposite side
      → reaches side order_type limit o.price_ticks ≡ false
  unfolding crosses opposite is_valid_side
  crosses_unreached buy id o h found on_side =
      let (p, e, least) = best_at_least sell id o refl found on_side in ground arith
  crosses_unreached sell id o h found on_side =
      let (p, e, least) = best_at_least buy id o refl found on_side in ground arith
  crosses_unreached Side.none id o h found on_side = refl
