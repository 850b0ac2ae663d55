-- ===== src/Matching/Resting.antt =====
-- `rest_limit_order` after the loop: the rest of the incoming order goes on the book, which stays
-- uncrossed.
use asterion.Prelude.{
  ℕ, ◌≡◌, ◌≢◌, refl, sym, ap, subst, ◌∙◌, inl, inr, ◌⊎◌, true, false, none, some, arith, ◌==◌,
  Option-cases, Bool-cases, ==-eq,
}
use asterion.Prelude.Int.{ℤ, pos, ◌<ℤ◌}
use asterion.Prelude.Assoc.{find, modify, find-modify}
use asterion.Core.Types.{Side, buy, sell, opposite}
use asterion.Book.Queue.{Order, is_valid_resting_order}
use asterion.Book.Effects.{Sets, add_order-new}
use asterion.Book.{find_order, add_order}
use asterion.Matching.Report.{OrderType}
use asterion.Matching.State.{OrderState}
use asterion.Matching.Admit.{crosses, reaches}
use asterion.Matching.Crossing.{crosses_unreached}
use asterion.Matching.Sound.{IsSound, Named, Backs, Uncrossed}
use asterion.Matching.Trade.{Incoming}
use asterion.Matching.Handlers.{rest}
use asterion.Matching.{MatchingEngine, Reported, update_book, resting_order, rest_limit_order}

-- A write to the state of an order that is off the book, which keeps its name.
module _ (e : MatchingEngine) (id : ℕ) (f : OrderState → OrderState) (h : IsSound e)
    (off_book : find_order id e.book ≡ none)
    (keeps : (s : OrderState) → Named e.symbol_id id s → Named e.symbol_id id (f s)) where
  named_after :
      (j : ℕ) (s : OrderState) → find j (modify id f e.states) ≡ some s → Named e.symbol_id j s
  named_after j s there = elim (Option-cases (find j e.states)) [
    | inl absent ↦ absurd (ground (arith, find-modify id j f e.states))
    | inr (s', before) ↦ elim (Bool-cases (id == j)) [
      | inl eq ↦
          let same : f s' ≡ s = ground (arith, find-modify id j f e.states) in
          let n = subst (λ k. Named e.symbol_id k s') (sym (==-eq _ _ eq)) (h.named j s' before) in
          subst (Named e.symbol_id j) same
            (subst (λ k. Named e.symbol_id k (f s')) (==-eq _ _ eq) (keeps s' n))
      | inr ne ↦
          let same : s' ≡ s = ground (arith, find-modify id j f e.states) in
          subst (Named e.symbol_id j) same (h.named j s' before)
    ]
  ]

  backed_after :
      (j : ℕ) (o : Order) → find_order j e.book ≡ some o → Backs j o (modify id f e.states)
  backed_after j o there =
      let b = h.backed j o there in
      let ne : id ≢ j = λ same. absurd (cc (there, off_book, same)) in
      record {
        state = b.state;
        found = ground (arith, find-modify id j f e.states, b.found);
        same_side = b.same_side;
        same_price = b.same_price;
        is_limit_order = b.is_limit_order;
        unfilled = b.unfilled;
      }

  pub modify-IsSound : IsSound (record e { states = modify id f e.states })
  modify-IsSound = record {
    valid = h.valid;
    book_symbol = h.book_symbol;
    has_symbol = h.has_symbol;
    uncrossed = h.uncrossed;
    backed = backed_after;
    named = named_after;
    fresh = λ j high. ground (arith, find-modify id j f e.states, h.fresh j high);
    started = h.started;
  }

module _ (id : ℕ) (side : Side) (limit remaining t : ℤ) (r : Reported) (h : IsSound r.engine)
    (inc : Incoming id side OrderType.limit limit remaining r.engine) (nonzero : id ≢ 0)
    (priced : pos 0 <ℤ limit) (left : pos 0 <ℤ remaining)
    (quiet : crosses side OrderType.limit limit r.engine.book ≡ false) where
  abbrev o : Order
  o = resting_order inc.state remaining t

  abbrev name : Named r.engine.symbol_id id inc.state
  name = h.named id inc.state inc.found

  o-IsValid : is_valid_resting_order o ≡ true
  unfolding is_valid_resting_order
  o-IsValid = ground (
    arith, name.same_id, name.same_symbol, name.valid_side, inc.same_limit, h.has_symbol, nonzero,
  )

  added : Sets o.order_id (some o) r.engine.book (add_order o r.engine.book)
  added =
      add_order-new o r.engine.book h.valid o-IsValid (name.same_symbol ∙ sym h.book_symbol)
        (ap (λ i. find_order i r.engine.book) name.same_id ∙ inc.off_book)

  pub rested : rest id remaining t r ≡ update_book (add_order o r.engine.book).0 r
  unfolding rest rest_limit_order
  rested = ground (arith, inc.found, added.accepted)

  found_after :
      (j : ℕ) (x : Order)
      → find_order j (add_order o r.engine.book).0 ≡ some x
      → ((id ≡ j) × (x ≡ o)) ⊎ (find_order j r.engine.book ≡ some x)
  found_after j x there = ground (arith, added.lookups j, name.same_id)

  unreached_after :
      (j : ℕ) (y : Order)
      → find_order j r.engine.book ≡ some y
      → y.side ≡ opposite side
      → reaches side OrderType.limit limit y.price_ticks ≡ false
  unreached_after j y there on =
      crosses_unreached OrderType.limit limit r.engine.book h.valid side j y quiet there on

  above_bids :
      side ≡ sell
      → (i : ℕ) (x : Order) → find_order i r.engine.book ≡ some x
      → x.side ≡ buy
      → x.price_ticks <ℤ limit
  unfolding opposite
  above_bids is i x there on =
      let out = unreached_after i x there (on ∙ ap opposite (sym is)) in
      let out' = subst (λ s. reaches s OrderType.limit limit x.price_ticks ≡ false) is out in
      ground arith

  below_asks :
      side ≡ buy
      → (j : ℕ) (y : Order) → find_order j r.engine.book ≡ some y
      → y.side ≡ sell
      → limit <ℤ y.price_ticks
  unfolding opposite
  below_asks is j y there on =
      let out = unreached_after j y there (on ∙ ap opposite (sym is)) in
      let out' = subst (λ s. reaches s OrderType.limit limit y.price_ticks ≡ false) is out in
      ground arith

  side_of_new : (x : Order) (s : Side) → x ≡ o → x.side ≡ s → side ≡ s
  side_of_new x s is on = sym inc.same_side ∙ ap (λ (y : Order). y.side) (sym is) ∙ on

  price_of_new : (x : Order) → x ≡ o → x.price_ticks ≡ limit
  price_of_new x is = ap (λ (y : Order). y.price_ticks) is ∙ inc.same_limit

  rested-Uncrossed : Uncrossed (add_order o r.engine.book).0
  unfolding opposite
  rested-Uncrossed i j x y hx hy sx sy = elim (found_after i x hx) [
    | inr old ↦ elim (found_after j y hy) [
      | inr old' ↦ h.uncrossed i j x y old old' sx sy
      | inl (_, new) ↦
          subst (λ p. x.price_ticks <ℤ p) (sym (price_of_new y new))
            (above_bids (side_of_new y sell new sy) i x old sx)
    ]
    | inl (_, new) ↦ elim (found_after j y hy) [
      | inr old' ↦
          subst (λ p. p <ℤ y.price_ticks) (sym (price_of_new x new))
            (below_asks (side_of_new x buy new sx) j y old' sy)
      | inl (_, new') ↦ absurd (cc (sx, sy, new, new'))
    ]
  ]

  rested-Backs :
      (j : ℕ) (x : Order)
      → find_order j (add_order o r.engine.book).0 ≡ some x
      → Backs j x r.engine.states
  rested-Backs j x there = elim (found_after j x there) [
    | inr old ↦ h.backed j x old
    | inl (eq, is) ↦
        subst (λ k. Backs k x r.engine.states) eq
          (subst (λ y. Backs id y r.engine.states) (sym is)
            (record {
              state = inc.state;
              found = inc.found;
              same_side = refl;
              same_price = refl;
              is_limit_order = inc.same_type;
              unfilled = inc.unfilled;
            }))
  ]

  -- The engine is sound with the order on the book.
  pub rest-IsSound : IsSound (rest id remaining t r).engine
  unfolding update_book
  rest-IsSound = rw rested (record {
    valid = added.valid;
    book_symbol = added.same_symbol ∙ h.book_symbol;
    has_symbol = h.has_symbol;
    uncrossed = rested-Uncrossed;
    backed = rested-Backs;
    named = h.named;
    fresh = h.fresh;
    started = h.started;
  })

  -- It is the order that the book now finds under its id.
  pub rest-found : find_order id (rest id remaining t r).engine.book ≡ some o
  unfolding update_book
  rest-found = rw rested (ground (arith, added.lookups id, name.same_id))
