-- ===== src/Matching/Fillable.antt =====
-- `can_fully_fill` against the loop: what a fill leaves of the quantity that the other side can fill.
use asterion.Prelude.{
  ℕ, zero, suc, ◌≡◌, refl, sym, ap, subst, ◌∙◌, inl, inr, ◌⊎◌, Bool, true, ◌&&◌, ◌||◌, some, List,
  [], ◌∷◌, map, take, arith,
}
use asterion.Prelude.Int.{ℤ, pos, ◌-ℤ◌, ◌≤ℤ◌, leb_ℤ, -ℤ_parts, eq_of_parts, int_laws}
use asterion.Core.Types.{Side, buy, sell, opposite, is_valid_side, eqb_side}
use asterion.Book.PriceMap.{Levels}
use asterion.Book.Depth.{L2Level, l2_view-take, to_l2}
use asterion.Book.Front.{Shortened, kept, dropped}
use asterion.Book.{OrderBook, side_levels, first_price, best_bid, best_ask, order_count}
use asterion.Matching.Admit.{NewOrderRequest, fillable, can_fully_fill, crosses}
use asterion.Matching.{is_market}

module _ (r : NewOrderRequest) where
  -- What is left of the order can be filled by the levels, or nothing is left.
  pub data Covered (remaining : ℤ) (ls : Levels) : Type 0 where
    nothing_left : remaining ≡ pos 0 → Covered remaining ls
    fills_rest : fillable r remaining (map to_l2 ls) ≡ true → Covered remaining ls

  fillable-take :
      (n : ℕ) (required : ℤ) (ls : List L2Level)
      → fillable r required (take n ls) ≡ true
      → fillable r required ls ≡ true
  unfolding fillable
  fillable-take zero required ls h = absurd (cc h)
  fillable-take (suc n) required [] h = h
  fillable-take (suc n) required (l ∷ ls) h =
      ground (arith, fillable-take n (required -ℤ l.quantity) ls)

  fillable-less :
      (required q : ℤ) (l l' : L2Level) (ls : List L2Level)
      → l'.price_ticks ≡ l.price_ticks
      → l'.quantity ≡ l.quantity -ℤ q
      → fillable r required (l ∷ ls) ≡ true
      → fillable r (required -ℤ q) (l' ∷ ls) ≡ true
  unfolding fillable
  fillable-less required q l l' ls ep eq h =
      let same : required -ℤ q -ℤ (l.quantity -ℤ q) ≡ required -ℤ l.quantity = omega int_laws in
      ground (arith, ep, eq, same, -ℤ_parts required q, -ℤ_parts l.quantity q)

  fillable-gone :
      (required : ℤ) (l : L2Level) (ls : List L2Level)
      → l.quantity ≤ℤ required
      → fillable r required (l ∷ ls) ≡ true
      → (required -ℤ l.quantity ≡ pos 0) ⊎ (fillable r (required -ℤ l.quantity) ls ≡ true)
  unfolding fillable
  fillable-gone required l ls most h =
      ground (arith, -ℤ_parts required l.quantity, eq_of_parts (required -ℤ l.quantity) (pos 0))

  pub Shortened-Covered :
      (remaining q : ℤ) (before after : Levels)
      → q ≤ℤ remaining
      → Shortened q before after
      → fillable r remaining (map to_l2 before) ≡ true
      → Covered (remaining -ℤ q) after
  Shortened-Covered remaining q before after most (kept p l l' ls eb ea total) h =
      subst (Covered (remaining -ℤ q)) (sym ea) (
        fills_rest (
          fillable-less remaining q (to_l2 (p, l)) (to_l2 (p, l')) (map to_l2 ls) refl total
            (subst (λ x. fillable r remaining (map to_l2 x) ≡ true) eb h)))
  Shortened-Covered remaining q before after most (dropped p l ls eb ea total) h =
      elim (fillable-gone remaining (to_l2 (p, l)) (map to_l2 ls) (ground arith)
        (subst (λ x. fillable r remaining (map to_l2 x) ≡ true) eb h)) [
          | inl zeroed ↦ nothing_left (ap (λ x. remaining -ℤ x) (sym total) ∙ zeroed)
          | inr rest ↦
              subst (λ x. Covered (remaining -ℤ x) after) total
                (subst (Covered (remaining -ℤ l.total_quantity)) (sym ea) (fills_rest rest))
        ]

  abbrev executable : ℤ → Bool
  executable p =
      is_market r.order_type
      || eqb_side r.side buy && leb_ℤ p r.price_ticks
      || eqb_side r.side sell && leb_ℤ r.price_ticks p

  first_executable :
      (required : ℤ) (ls : Levels)
      → fillable r required (map to_l2 ls) ≡ true
      → (p : ℤ) × (first_price ls ≡ some p) × (executable p ≡ true)
  unfolding fillable
  first_executable required [] h = absurd (cc h)
  first_executable required ((p, l) ∷ ls) h = (p, refl, ground arith)

  executable-crosses :
      (s : Side) (p : ℤ) (b : OrderBook)
      → r.side ≡ s
      → is_valid_side s ≡ true
      → first_price (side_levels (opposite s) b) ≡ some p
      → executable p ≡ true
      → crosses s r.order_type r.price_ticks b ≡ true
  unfolding crosses is_valid_side opposite side_levels best_bid best_ask eqb_side
  executable-crosses buy p b e h first ex = ground (arith, e)
  executable-crosses sell p b e h first ex = ground (arith, e)
  executable-crosses Side.none p b e h first ex = absurd (cc h)

  -- Levels that can fill some of the order are reached by it.
  pub fillable-crosses :
      (required : ℤ) (b : OrderBook)
      → is_valid_side r.side ≡ true
      → fillable r required (map to_l2 (side_levels (opposite r.side) b)) ≡ true
      → crosses r.side r.order_type r.price_ticks b ≡ true
  fillable-crosses required b hs h =
      let (p, first, ex) = first_executable required (side_levels (opposite r.side) b) h in
      executable-crosses r.side p b refl hs first ex

  fillable-side :
      (s : Side) (b : OrderBook)
      → r.side ≡ s
      → is_valid_side s ≡ true
      → can_fully_fill r b ≡ true
      → fillable r r.quantity (map to_l2 (side_levels (opposite s) b)) ≡ true
  unfolding can_fully_fill is_valid_side opposite side_levels eqb_side
  fillable-side buy b e h full =
      fillable-take (order_count b) r.quantity (map to_l2 b.asks)
        (ground (arith, e, l2_view-take (order_count b) b))
  fillable-side sell b e h full =
      fillable-take (order_count b) r.quantity (map to_l2 b.bids)
        (ground (arith, e, l2_view-take (order_count b) b))
  fillable-side Side.none b e h full = absurd (cc h)

  -- What the test looks for is on the other side.
  pub can_fully_fill-Covered :
      (b : OrderBook)
      → is_valid_side r.side ≡ true
      → can_fully_fill r b ≡ true
      → Covered r.quantity (side_levels (opposite r.side) b)
  can_fully_fill-Covered b hs full = fills_rest (fillable-side r.side b refl hs full)
