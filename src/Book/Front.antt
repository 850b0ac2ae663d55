-- ===== src/Book/Front.antt =====
-- `reduce_order` of the best order of a side: what it does to the levels of that side.
use asterion.Prelude.{
  ℕ, All, ◌≡◌, refl, sym, ap, subst, ◌∙◌, inl, inr, Bool, true, false, some, List, [], ◌∷◌, arith,
  if◌then◌else◌, is_empty, Bool-cases, if_true, if_false, ap₂,
}
use asterion.Prelude.Int.{ℤ, pos, ◌+ℤ◌, ◌-ℤ◌, leb_ℤ, +ℤ_zero, eq_of_parts}
use asterion.Prelude.Assoc.{find}
use asterion.Core.Types.{Side, buy, sell, is_valid_side}
use asterion.Book.Queue.{Order, child_sum, erase_node}
use asterion.Book.PriceMap.{PriceLevel, Levels, with_level, drop_level_if_empty}
use asterion.Book.PriceMap.Comparator.{bid_order, ask_order}
use asterion.Book.PriceMap.Laws.{AllLevels}
use asterion.Book.Valid.{IsValid, LevelOk, BelongsAt}
use asterion.Book.Cancel.{find_order_indexed}
use asterion.Book.Reduce.{refused, emptied, lessened, reduce_order_cases, shrunk}
use asterion.Book.Replace.{found_belongs}
use asterion.Book.{
  OrderBook, Locator, side_levels, before_of, update_level, erase_level_if_empty, unlink, shrink,
  remove, reduce_order, best_order, front, find_order, deref_locator,
}

-- The first level has `q` less, or had just that and is gone.
pub data Shortened (q : ℤ) (before after : Levels) : Type 0 where
  kept :
      (p : ℤ) (l l' : PriceLevel) (ls : Levels)
      → before ≡ (p, l) ∷ ls
      → after ≡ (p, l') ∷ ls
      → l'.total_quantity ≡ l.total_quantity -ℤ q
      → Shortened q before after
  dropped :
      (p : ℤ) (l : PriceLevel) (ls : Levels)
      → before ≡ (p, l) ∷ ls
      → after ≡ ls
      → l.total_quantity ≡ q
      → Shortened q before after

module _ (before : ℤ → ℤ → Bool) (p : ℤ) (irrefl : before p p ≡ false) (l : PriceLevel)
    (ls : Levels) where
  with_level-front :
      (f : PriceLevel → PriceLevel) → with_level before p f ((p, l) ∷ ls) ≡ (p, f l) ∷ ls
  unfolding with_level
  with_level-front f = ground (arith, irrefl)

  drop_level-front :
      drop_level_if_empty before p ((p, l) ∷ ls) ≡ (if is_empty l.orders then ls else (p, l) ∷ ls)
  unfolding drop_level_if_empty
  drop_level-front = ground (arith, irrefl)

-- The best order of a side, at the front of its first level.
record Front (s : Side) (b : OrderBook) (x : Order) : Type 0 where
  p : ℤ
  l : PriceLevel
  ls : Levels
  os : List Order
  levels : side_levels s b ≡ (p, l) ∷ ls
  orders : l.orders ≡ x ∷ os
  ok : LevelOk b.symbol_id s p l

levels_front :
    (ls : Levels) (x : Order)
    → front ls ≡ some x
    → (p : ℤ) × (l : PriceLevel) × (rest : Levels) × (os : List Order) × (ls ≡ (p, l) ∷ rest)
      × (l.orders ≡ x ∷ os)
levels_front [] x h = absurd (cc h)
levels_front ((p, l) ∷ ls) x h = let (os, orders) = go l.orders refl in (p, l, ls, os, refl, orders)
  where
    go : (xs : List Order) → l.orders ≡ xs → (os : List Order) × (l.orders ≡ x ∷ os)
    go [] e = absurd (ground arith)
    go (o ∷ os) e = (os, ground arith)

child_sum-empty : (os : List Order) → is_empty os ≡ true → child_sum os ≡ pos 0
unfolding child_sum
child_sum-empty [] h = refl
child_sum-empty (o ∷ os) h = absurd (cc h)

side_ok :
    (s : Side) (b : OrderBook) → IsValid b → AllLevels (LevelOk b.symbol_id s) (side_levels s b)
unfolding side_levels
side_ok buy b v = v.levels.bids_ok
side_ok sell b v = v.levels.asks_ok
side_ok Side.none b v = tt

best_order-Front :
    (s : Side) (b : OrderBook) (x : Order) → IsValid b → best_order s b ≡ some x → Front s b x
unfolding best_order
best_order-Front s b x v h =
    let (p, l, ls, os, levels, orders) = levels_front (side_levels s b) x h in
    record {
      p = p;
      l = l;
      ls = ls;
      os = os;
      levels = levels;
      orders = orders;
      ok = (subst (AllLevels (LevelOk b.symbol_id s)) levels (side_ok s b v)).0;
    }

side_levels-remove :
    (id : ℕ) (s : Side) (p : ℤ) (i : ℕ) (o : Order) (b : OrderBook)
    → is_valid_side s ≡ true
    → side_levels s (remove id (record { side = s; price_ticks = p; iterator = i }) o b)
      ≡ drop_level_if_empty
          (before_of s)
          p
          (with_level (before_of s) p (unlink o i) (side_levels s b))
unfolding side_levels remove erase_level_if_empty update_level drop_level_if_empty with_level
    is_valid_side
side_levels-remove id buy p i o b h = refl
side_levels-remove id sell p i o b h = refl
side_levels-remove id Side.none p i o b h = absurd (cc h)

side_levels-shrunk :
    (s : Side) (p : ℤ) (i : ℕ) (q : ℤ) (b : OrderBook)
    → is_valid_side s ≡ true
    → side_levels s (shrunk (record { side = s; price_ticks = p; iterator = i }) q b)
      ≡ with_level (before_of s) p (shrink i q) (side_levels s b)
unfolding side_levels update_level with_level is_valid_side
side_levels-shrunk buy p i q b h = refl
side_levels-shrunk sell p i q b h = refl
side_levels-shrunk Side.none p i q b h = absurd (cc h)

before_irrefl : (s : Side) (p : ℤ) → before_of s p p ≡ false
before_irrefl buy p = bid_order.irrefl p
before_irrefl sell p = ask_order.irrefl p
before_irrefl Side.none p = ask_order.irrefl p

module _ (s : Side) (b : OrderBook) (v : IsValid b) (x : Order) (fr : Front s b x)
    (found : find_order x.order_id b ≡ some x) (q : ℤ) where
  at_front : BelongsAt b.symbol_id s fr.p x
  at_front = (subst (λ os. All (BelongsAt b.symbol_id s fr.p) os) fr.orders fr.ok.belong).0

  first_total : fr.l.total_quantity ≡ x.quantity +ℤ child_sum fr.os
  unfolding child_sum
  first_total = fr.ok.total ∙ ap child_sum fr.orders

  abbrev without : PriceLevel
  without = unlink x x.order_id fr.l

  without-orders : without.orders ≡ fr.os
  unfolding erase_node
  without-orders = rw fr.orders (ground arith)

  abbrev less : PriceLevel
  less = shrink x.order_id q fr.l

  abbrev here : Locator
  here = record { side = s; price_ticks = fr.p; iterator = x.order_id }

  module _ (hs : is_valid_side s ≡ true) where
    levels-emptied :
        side_levels s (remove x.order_id here x b)
        ≡ (if is_empty fr.os then fr.ls else (fr.p, without) ∷ fr.ls)
    levels-emptied =
        let irrefl = before_irrefl s fr.p in
        side_levels-remove x.order_id s fr.p x.order_id x b hs
        ∙ ap
            (λ ls.
              drop_level_if_empty (before_of s) fr.p
                (with_level (before_of s) fr.p (unlink x x.order_id) ls))
            fr.levels
        ∙ ap (drop_level_if_empty (before_of s) fr.p)
            (with_level-front (before_of s) fr.p irrefl fr.l fr.ls (unlink x x.order_id))
        ∙ drop_level-front (before_of s) fr.p irrefl without fr.ls
        ∙ ap (λ os. if is_empty os then fr.ls else (fr.p, without) ∷ fr.ls) without-orders

    none_behind : is_empty fr.os ≡ true → fr.l.total_quantity ≡ x.quantity
    none_behind last =
        first_total ∙ ap (λ y. x.quantity +ℤ y) (child_sum-empty fr.os last) ∙ +ℤ_zero x.quantity

    emptied-Shortened :
        q ≡ x.quantity → Shortened q (side_levels s b) (side_levels s (remove x.order_id here x b))
    emptied-Shortened all = elim (Bool-cases (is_empty fr.os)) [
      | inl last ↦
          dropped fr.p fr.l fr.ls fr.levels (levels-emptied ∙ if_true _ _ last)
            (none_behind last ∙ sym all)
      | inr more ↦
          kept fr.p fr.l without fr.ls fr.levels (levels-emptied ∙ if_false _ _ more)
            (ap (λ y. fr.l.total_quantity -ℤ y) (sym all))
    ]

    lessened-Shortened : Shortened q (side_levels s b) (side_levels s (shrunk here q b))
    lessened-Shortened =
        kept fr.p fr.l less fr.ls fr.levels
          (side_levels-shrunk s fr.p x.order_id q b hs
            ∙ ap (with_level (before_of s) fr.p (shrink x.order_id q)) fr.levels
            ∙ with_level-front (before_of s) fr.p (before_irrefl s fr.p) fr.l fr.ls
                (shrink x.order_id q))
          refl

  here_located :
      (loc : Locator)
      → find x.order_id b.order_index ≡ some loc
      → deref_locator loc b ≡ some x
      → loc ≡ here
  here_located loc e there =
      let belongs = (found_belongs x.order_id loc x b v e there).1 in
      let es : loc.side ≡ s = sym belongs.on_side ∙ at_front.on_side in
      let ep : loc.price_ticks ≡ fr.p = sym belongs.at_price ∙ at_front.at_price in
      let ei = (v.located x.order_id loc e).handle in
      ap₂
        (λ side price_ticks. record {
          side = side;
          price_ticks = price_ticks;
          iterator = loc.iterator;
        })
        es ep
      ∙ ap (λ i. record { side = s; price_ticks = fr.p; iterator = i }) ei

-- A reduction of the best order of a side, by at most its quantity, takes that much off the first level.
pub best_order-Shortened :
    (s : Side) (b : OrderBook) (x : Order) (q : ℤ)
    → IsValid b
    → is_valid_side s ≡ true
    → best_order s b ≡ some x
    → find_order x.order_id b ≡ some x
    → leb_ℤ q (pos 0) ≡ false
    → leb_ℤ q x.quantity ≡ true
    → Shortened q (side_levels s b) (side_levels s (reduce_order x.order_id q b).0)
best_order-Shortened s b x q v hs best found good most =
    let fr = best_order-Front s b x v best in
    let same : (loc : Locator) (o : Order)
        → find x.order_id b.order_index ≡ some loc
        → deref_locator loc b ≡ some o
        → o ≡ x =
      λ loc o e there. ground (arith, find_order_indexed x.order_id loc b e) in
    elim (reduce_order_cases x.order_id q b v) [
      | refused why done ↦ absurd (ground arith)
      | emptied loc o _ e there all done ↦
          let is = same loc o e there in
          let at = here_located s b v x fr found q loc e (there ∙ ap (λ y. some y) is) in
          rw (done, is, at)
            (emptied-Shortened s b v x fr found q hs (ground (arith, eq_of_parts q x.quantity)))
      | lessened loc o _ e there part done ↦
          let is = same loc o e there in
          let at = here_located s b v x fr found q loc e (there ∙ ap (λ y. some y) is) in
          rw (done, at) (lessened-Shortened s b v x fr found q hs)
    ]
