-- ===== src/Matching/Fill.antt =====
-- A fill keeps the engine sound and leaves the incoming order that much less to fill.
use asterion.Prelude.{
  ℕ, ◌<◌, ◌≡◌, ◌≢◌, refl, sym, ap, subst, ◌∙◌, inl, inr, ◌⊎◌, Bool, false, some, arith, ◌==◌,
  if◌then◌else◌, Option-cases, Bool-cases, if_false, ==-eq, ==-ne,
}
use asterion.Prelude.Int.{ℤ, pos, ◌-ℤ◌, ◌≤ℤ◌, ◌<ℤ◌, leb_ℤ, min_ℤ, -ℤ_parts, eq_of_parts}
use asterion.Prelude.Assoc.{find, modify, find-modify, map_option}
use asterion.Core.Types.{Side, is_valid_side}
use asterion.Book.Queue.{Order}
use asterion.Book.Add.{resting_parts}
use asterion.Book.Replace.{find_order_belongs}
use asterion.Book.Reduce.{with_less}
use asterion.Book.Effects.{Reduces, reduce_order-found}
use asterion.Book.{OrderBook, find_order, reduce_order, order_count}
use asterion.Matching.Report.{OrderType}
use asterion.Matching.State.{OrderState}
use asterion.Matching.Sound.{Uncrossed, Backs, Named, IsSound}
use asterion.Matching.Trade.{Incoming, filled_by-Filled, traded_states}
use asterion.Matching.Loop.{filled_by}
use asterion.Matching.{MatchingEngine}

min_positive : (a b : ℤ) → pos 0 <ℤ a → pos 0 <ℤ b → leb_ℤ (min_ℤ a b) (pos 0) ≡ false
unfolding min_ℤ
min_positive a b ha hb = ground arith

min_left : (a b : ℤ) → pos 0 ≤ℤ a -ℤ min_ℤ a b
unfolding min_ℤ
min_left a b = ground (arith, -ℤ_parts a (min_ℤ a b))

-- Where the resting order outlasts the fill, the incoming order is filled.
min_all : (a b : ℤ) → leb_ℤ b (min_ℤ a b) ≡ false → a -ℤ min_ℤ a b ≡ pos 0
unfolding min_ℤ
min_all a b h = ground (arith, -ℤ_parts a (min_ℤ a b), eq_of_parts (a -ℤ min_ℤ a b) (pos 0))

module _ (id : ℕ) (side : Side) (order_type : OrderType) (limit remaining : ℤ) (e : MatchingEngine)
    (h : IsSound e) (inc : Incoming id side order_type limit remaining e) (x : Order)
    (found : find_order x.order_id e.book ≡ some x) (positive : pos 0 <ℤ remaining) where
  abbrev pub quantity : ℤ
  quantity = min_ℤ remaining x.quantity

  abbrev pub reduced : OrderBook × Bool
  reduced = reduce_order x.order_id quantity e.book

  -- The engine after the fill.
  abbrev pub filled_engine : ℕ → MatchingEngine
  filled_engine digest = record e {
    book = reduced.0;
    states = traded_states id x.order_id quantity x.price_ticks e.states;
    reports_checksum = digest;
  }

  another : x.order_id ≢ id
  another same = absurd (cc (found, inc.off_book, same))

  x_positive : pos 0 <ℤ x.quantity
  x_positive = (resting_parts x (find_order_belongs x.order_id x e.book h.valid found).1.resting).2

  pub quantity_positive : leb_ℤ quantity (pos 0) ≡ false
  quantity_positive = min_positive remaining x.quantity positive x_positive

  pub effect : Reduces x.order_id e.book h.valid x found quantity reduced
  effect = reduce_order-found x.order_id e.book h.valid x found quantity quantity_positive

  -- What the book finds after the fill, it found before: the same order, or the traded one with less.
  data Kept (j : ℕ) (y : Order) : Type 0 where
    untouched : x.order_id ≢ j → find_order j e.book ≡ some y → Kept j y
    lessened : x.order_id ≡ j → y ≡ with_less x quantity → Kept j y

  kept : (j : ℕ) (y : Order) → find_order j reduced.0 ≡ some y → Kept j y
  kept j y there = elim (Bool-cases (x.order_id == j)) [
    | inr ne ↦ untouched (==-ne _ _ ne) (sym (effect.sets.lookups j ∙ if_false _ _ ne) ∙ there)
    | inl eq ↦ elim (Bool-cases (leb_ℤ x.quantity quantity)) [
      | inl all ↦ absurd (ground (arith, effect.sets.lookups j))
      | inr part ↦ lessened (==-eq _ _ eq) (ground (arith, effect.sets.lookups j))
    ]
  ]

  from-Kept :
      (j : ℕ) (y : Order)
      → Kept j y
      → (z : Order) × (find_order j e.book ≡ some z)
        × (z.side ≡ y.side)
        × (z.price_ticks ≡ y.price_ticks)
  from-Kept j y (untouched ne there) = (y, there, refl, refl)
  from-Kept j y (lessened eq is) = (
    x,
    subst (λ i. find_order i e.book ≡ some x) eq found,
    ap (λ (o : Order). o.side) (sym is),
    ap (λ (o : Order). o.price_ticks) (sym is),
  )

  -- An order that the book finds after the fill, it found before, on its side and at its price.
  pub found_before :
      (j : ℕ) (y : Order)
      → find_order j reduced.0 ≡ some y
      → (z : Order) × (find_order j e.book ≡ some z)
        × (z.side ≡ y.side)
        × (z.price_ticks ≡ y.price_ticks)
  found_before j y there = from-Kept j y (kept j y there)

  filled-Uncrossed : Uncrossed reduced.0
  filled-Uncrossed i j y z hy hz sy sz =
      let (y', hy', sy', py') = found_before i y hy in
      let (z', hz', sz', pz') = found_before j z hz in
      ground (arith, h.uncrossed i j y' z' hy' hz' (sy' ∙ sy) (sz' ∙ sz), py', pz')

  abbrev mark : OrderState → OrderState
  mark = filled_by quantity x.price_ticks

  states_at :
      (j : ℕ)
      → find j (traded_states id x.order_id quantity x.price_ticks e.states) ≡ (
          if id == j
          then map_option mark (find j e.states)
          else if x.order_id == j
          then map_option mark (find j e.states)
          else find j e.states)
  states_at j = ground (
    arith,
    find-modify id j mark (modify x.order_id mark e.states),
    find-modify x.order_id j mark e.states,
    another,
  )

  untouched_state :
      (j : ℕ)
      → id ≢ j
      → x.order_id ≢ j
      → find j (traded_states id x.order_id quantity x.price_ticks e.states) ≡ find j e.states
  untouched_state j ne ne' = ground (arith, states_at j)

  resting_state :
      (s : OrderState)
      → find x.order_id e.states ≡ some s
      → find x.order_id (traded_states id x.order_id quantity x.price_ticks e.states)
        ≡ some (mark s)
  resting_state s there = ground (arith, states_at x.order_id, another)

  incoming_state :
      find id (traded_states id x.order_id quantity x.price_ticks e.states) ≡ some (mark inc.state)
  incoming_state = ground (arith, states_at id, inc.found, another)

  filled-Backs :
      (j : ℕ) (y : Order)
      → Kept j y
      → Backs j y (traded_states id x.order_id quantity x.price_ticks e.states)
  filled-Backs j y (untouched ne there) =
      let b = h.backed j y there in
      let off : id ≢ j = λ same. absurd (cc (there, inc.off_book, same)) in
      record {
        state = b.state;
        found = untouched_state j off ne ∙ b.found;
        same_side = b.same_side;
        same_price = b.same_price;
        is_limit_order = b.is_limit_order;
        unfilled = b.unfilled;
      }
  filled-Backs j y (lessened eq is) =
      let b = h.backed x.order_id x found in
      let f = filled_by-Filled quantity x.price_ticks b.state in
      subst (λ i. Backs i y (traded_states id x.order_id quantity x.price_ticks e.states)) eq
        (subst
          (λ o. Backs x.order_id o (traded_states id x.order_id quantity x.price_ticks e.states))
          (sym is)
          (record {
            state = mark b.state;
            found = resting_state b.state b.found;
            same_side = f.same_side ∙ b.same_side;
            same_price = f.same_limit ∙ b.same_price;
            is_limit_order = f.same_type ∙ b.is_limit_order;
            unfilled = f.unfilled ∙ ap (λ q. q -ℤ quantity) b.unfilled;
          }))

  marked-Named : (j : ℕ) (s : OrderState) → find j e.states ≡ some s → Named e.symbol_id j (mark s)
  marked-Named j s there =
      let n = h.named j s there in
      let f = filled_by-Filled quantity x.price_ticks s in
      record {
        same_id = f.same_id ∙ n.same_id;
        same_symbol = f.same_symbol ∙ n.same_symbol;
        valid_side = ap is_valid_side f.same_side ∙ n.valid_side;
      }

  pub filled-Named :
      (j : ℕ) (s : OrderState)
      → find j (traded_states id x.order_id quantity x.price_ticks e.states) ≡ some s
      → Named e.symbol_id j s
  filled-Named j s there = elim (Option-cases (find j e.states)) [
    | inl absent ↦ absurd (ground (arith, states_at j))
    | inr (s', before) ↦
        let cases : (s ≡ s') ⊎ (s ≡ mark s') = ground (arith, states_at j) in
        elim cases [
          | inl same ↦ subst (Named e.symbol_id j) (sym same) (h.named j s' before)
          | inr same ↦ subst (Named e.symbol_id j) (sym same) (marked-Named j s' before)
        ]
  ]

  -- The invariant holds after the fill.
  pub filled-IsSound : (digest : ℕ) → IsSound (filled_engine digest)
  filled-IsSound digest = record {
    valid = effect.sets.valid;
    book_symbol = effect.sets.same_symbol ∙ h.book_symbol;
    has_symbol = h.has_symbol;
    uncrossed = filled-Uncrossed;
    backed = λ j y there. filled-Backs j y (kept j y there);
    named = filled-Named;
    fresh = λ j high. ground (arith, states_at j, h.fresh j high);
    started = h.started;
  }

  -- The incoming order has that much less to fill.
  pub filled-Incoming :
      (digest : ℕ)
      → Incoming id side order_type limit (remaining -ℤ quantity) (filled_engine digest)
  filled-Incoming digest =
      let f = filled_by-Filled quantity x.price_ticks inc.state in
      record {
        off_book = ground (arith, effect.sets.lookups id, inc.off_book, another);
        state = mark inc.state;
        found = incoming_state;
        same_side = f.same_side ∙ inc.same_side;
        same_type = f.same_type ∙ inc.same_type;
        same_limit = f.same_limit ∙ inc.same_limit;
        unfilled = f.unfilled ∙ ap (λ q. q -ℤ quantity) inc.unfilled;
        nonnegative = min_left remaining x.quantity;
      }

  -- The fill ends the resting order, or the incoming one.
  pub filled_progress :
      (order_count reduced.0 < order_count e.book) ⊎ (remaining -ℤ quantity ≡ pos 0)
  filled_progress = elim (Bool-cases (leb_ℤ x.quantity quantity)) [
    | inl all ↦ inl (effect.fewer all)
    | inr part ↦ inr (min_all remaining x.quantity part)
  ]
