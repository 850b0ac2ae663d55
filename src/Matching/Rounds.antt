-- ===== src/Matching/Rounds.antt =====
-- The loop of `match_against_book`: every turn keeps the engine sound, and with one turn more than
-- there are orders it ends for the reason that the source's condition gives.
use asterion.Prelude.{
  ℕ, zero, suc, ◌≤◌, ◌<◌, ◌≡◌, refl, sym, ap, subst, ◌∙◌, inl, inr, ◌⊎◌, Bool, true, false, ◌&&◌,
  some, arith, if◌then◌else◌, Bool-cases, if_true, All,
}
use asterion.Prelude.Int.{ℤ, pos, ◌-ℤ◌, ◌<ℤ◌, ◌≤ℤ◌, ltb_ℤ, leb_ℤ, min_ℤ}
use asterion.Core.Types.{Side, opposite, is_valid_side}
use asterion.Book.Add.{resting_parts}
use asterion.Book.Replace.{find_order_belongs}
use asterion.Book.Front.{Shortened, best_order-Shortened}
use asterion.Book.Queue.{Order}
use asterion.Book.Effects.{order_count-found}
use asterion.Book.{find_order, best_order, reduce_order, order_count, side_levels}
use asterion.Matching.Report.{OrderType}
use asterion.Matching.Admit.{crosses, reaches}
use asterion.Matching.Crossing.{crosses-Reached}
use asterion.Matching.Sound.{IsSound, digest_of}
use asterion.Matching.State.{OrderState}
use asterion.Prelude.Assoc.{find}
use asterion.Matching.Trade.{Incoming, trade-engine, traded_states}
use asterion.Matching.Fill.{
  quantity_positive, filled_engine, effect, filled-IsSound, filled-Incoming, filled_progress,
  filled-Named, found_before,
}
use asterion.Matching.Prices.{IsFair, trade-IsFair}
use asterion.Matching.Loop.{
  Round, trade, fill, match_best, turn, turn_of, stop, match_loop, match_against_book,
}
use asterion.Matching.{MatchingEngine, Reported, update_book}

min_below : (a b : ℤ) → min_ℤ a b ≤ℤ a
unfolding min_ℤ
min_below a b = ground arith

min_at_most : (a b : ℤ) → leb_ℤ (min_ℤ a b) b ≡ true
unfolding min_ℤ
min_at_most a b = ground arith

module _ (id : ℕ) (side : Side) (order_type : OrderType) (limit t : ℤ) where
  -- Sound, with the incoming order off the book and `remaining` of it left.
  abbrev pub InLoop : Reported → ℤ → Type 0
  InLoop r remaining = IsSound r.engine × Incoming id side order_type limit remaining r.engine

  abbrev pub goes_on : Reported → ℤ → Bool
  goes_on r remaining = ltb_ℤ (pos 0) remaining && crosses side order_type limit r.engine.book

  -- A turn takes a quantity off the incoming order and off the best order of the other side.
  pub record Takes (r : Reported) (remaining : ℤ) (after : Round) : Type 0 where
    pub taken : ℤ
    pub most : taken ≤ℤ remaining
    pub left : after.remaining ≡ remaining -ℤ taken
    pub shortened :
        Shortened taken
          (side_levels (opposite side) r.engine.book)
          (side_levels (opposite side) after.reported.engine.book)
    pub resting : Order
    pub found : find_order resting.order_id r.engine.book ≡ some resting
    pub on_side : resting.side ≡ opposite side
    pub reached : reaches side order_type limit resting.price_ticks ≡ true
    pub reports : after.reported.reports ≡ (trade id t taken resting r).reports
    pub named :
        (j : ℕ) (s : OrderState)
        → find j (traded_states id resting.order_id taken resting.price_ticks r.engine.states)
          ≡ some s
        → s.exchange_order_id ≡ j
    pub before :
        (j : ℕ) (y : Order)
        → find_order j after.reported.engine.book ≡ some y
        → (z : Order) × (find_order j r.engine.book ≡ some z)
          × (z.side ≡ y.side)
          × (z.price_ticks ≡ y.price_ticks)

  -- A turn ends the loop, or trades and makes progress.
  pub data Turned (r : Reported) (remaining : ℤ) (after : Round) : Type 0 where
    finished : goes_on r remaining ≡ false → after ≡ stop r remaining → Turned r remaining after
    traded :
        after.running ≡ true
        → goes_on r remaining ≡ true
        → 1 ≤ order_count r.engine.book
        → InLoop after.reported after.remaining
        → (All (IsFair side order_type limit) r.reports
            → All (IsFair side order_type limit) after.reported.reports)
        → (order_count after.reported.engine.book < order_count r.engine.book)
          ⊎ (after.remaining ≡ pos 0)
        → Takes r remaining after
        → Turned r remaining after

  module _ (r : Reported) (remaining : ℤ) (h : IsSound r.engine)
      (inc : Incoming id side order_type limit remaining r.engine) where
    stops : goes_on r remaining ≡ false → turn_of id t r remaining ≡ stop r remaining
    unfolding turn_of turn
    stops done = ground (arith, inc.found, inc.same_side, inc.same_type, inc.same_limit)

    fills :
        (x : Order)
        → goes_on r remaining ≡ true
        → best_order (opposite side) r.engine.book ≡ some x
        → find_order x.order_id r.engine.book ≡ some x
        → turn_of id t r remaining ≡ fill id t x r remaining
    unfolding turn_of turn match_best
    fills x on best found =
        let b = h.backed x.order_id x found in
        ground (arith, inc.found, inc.same_side, inc.same_type, inc.same_limit, b.found)

    module _ (x : Order) (found : find_order x.order_id r.engine.book ≡ some x)
        (positive : pos 0 <ℤ remaining) where
      abbrev q : ℤ
      q = min_ℤ remaining x.quantity

      after_fill : Round
      after_fill = record {
        reported = update_book (reduce_order x.order_id q r.engine.book).0 (trade id t q x r);
        remaining = remaining -ℤ q;
        running = true;
      }

      fill_accepted : fill id t x r remaining ≡ after_fill
      unfolding fill after_fill
      fill_accepted =
          let same_book = ap (λ (e : MatchingEngine). e.book) (trade-engine id t q x r) in
          ground (
            arith,
            same_book,
            (effect id side order_type limit remaining r.engine h inc x found
                positive).sets.accepted,
          )

      after_fill-engine :
          after_fill.reported.engine
          ≡ filled_engine id side order_type limit remaining r.engine h inc x found positive
              (digest_of (trade id t q x r))
      unfolding after_fill update_book
      after_fill-engine =
          ap
            (λ (e : MatchingEngine). record e {
              book = (reduce_order x.order_id q r.engine.book).0;
            })
            (trade-engine id t q x r)

      after_fill-Takes :
          best_order (opposite side) r.engine.book ≡ some x
          → x.side ≡ opposite side
          → reaches side order_type limit x.price_ticks ≡ true
          → Takes r remaining after_fill
      unfolding after_fill update_book
      after_fill-Takes best on_side reached =
          let belongs = (find_order_belongs x.order_id x r.engine.book h.valid found).1 in
          record {
            taken = q;
            most = min_below remaining x.quantity;
            left = refl;
            shortened =
                best_order-Shortened (opposite side) r.engine.book x q h.valid
                  (ap is_valid_side (sym on_side) ∙ (resting_parts x belongs.resting).0) best found
                  (quantity_positive id side order_type limit remaining r.engine h inc x found
                    positive)
                  (min_at_most remaining x.quantity);
            resting = x;
            found = found;
            on_side = on_side;
            reached = reached;
            reports = refl;
            named = λ j s there.
                (filled-Named id side order_type limit remaining r.engine h inc x found positive j s
                  there).same_id;
            before = λ j y there.
                found_before id side order_type limit remaining r.engine h inc x found positive j y
                  there;
          }

      after_fill-Turned :
          goes_on r remaining ≡ true
          → best_order (opposite side) r.engine.book ≡ some x
          → x.side ≡ opposite side
          → reaches side order_type limit x.price_ticks ≡ true
          → Turned r remaining after_fill
      unfolding after_fill update_book
      after_fill-Turned on best on_side reached =
          let sound =
            filled-IsSound id side order_type limit remaining r.engine h inc x found positive
              (digest_of (trade id t q x r)) in
          let left =
            filled-Incoming id side order_type limit remaining r.engine h inc x found positive
              (digest_of (trade id t q x r)) in
          traded refl on (order_count-found x.order_id x r.engine.book found)
            (subst (λ e. IsSound e × Incoming id side order_type limit (remaining -ℤ q) e)
              (sym after_fill-engine) (sound, left))
            (trade-IsFair side order_type limit id t q x r reached (
              ground (
                arith,
                quantity_positive id side order_type limit remaining r.engine h inc x found
                    positive,
              )))
            (subst
              (λ (e : MatchingEngine).
                (order_count e.book < order_count r.engine.book) ⊎ (remaining -ℤ q ≡ pos 0))
              (sym after_fill-engine)
              (filled_progress id side order_type limit remaining r.engine h inc x found positive))
            (after_fill-Takes best on_side reached)

    -- Every turn does one or the other.
    pub turn_of-Turned : Turned r remaining (turn_of id t r remaining)
    turn_of-Turned = elim (Bool-cases (goes_on r remaining)) [
      | inr done ↦ finished done (stops done)
      | inl on ↦
          let reached =
            crosses-Reached order_type limit r.engine.book h.valid side (ground arith) in
          let positive : pos 0 <ℤ remaining = ground arith in
          subst (Turned r remaining)
            (sym (
              fills reached.order on reached.is_best reached.found
              ∙ fill_accepted reached.order reached.found positive))
            (after_fill-Turned reached.order reached.found positive on reached.is_best
              reached.on_side reached.reached)
    ]

  -- How the loop ends: still sound, and the loop's condition is false.
  pub record Ended (after : Round) : Type 0 where
    pub in_loop : InLoop after.reported after.remaining
    pub condition : goes_on after.reported after.remaining ≡ false

  abbrev Enough : ℕ → Reported → ℤ → Type 0
  Enough fuel r remaining = (order_count r.engine.book < fuel) ⊎ ((1 ≤ fuel) × (remaining ≡ pos 0))

  still-Enough :
      (r : Reported) (remaining : ℤ) (after : Round) (fuel : ℕ)
      → goes_on r remaining ≡ true
      → 1 ≤ order_count r.engine.book
      → Enough (suc fuel) r remaining
      → (order_count after.reported.engine.book < order_count r.engine.book)
        ⊎ (after.remaining ≡ pos 0)
      → Enough fuel after.reported after.remaining
  still-Enough r remaining after fuel on nonempty (inr (_, none_left)) progress =
      absurd (ground arith)
  still-Enough r remaining after fuel on nonempty (inl enough) (inl fewer) = inl (omega arith)
  still-Enough r remaining after fuel on nonempty (inl enough) (inr none_left) =
      inr (omega arith, none_left)

  pub match_loop-Ended :
      (fuel : ℕ) (r : Reported) (remaining : ℤ)
      → InLoop r remaining
      → Enough fuel r remaining
      → Ended (match_loop fuel id t r remaining)
  unfolding match_loop
  match_loop-Ended zero r remaining l enough = absurd (ground arith)
  match_loop-Ended (suc fuel) r remaining l enough =
      go (turn_of id t r remaining) (turn_of-Turned r remaining l.0 l.1)
        (λ r' q. match_loop-Ended fuel r' q)
    where
      go :
          (after : Round)
          → Turned r remaining after
          → ((r' : Reported) (q : ℤ)
              → InLoop r' q
              → Enough fuel r' q
              → Ended (match_loop fuel id t r' q))
          → Ended
              (if after.running then match_loop fuel id t after.reported after.remaining else after)
      go after (finished done is) later = rw is (record { in_loop = l; condition = done })
      go after (traded running on nonempty l' _ progress _) later =
          subst Ended (sym (if_true _ _ running)) (
            later after.reported after.remaining l'
              (still-Enough r remaining after fuel on nonempty enough progress))

  pub match_loop-IsFair :
      (fuel : ℕ) (r : Reported) (remaining : ℤ)
      → InLoop r remaining
      → All (IsFair side order_type limit) r.reports
      → All (IsFair side order_type limit) (match_loop fuel id t r remaining).reported.reports
  unfolding match_loop
  match_loop-IsFair zero r remaining l a = a
  match_loop-IsFair (suc fuel) r remaining l a =
      go (turn_of id t r remaining) (turn_of-Turned r remaining l.0 l.1)
        (λ r' q. match_loop-IsFair fuel r' q)
    where
      go :
          (after : Round)
          → Turned r remaining after
          → ((r' : Reported) (q : ℤ)
              → InLoop r' q
              → All (IsFair side order_type limit) r'.reports
              → All (IsFair side order_type limit) (match_loop fuel id t r' q).reported.reports)
          → All
              (IsFair side order_type limit)
              (if after.running
                then match_loop fuel id t after.reported after.remaining
                else after).reported.reports
      go after (finished done is) later = rw is a
      go after (traded running on nonempty l' fair progress _) later =
          rw running (later after.reported after.remaining l' (fair a))

  -- The loop ends because the order is filled or no longer crosses.
  pub match_against_book-Ended :
      (r : Reported) (remaining : ℤ)
      → InLoop r remaining
      → Ended (match_against_book id t r remaining)
  unfolding match_against_book
  match_against_book-Ended r remaining l =
      match_loop-Ended (suc (order_count r.engine.book)) r remaining l (inl (omega arith))
