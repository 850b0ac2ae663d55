-- ===== src/Matching/FillOrKill.antt =====
-- Fill or kill: `can_fully_fill`, and the loop after it.
use asterion.Prelude.{
  ℕ, zero, suc, ◌≡◌, refl, sym, ap, subst, ◌∙◌, inl, inr, ◌⊎◌, true, none, arith, if◌then◌else◌,
  if_true,
}
use asterion.Prelude.Int.{ℤ, pos, eq_of_parts}
use asterion.Core.Types.{Side, opposite}
use asterion.Book.{find_order, order_count, side_levels}
use asterion.Matching.Report.{OrderType}
use asterion.Matching.Admit.{NewOrderRequest, can_fully_fill}
use asterion.Matching.Fillable.{
  Covered, nothing_left, fills_rest, Shortened-Covered, fillable-crosses, can_fully_fill-Covered,
}
use asterion.Matching.Loop.{Round, match_loop, match_against_book, turn_of}
use asterion.Matching.Rounds.{InLoop, Turned, finished, traded, Takes, goes_on, turn_of-Turned}
use asterion.Matching.Outcome.{Leaves}
use asterion.Matching.Sound.{IsSound}
use asterion.Matching.Terms.{WellFormed, malformed-WellFormed}
use asterion.Matching.Register.{HasNextId, announced, looped, looped-Ended}
use asterion.Matching.Submit.{
  reserve-engine, reserve-IsSound, next, next-WellFormed, next-HasNextId, submit_order_cases,
  refused, accepted,
}
use asterion.Matching.Fills.{announced_book, announced-InLoop}
use asterion.Matching.Handlers.{unfit, passes, settle, accept, submit_order, is_fok}
use asterion.Matching.{MatchingEngine, Reported, record_report}

module _ (id : ℕ) (side : Side) (order_type : OrderType) (limit t : ℤ) where
  -- Where the other side can fill what is left before the loop, it can after it.
  module _ (req : NewOrderRequest) where
    abbrev IsCovered : Reported → ℤ → Type 0
    IsCovered r remaining = Covered req remaining (side_levels (opposite side) r.engine.book)

    abbrev pub CoveredAfter : Round → Type 0
    CoveredAfter after = IsCovered after.reported after.remaining

    turn-Covered :
        (r : Reported) (remaining : ℤ) (after : Round)
        → goes_on id side order_type limit t r remaining ≡ true
        → Takes id side order_type limit t r remaining after
        → IsCovered r remaining
        → IsCovered after.reported after.remaining
    turn-Covered r remaining after on t (nothing_left zeroed) = absurd (ground arith)
    turn-Covered r remaining after on t (fills_rest h) =
        subst (λ x. IsCovered after.reported x) (sym t.left)
          (Shortened-Covered req remaining t.taken (side_levels (opposite side) r.engine.book)
            (side_levels (opposite side) after.reported.engine.book) t.most t.shortened h)

    pub match_loop-Covered :
        (fuel : ℕ) (r : Reported) (remaining : ℤ)
        → InLoop id side order_type limit t r remaining
        → IsCovered r remaining
        → CoveredAfter (match_loop fuel id t r remaining)
    unfolding match_loop
    match_loop-Covered zero r remaining l c = c
    match_loop-Covered (suc fuel) r remaining l c =
        go (turn_of id t r remaining)
          (turn_of-Turned id side order_type limit t r remaining l.0 l.1)
          (λ r' q. match_loop-Covered fuel r' q)
      where
        go :
            (after : Round)
            → Turned id side order_type limit t r remaining after
            → ((r' : Reported) (q : ℤ)
                → InLoop id side order_type limit t r' q
                → IsCovered r' q
                → CoveredAfter (match_loop fuel id t r' q))
            → CoveredAfter (
                if after.running
                then match_loop fuel id t after.reported after.remaining
                else after)
        go after (finished done is) later = rw is c
        go after (traded running on nonempty l' _ progress takes) later =
            subst CoveredAfter (sym (if_true _ _ running))
              (later after.reported after.remaining l' (turn-Covered r remaining after on takes c))

module _ (r : NewOrderRequest) (e : MatchingEngine) (h : IsSound e) (ids : HasNextId e)
    (w : WellFormed r e) (full : can_fully_fill r e.book ≡ true) where
  abbrev id : ℕ
  id = e.next_exchange_order_id

  abbrev after : Round
  after = looped r e h ids w

  after-Covered :
      Covered r after.remaining (side_levels (opposite r.side) after.reported.engine.book)
  unfolding match_against_book
  after-Covered =
      match_loop-Covered id r.side r.order_type r.price_ticks r.timestamp_ns r
        (suc (order_count (announced r e h ids w).engine.book)) (announced r e h ids w) r.quantity
        (announced-InLoop r e h ids w)
        (subst (λ b. Covered r r.quantity (side_levels (opposite r.side) b))
          (sym (announced_book r e h ids w)) (can_fully_fill-Covered r e.book w.valid_side full))

  nothing_remains : after.remaining ≡ pos 0
  nothing_remains = elim after-Covered [
    | nothing_left zeroed ↦ zeroed
    | fills_rest some_left ↦
        let end = looped-Ended r e h ids w in
        let on =
          fillable-crosses r after.remaining after.reported.engine.book w.valid_side some_left in
        ground
          (arith, end.condition, end.in_loop.1.nonnegative, eq_of_parts after.remaining (pos 0))
  ]

  accept-fills :
      (find_order id (accept r e).engine.book ≡ none) × Leaves id (pos 0) (accept r e).engine
  unfolding accept settle
  accept-fills =
      let inc = (looped-Ended r e h ids w).in_loop.1 in
      rw nothing_remains (
        inc.off_book,
        record { state = inc.state; found = inc.found; unfilled = inc.unfilled ∙ nothing_remains },
      )

fok_fillable :
    (r : NewOrderRequest) (e : MatchingEngine)
    → is_fok r.time_in_force ≡ true
    → passes (unfit r e) ≡ true
    → can_fully_fill r e.book ≡ true
unfolding unfit
fok_fillable r e fok fit = ground arith

-- A fill-or-kill order that is submitted to a sound engine, while exchange order ids are left, either
-- changes neither the book nor the states, or is filled completely and off the book.
pub submit_order-fok :
    (r : NewOrderRequest) (e : MatchingEngine)
    → IsSound e
    → HasNextId e
    → is_fok r.time_in_force ≡ true
    → let after = (submit_order r e).engine in
      ((after.book ≡ e.book) × (after.states ≡ e.states))
      ⊎ ((find_order e.next_exchange_order_id after.book ≡ none)
          × Leaves e.next_exchange_order_id (pos 0) after)
unfolding record_report
submit_order-fok r e h ids fok = elim (submit_order_cases r e) [
  | refused reason seen done ↦ rw done (inl (refl, refl))
  | accepted good fit done ↦
      let filled =
        accept-fills r (next r e) (reserve-IsSound r.client_order_id e h) (next-HasNextId r e ids)
          (next-WellFormed r e (malformed-WellFormed r e good))
          (fok_fillable r (next r e) fok fit) in
      let engine = (accept r (next r e)).engine in
      let same_id =
        ap (λ (x : MatchingEngine). x.next_exchange_order_id)
          (reserve-engine r.client_order_id e) in
      rw done (
        inr
          (subst (λ i. (find_order i engine.book ≡ none) × Leaves i (pos 0) engine) same_id filled))
]
