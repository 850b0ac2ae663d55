-- ===== src/Matching/Outcome.antt =====
-- What becomes of an accepted order: it is filled, or its rest goes on the book, or its rest is
-- canceled.
use asterion.Prelude.{
  ℕ, ◌≡◌, ◌≢◌, refl, sym, subst, ◌∙◌, inl, inr, true, false, ◌&&◌, none, some, Bool-cases, arith,
}
use asterion.Prelude.Int.{ℤ, pos, ◌-ℤ◌, ◌<ℤ◌, ltb_ℤ, eq_of_parts}
use asterion.Prelude.Assoc.{find, find-modify}
use asterion.Book.Queue.{Order}
use asterion.Book.{find_order}
use asterion.Matching.Report.{OrderType, OrderStatus, ExecType, RejectReason}
use asterion.Matching.State.{OrderState}
use asterion.Matching.Admit.{NewOrderRequest, crosses}
use asterion.Matching.Loop.{Round}
use asterion.Matching.Rounds.{Ended}
use asterion.Matching.Trade.{Incoming}
use asterion.Matching.Sound.{IsSound, report_state-engine}
use asterion.Matching.Terms.{WellFormed}
use asterion.Matching.Resting.{rested, rest-found}
use asterion.Matching.Register.{HasNextId, looped, looped-Ended}
use asterion.Matching.Submit.{marked-IsSound, marked-Incoming, marked_quiet, limit_of}
use asterion.Matching.Handlers.{rest, settle, accept, mark_partial, is_gtc}
use asterion.Matching.{
  MatchingEngine, Reported, update_state, update_book, report_state, set_status, is_limit,
  resting_order,
}

-- The state of an order with `left` of its quantity unfilled.
pub record Leaves (id : ℕ) (left : ℤ) (e : MatchingEngine) : Type 0 where
  pub state : OrderState
  pub found : find id e.states ≡ some state
  pub unfilled : state.original_quantity -ℤ state.filled_quantity ≡ left

pub data Outcome (r : NewOrderRequest) (id : ℕ) (e : MatchingEngine) : Type 0 where
  filled : find_order id e.book ≡ none → Leaves id (pos 0) e → Outcome r id e
  rests :
      (o : Order)
      → is_limit r.order_type && is_gtc r.time_in_force ≡ true
      → find_order id e.book ≡ some o
      → o.side ≡ r.side
      → o.price_ticks ≡ r.price_ticks
      → pos 0 <ℤ o.quantity
      → Leaves id o.quantity e
      → Outcome r id e
  dropped :
      (left : ℤ)
      → is_limit r.order_type && is_gtc r.time_in_force ≡ false
      → find_order id e.book ≡ none
      → pos 0 <ℤ left
      → (l : Leaves id left e) × (l.state.status ≡ OrderStatus.canceled)
      → Outcome r id e

module _ (r : NewOrderRequest) (e : MatchingEngine) (h : IsSound e) (ids : HasNextId e)
    (w : WellFormed r e) (after : Round)
    (end : Ended e.next_exchange_order_id r.side r.order_type r.price_ticks r.timestamp_ns
      after) where
  abbrev id : ℕ
  id = e.next_exchange_order_id

  abbrev inc : Incoming id r.side r.order_type r.price_ticks after.remaining after.reported.engine
  inc = end.in_loop.1

  abbrev marked : Reported
  marked = update_state id mark_partial after.reported

  abbrev RestsAs : OrderType → Type 0
  RestsAs k =
      Incoming id r.side k r.price_ticks after.remaining marked.engine
      × (crosses r.side k r.price_ticks marked.engine.book ≡ false)

  rests_with :
      is_limit r.order_type && is_gtc r.time_in_force ≡ true
      → pos 0 <ℤ after.remaining
      → (i : Incoming id r.side OrderType.limit r.price_ticks after.remaining marked.engine)
      → crosses r.side OrderType.limit r.price_ticks marked.engine.book ≡ false
      → Outcome r id (rest id after.remaining r.timestamp_ns marked).engine
  unfolding update_book
  rests_with terms left i calm =
      let sound = marked-IsSound r e h ids w after end in
      let nonzero : id ≢ 0 = ground (arith, h.started) in
      let priced = w.priced (ground arith) in
      let on_book =
        rested id r.side r.price_ticks after.remaining r.timestamp_ns marked sound i nonzero priced
          left calm in
      rests (resting_order i.state after.remaining r.timestamp_ns) terms
        (rest-found id r.side r.price_ticks after.remaining r.timestamp_ns marked sound i nonzero
          priced left calm)
        i.same_side i.same_limit left
        (record { state = i.state; found = rw on_book i.found; unfilled = i.unfilled })

  rests-Outcome :
      pos 0 <ℤ after.remaining
      → is_limit r.order_type && is_gtc r.time_in_force ≡ true
      → Outcome r id (rest id after.remaining r.timestamp_ns marked).engine
  rests-Outcome left terms =
      let lim = limit_of r e h ids w r.order_type (ground arith) in
      let quiet = marked_quiet r e h ids w after end (ground arith) in
      let (i, calm) = subst RestsAs lim (marked-Incoming r e h ids w after end, quiet) in
      rests_with terms left i calm

  abbrev dropping : Reported
  dropping = update_state id (set_status OrderStatus.canceled) after.reported

  dropped-Outcome :
      pos 0 <ℤ after.remaining
      → is_limit r.order_type && is_gtc r.time_in_force ≡ false
      → Outcome r id
          (report_state id ExecType.canceled
            (pos 0)
            (pos 0)
            r.timestamp_ns
            RejectReason.none
            dropping).engine
  unfolding update_state
  dropped-Outcome left terms =
      subst (Outcome r id)
        (sym (
          report_state-engine id ExecType.canceled (pos 0) (pos 0) r.timestamp_ns RejectReason.none
            dropping))
        (dropped after.remaining terms inc.off_book left (
          record {
            state = set_status OrderStatus.canceled inc.state;
            found = ground (
              arith,
              find-modify id id (set_status OrderStatus.canceled) after.reported.engine.states,
              inc.found,
            );
            unfilled = inc.unfilled;
          },
          refl,
        ))

  settle-Outcome : Outcome r id (settle r id after).engine
  unfolding settle
  settle-Outcome = elim (Bool-cases (ltb_ℤ (pos 0) after.remaining)) [
    | inr none_left ↦ rw none_left (
        filled inc.off_book (record {
          state = inc.state;
          found = inc.found;
          unfilled =
              inc.unfilled ∙ ground (arith, inc.nonnegative, eq_of_parts after.remaining (pos 0));
        }))
    | inl left ↦ elim (Bool-cases (is_limit r.order_type && is_gtc r.time_in_force)) [
      | inl terms ↦ rw (left, terms) (rests-Outcome (ground arith) terms)
      | inr terms ↦ rw (left, terms) (dropped-Outcome (ground arith) terms)
    ]
  ]

-- The engine is sound and has exchange order ids left, and the request is well-formed. Then the accepted
-- order is filled and off the book; or, if it is a limit order good till cancelled, what is left of it
-- rests at its side and price; or what is left is canceled and nothing of it rests.
pub accept-Outcome :
    (r : NewOrderRequest) (e : MatchingEngine)
    → IsSound e
    → HasNextId e
    → WellFormed r e
    → Outcome r e.next_exchange_order_id (accept r e).engine
unfolding accept
accept-Outcome r e h ids w =
    settle-Outcome r e h ids w (looped r e h ids w) (looped-Ended r e h ids w)
