-- ===== src/Matching/Fills.antt =====
-- What `submit_order` reports: no fill beyond the limit, and none at all for a post-only order.
use asterion.Prelude.{
  ℕ, suc, ◌≡◌, ◌≢◌, ap, inl, inr, true, false, ◌&&◌, [], ◌∷◌, Option-cases, Bool-cases, All,
  All-append, arith,
}
use asterion.Prelude.Int.{ℤ, pos, ltb_ℤ}
use asterion.Prelude.Assoc.{find}
use asterion.Core.Types.{Side}
use asterion.Book.{order_count}
use asterion.Matching.Report.{OrderStatus, ExecType, RejectReason, ExecutionReport}
use asterion.Matching.Admit.{NewOrderRequest, crosses}
use asterion.Matching.Loop.{Round, match_loop, match_against_book, turn_of, turn, stop}
use asterion.Matching.Prices.{IsFair}
use asterion.Matching.Rounds.{InLoop, match_loop-IsFair}
use asterion.Matching.Sound.{IsSound, report_state-engine}
use asterion.Matching.Terms.{
  WellFormed, malformed-WellFormed, report_state-IsSound, report_state-Incoming,
}
use asterion.Matching.Register.{HasNextId, register-IsSound, register-Incoming}
use asterion.Matching.Submit.{
  reserve-IsSound, next, next-WellFormed, next-HasNextId, submit_order_cases, refused, accepted,
}
use asterion.Matching.Handlers.{
  malformed, unfit, passes, register, rest, settle, accept, submit_order, reject, mark_partial,
  is_gtc,
}
use asterion.Matching.{
  MatchingEngine, Reported, report_state, record_report, make_report, make_reject, update_state,
  update_book, set_status, fail_internally, rest_limit_order, reserve_client_order_id, is_limit,
}

-- A predicate on reports that all but fills satisfy.
module _ (P : ExecutionReport → Type 0)
    (others : (x : ExecutionReport) → x.exec_type ≢ ExecType.trade → P x) where
  report_other :
      (id : ℕ) (exec_type : ExecType) (t : ℤ) (reason : RejectReason) (r : Reported)
      → exec_type ≢ ExecType.trade
      → All P r.reports
      → All P (report_state id exec_type (pos 0) (pos 0) t reason r).reports
  unfolding report_state record_report make_report
  report_other id exec_type t reason r other a = elim (Option-cases (find id r.engine.states)) [
    | inl e ↦ rw (e, report_state) a
    | inr (s, e) ↦
        rw (e, report_state)
          (All-append P r.reports (make_report s exec_type (pos 0) (pos 0) t reason ∷ []) a
            (others _ other, tt))
  ]

  rest-All : (id : ℕ) (q t : ℤ) (r : Reported) → All P r.reports → All P (rest id q t r).reports
  unfolding rest update_book fail_internally update_state
  rest-All id q t r a = elim (Option-cases (find id r.engine.states)) [
    | inl e ↦ rw (e, rest) a
    | inr (s, e) ↦ elim (Bool-cases (rest_limit_order s q t r.engine.book).1) [
      | inl room ↦ rw (e, rest, room) a
      | inr full ↦
          rw (e, rest, full)
            (report_other id ExecType.rejected t RejectReason.internal_error
              (update_state id (set_status OrderStatus.rejected)
                (update_book (rest_limit_order s q t r.engine.book).0 r))
              (λ h. cc) a)
    ]
  ]

  settle-All :
      (r : NewOrderRequest) (id : ℕ) (after : Round)
      → All P after.reported.reports
      → All P (settle r id after).reports
  unfolding settle update_state
  settle-All r id after a = elim (Bool-cases (ltb_ℤ (pos 0) after.remaining)) [
    | inr none_left ↦ rw none_left a
    | inl left ↦ elim (Bool-cases (is_limit r.order_type && is_gtc r.time_in_force)) [
      | inl rests ↦
          rw (left, rests)
            (rest-All id after.remaining r.timestamp_ns
              (update_state id mark_partial after.reported) a)
      | inr ends ↦
          rw (left, ends)
            (report_other id ExecType.canceled r.timestamp_ns RejectReason.none
              (update_state id (set_status OrderStatus.canceled) after.reported) (λ h. cc) a)
    ]
  ]

  reject-All :
      (client_order_id symbol_id : ℕ) (side : Side) (t : ℤ) (reason : RejectReason)
      (e : MatchingEngine)
      → All P (reject client_order_id symbol_id side t reason e).reports
  unfolding record_report make_reject
  reject-All c s side t reason e = (others _ (λ h. cc), tt)

  pub submit-All :
      (r : NewOrderRequest) (e : MatchingEngine)
      → (passes (malformed r e) ≡ true
          → passes (unfit r (reserve_client_order_id r.client_order_id e).0) ≡ true
          → All P (accept r (reserve_client_order_id r.client_order_id e).0).reports)
      → All P (submit_order r e).reports
  submit-All r e all_of = elim (submit_order_cases r e) [
    | refused reason seen done ↦ rw done (
        reject-All r.client_order_id r.symbol_id r.side r.timestamp_ns reason
          (record e { seen_client_order_ids = seen }))
    | accepted good fit done ↦ rw done (all_of good fit)
  ]

  pub announced-All :
      (r : NewOrderRequest) (e : MatchingEngine)
      → All P
          (report_state e.next_exchange_order_id ExecType.new
            (pos 0)
            (pos 0)
            r.timestamp_ns
            RejectReason.none
            (record { engine = register r e; reports = [] })).reports
  announced-All r e =
      report_other e.next_exchange_order_id ExecType.new r.timestamp_ns RejectReason.none
        (record { engine = register r e; reports = [] }) (λ h. cc) tt

module _ (r : NewOrderRequest) (e : MatchingEngine) (h : IsSound e) (ids : HasNextId e)
    (w : WellFormed r e) where
  abbrev first : Reported
  first = record { engine = register r e; reports = [] }

  abbrev announced : Reported
  announced =
      report_state e.next_exchange_order_id ExecType.new (pos 0) (pos 0) r.timestamp_ns
        RejectReason.none first

  pub announced-InLoop :
      InLoop e.next_exchange_order_id r.side r.order_type r.price_ticks r.timestamp_ns announced
        r.quantity
  announced-InLoop = (
    report_state-IsSound e.next_exchange_order_id ExecType.new (pos 0) (pos 0) r.timestamp_ns
        RejectReason.none first (register-IsSound r e h ids w),
    report_state-Incoming e.next_exchange_order_id ExecType.new (pos 0) (pos 0) r.timestamp_ns
        RejectReason.none first e.next_exchange_order_id r.side r.order_type r.price_ticks
        r.quantity (register-Incoming r e h ids w),
  )

  module _ (P : ExecutionReport → Type 0)
      (others : (x : ExecutionReport) → x.exec_type ≢ ExecType.trade → P x) where
    pub accept-All :
        All P
          (match_loop
            (suc (order_count announced.engine.book))
            e.next_exchange_order_id
            r.timestamp_ns
            announced
            r.quantity).reported.reports
        → All P (accept r e).reports
    unfolding accept match_against_book
    accept-All a =
        settle-All P others r e.next_exchange_order_id
          (match_loop (suc (order_count announced.engine.book)) e.next_exchange_order_id
            r.timestamp_ns announced r.quantity)
          a

  others-IsFair :
      (x : ExecutionReport)
      → x.exec_type ≢ ExecType.trade
      → IsFair r.side r.order_type r.price_ticks x
  others-IsFair x other = record {
    within = λ t. absurd (other t);
    positive = λ t. absurd (other t);
  }

  accept-IsFair : All (IsFair r.side r.order_type r.price_ticks) (accept r e).reports
  accept-IsFair = accept-All (IsFair r.side r.order_type r.price_ticks) others-IsFair (
      match_loop-IsFair e.next_exchange_order_id r.side r.order_type r.price_ticks r.timestamp_ns
        (suc (order_count announced.engine.book)) announced r.quantity announced-InLoop
        (announced-All (IsFair r.side r.order_type r.price_ticks) others-IsFair r e))

  pub announced_book : announced.engine.book ≡ e.book
  unfolding register
  announced_book =
      ap (λ (x : MatchingEngine). x.book)
        (report_state-engine e.next_exchange_order_id ExecType.new (pos 0) (pos 0) r.timestamp_ns
          RejectReason.none first)

  -- An order that does not cross trades nothing.
  accept_quiet :
      crosses r.side r.order_type r.price_ticks e.book ≡ false
      → All (λ x. x.exec_type ≢ ExecType.trade) (accept r e).reports
  unfolding match_loop turn_of turn
  accept_quiet quiet =
      let inc = announced-InLoop.1 in
      let stopped : match_loop (suc (order_count announced.engine.book)) e.next_exchange_order_id
            r.timestamp_ns announced r.quantity
          ≡ stop announced r.quantity =
        ground (arith, inc.found, inc.same_side, inc.same_type, inc.same_limit, announced_book) in
      accept-All (λ x. x.exec_type ≢ ExecType.trade) (λ x other. other)
        (rw stopped (announced-All (λ x. x.exec_type ≢ ExecType.trade) (λ x other. other) r e))

-- Where the engine is sound and exchange order ids are left, every fill that a submitted order reports,
-- its own and those of the orders that it meets, is of a positive quantity and at a price within its limit.
pub submit_order-IsFair :
    (r : NewOrderRequest) (e : MatchingEngine)
    → IsSound e
    → HasNextId e
    → All (IsFair r.side r.order_type r.price_ticks) (submit_order r e).reports
submit_order-IsFair r e h ids =
    submit-All (IsFair r.side r.order_type r.price_ticks)
      (λ x other. record { within = λ t. absurd (other t); positive = λ t. absurd (other t) }) r e
      (λ good fit.
        accept-IsFair r (next r e) (reserve-IsSound r.client_order_id e h) (next-HasNextId r e ids)
          (next-WellFormed r e (malformed-WellFormed r e good)))

post_only_quiet :
    (r : NewOrderRequest) (e : MatchingEngine)
    → r.post_only ≡ true
    → passes (unfit r e) ≡ true
    → crosses r.side r.order_type r.price_ticks e.book ≡ false
unfolding unfit
post_only_quiet r e post fit = ground arith

-- Where the engine is sound and exchange order ids are left, a post-only order reports no fill when it is
-- submitted.
pub submit_order-post_only :
    (r : NewOrderRequest) (e : MatchingEngine)
    → IsSound e
    → HasNextId e
    → r.post_only ≡ true
    → All (λ x. x.exec_type ≢ ExecType.trade) (submit_order r e).reports
submit_order-post_only r e h ids post =
    submit-All (λ x. x.exec_type ≢ ExecType.trade) (λ x other. other) r e
      (λ good fit.
        accept_quiet r (next r e) (reserve-IsSound r.client_order_id e h) (next-HasNextId r e ids)
          (next-WellFormed r e (malformed-WellFormed r e good))
          (post_only_quiet r (next r e) post fit))
