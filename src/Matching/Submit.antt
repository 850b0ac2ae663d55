-- ===== src/Matching/Submit.antt =====
-- `submit_order` keeps the engine sound.
use asterion.Prelude.{
  ℕ, ◌≡◌, refl, sym, subst, inl, inr, true, false, ◌&&◌, List, [], ap, arith, ◌==◌, Bool-cases,
}
use asterion.Prelude.Int.{ℤ, pos, ◌<ℤ◌, ltb_ℤ}
use asterion.Core.Types.{Side}
use asterion.Matching.Report.{OrderType, OrderStatus, ExecType, RejectReason, ExecutionReport}
use asterion.Matching.State.{OrderState}
use asterion.Matching.Admit.{NewOrderRequest, crosses}
use asterion.Matching.Sound.{IsSound, IsSound-digest}
use asterion.Matching.Trade.{Incoming}
use asterion.Matching.Rounds.{Ended}
use asterion.Matching.Resting.{rest-IsSound}
use asterion.Matching.Terms.{
  WellFormed, malformed-WellFormed, SameTerms, set_status-SameTerms, if-SameTerms,
  update_state-IsSound, update_state-Incoming, report_state-IsSound,
}
use asterion.Matching.Register.{HasNextId, looped, looped-Ended}
use asterion.Matching.Loop.{Round}
use asterion.Matching.Handlers.{
  malformed, unfit, passes, rest, settle, accept, submit_order, reject_new, reject, mark_partial,
  is_gtc,
}
use asterion.Matching.{
  MatchingEngine, Reported, record_report, make_reject, report_state, update_state, set_status,
  reserve_client_order_id, is_limit, member,
}

-- The exchange order ids are not used up: the counter does not wrap.
module _ (r : NewOrderRequest) (e : MatchingEngine) (h : IsSound e) (ids : HasNextId e)
    (w : WellFormed r e) where
  abbrev id : ℕ
  id = e.next_exchange_order_id

  pub limit_of : (k : OrderType) → is_limit k ≡ true → k ≡ OrderType.limit
  limit_of OrderType.limit p = refl
  limit_of OrderType.market p = absurd (cc p)
  limit_of OrderType.other p = absurd (cc p)

  mark_partial-SameTerms : (s : OrderState) → SameTerms s (mark_partial s)
  mark_partial-SameTerms s =
      if-SameTerms (ltb_ℤ (pos 0) s.filled_quantity) s (set_status OrderStatus.partially_filled s)
        (set_status-SameTerms OrderStatus.partially_filled s)

  module _ (after : Round)
      (end : Ended id r.side r.order_type r.price_ticks r.timestamp_ns after) where
    abbrev sound : IsSound after.reported.engine
    sound = end.in_loop.0

    abbrev inc : Incoming id r.side r.order_type r.price_ticks after.remaining after.reported.engine
    inc = end.in_loop.1

    abbrev marked : Reported
    marked = update_state id mark_partial after.reported

    pub marked-IsSound : IsSound marked.engine
    marked-IsSound =
        update_state-IsSound id mark_partial mark_partial-SameTerms after.reported sound
          inc.off_book

    pub marked-Incoming :
        Incoming id r.side r.order_type r.price_ticks after.remaining marked.engine
    marked-Incoming =
        update_state-Incoming id mark_partial mark_partial-SameTerms after.reported sound r.side
          r.order_type r.price_ticks after.remaining inc

    pub marked_quiet :
        ltb_ℤ (pos 0) after.remaining ≡ true
        → crosses r.side r.order_type r.price_ticks marked.engine.book ≡ false
    unfolding update_state
    marked_quiet left = ground (arith, end.condition)

    abbrev RestsWith : OrderType → Type 0
    RestsWith k =
        Incoming id r.side k r.price_ticks after.remaining marked.engine
        × (crosses r.side k r.price_ticks marked.engine.book ≡ false)

    rested-IsSound :
        is_limit r.order_type ≡ true
        → pos 0 <ℤ after.remaining
        → IsSound (rest id after.remaining r.timestamp_ns marked).engine
    rested-IsSound lim left =
        let (i, quiet) =
          subst RestsWith (limit_of r.order_type lim)
            (marked-Incoming, marked_quiet (ground arith)) in
        rest-IsSound id r.side r.price_ticks after.remaining r.timestamp_ns marked marked-IsSound i
          (ground (arith, h.started)) (w.priced lim) left quiet

    abbrev canceled : Reported
    canceled = update_state id (set_status OrderStatus.canceled) after.reported

    canceled-IsSound :
        IsSound
          (report_state id ExecType.canceled
            (pos 0)
            (pos 0)
            r.timestamp_ns
            RejectReason.none
            canceled).engine
    canceled-IsSound =
        report_state-IsSound id ExecType.canceled (pos 0) (pos 0) r.timestamp_ns RejectReason.none
          canceled
          (update_state-IsSound id (set_status OrderStatus.canceled)
            (set_status-SameTerms OrderStatus.canceled) after.reported sound inc.off_book)

    settle-IsSound : IsSound (settle r id after).engine
    unfolding settle
    settle-IsSound = elim (Bool-cases (ltb_ℤ (pos 0) after.remaining)) [
      | inr none_left ↦ rw none_left sound
      | inl left ↦ elim (Bool-cases (is_limit r.order_type && is_gtc r.time_in_force)) [
        | inl rests ↦ rw (left, rests) (rested-IsSound (ground arith) (ground arith))
        | inr ends ↦ rw (left, ends) canceled-IsSound
      ]
    ]

  pub accept-IsSound : IsSound (accept r e).engine
  unfolding accept
  accept-IsSound = settle-IsSound (looped r e h ids w) (looped-Ended r e h ids w)

-- Reserving a client's order id changes nothing of the engine but the ids that it has seen.
pub reserve-engine :
    (id : ℕ) (e : MatchingEngine)
    → (reserve_client_order_id id e).0
      ≡ record e { seen_client_order_ids = (reserve_client_order_id id e).0.seen_client_order_ids }
unfolding reserve_client_order_id
reserve-engine id e = elim (Bool-cases (id == 0)) [
  | inl bad ↦ rw bad refl
  | inr good ↦ elim (Bool-cases (member id e.seen_client_order_ids)) [
    | inl seen ↦ rw (good, seen) refl
    | inr new ↦ rw (good, new) refl
  ]
]

pub reserve-IsSound :
    (id : ℕ) (e : MatchingEngine) → IsSound e → IsSound (reserve_client_order_id id e).0
reserve-IsSound id e h =
    subst IsSound (sym (reserve-engine id e)) (IsSound-digest e _ e.reports_checksum h)

pub record_report-IsSound :
    (report : ExecutionReport) (r : Reported)
    → IsSound r.engine
    → IsSound (record_report report r).engine
unfolding record_report
record_report-IsSound report r h = IsSound-digest r.engine r.engine.seen_client_order_ids _ h

pub reject-IsSound :
    (client_order_id symbol_id : ℕ) (side : Side) (t : ℤ) (reason : RejectReason)
    (e : MatchingEngine)
    → IsSound e
    → IsSound (reject client_order_id symbol_id side t reason e).engine
reject-IsSound client_order_id symbol_id side t reason e h =
    record_report-IsSound (make_reject client_order_id symbol_id side t reason)
      (record { engine = e; reports = [] }) h

reject_new-IsSound :
    (r : NewOrderRequest) (reason : RejectReason) (e : MatchingEngine)
    → IsSound e
    → IsSound (reject_new r reason e).engine
reject_new-IsSound r reason e h =
    reject-IsSound r.client_order_id r.symbol_id r.side r.timestamp_ns reason e h

-- The engine with the client's order id reserved.
abbrev pub next : NewOrderRequest → MatchingEngine → MatchingEngine
next r e = (reserve_client_order_id r.client_order_id e).0

-- A submitted order is refused, or accepted where it passes all guards.
pub data Submitted (r : NewOrderRequest) (e : MatchingEngine) : Type 0 where
  refused :
      (reason : RejectReason) (seen : List ℕ)
      → submit_order r e ≡ reject_new r reason (record e { seen_client_order_ids = seen })
      → Submitted r e
  accepted :
      passes (malformed r e) ≡ true
      → passes (unfit r (next r e)) ≡ true
      → submit_order r e ≡ accept r (next r e)
      → Submitted r e

pub submit_order_cases : (r : NewOrderRequest) (e : MatchingEngine) → Submitted r e
unfolding submit_order
submit_order_cases r e =
    let seen = (next r e).seen_client_order_ids in
    let changed = reserve-engine r.client_order_id e in
    elim (Bool-cases (passes (malformed r e))) [
      | inr bad ↦ refused (malformed r e) e.seen_client_order_ids (rw bad refl)
      | inl good ↦ elim (Bool-cases (reserve_client_order_id r.client_order_id e).1) [
        | inr used ↦
            refused RejectReason.duplicate_client_order_id seen
              (rw (good, used) (ap (reject_new r RejectReason.duplicate_client_order_id) changed))
        | inl reserved ↦ elim (Bool-cases (passes (unfit r (next r e)))) [
          | inr bad ↦
              refused (unfit r (next r e)) seen
                (rw (good, reserved, bad) (ap (reject_new r (unfit r (next r e))) changed))
          | inl fit ↦ accepted good fit (rw (good, reserved, fit) refl)
        ]
      ]
    ]

-- Reserving keeps what holds of an engine before.
module _ (r : NewOrderRequest) (e : MatchingEngine) where
  pub next-WellFormed : WellFormed r e → WellFormed r (next r e)
  next-WellFormed w = subst (WellFormed r) (sym (reserve-engine r.client_order_id e)) (record {
    symbol = w.symbol;
    valid_side = w.valid_side;
    some_quantity = w.some_quantity;
    priced = w.priced;
  })

  pub next-HasNextId : HasNextId e → HasNextId (next r e)
  next-HasNextId ids = subst HasNextId (sym (reserve-engine r.client_order_id e)) ids

-- A submitted order leaves a sound engine sound, whatever becomes of it.
pub submit_order-IsSound :
    (r : NewOrderRequest) (e : MatchingEngine)
    → IsSound e
    → HasNextId e
    → IsSound (submit_order r e).engine
submit_order-IsSound r e h ids = elim (submit_order_cases r e) [
  | refused reason seen done ↦ rw done (
      reject_new-IsSound r reason (record e { seen_client_order_ids = seen })
        (IsSound-digest e seen e.reports_checksum h))
  | accepted good _ done ↦ rw done (
      accept-IsSound r (next r e) (reserve-IsSound r.client_order_id e h) (next-HasNextId r e ids)
        (next-WellFormed r e (malformed-WellFormed r e good)))
]
