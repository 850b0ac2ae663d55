-- ===== src/Matching/Trail/Submits.antt =====
-- The digest after `submit_order`.
use asterion.Prelude.{ℕ, ◌≡◌, ◌∙◌, inl, inr, ◌&&◌, [], arith, Option-cases, Bool-cases}
use asterion.Prelude.Int.{ℤ, pos, ltb_ℤ}
use asterion.Prelude.Assoc.{find}
use asterion.Core.Types.{Side}
use asterion.Matching.Report.{OrderStatus, ExecType, RejectReason, checksum_from}
use asterion.Matching.Admit.{NewOrderRequest}
use asterion.Matching.Loop.{Round, match_against_book}
use asterion.Matching.Handlers.{
  malformed, unfit, passes, register, rest, settle, accept, submit_order, reject, mark_partial,
  is_gtc,
}
use asterion.Matching.Digest.{
  IsDigested, record_report-IsDigested, report_state-IsDigested, update_state-IsDigested,
  update_book-IsDigested, fail_internally-IsDigested, match_against_book-IsDigested,
}
use asterion.Matching.{
  MatchingEngine, Reported, make_reject, report_state, update_state, update_book, set_status,
  reserve_client_order_id, rest_limit_order, is_limit,
}

-- A request starts with no reports.
abbrev pub empty_of : MatchingEngine → Reported
empty_of e = record { engine = e; reports = [] }

pub reserve_digest :
    (id : ℕ) (e : MatchingEngine)
    → (reserve_client_order_id id e).0.reports_checksum ≡ e.reports_checksum
unfolding reserve_client_order_id
reserve_digest id e = ground arith

module _ (seed : ℕ) where
  pub reject-IsDigested :
      (client_order_id symbol_id : ℕ) (side : Side) (t : ℤ) (reason : RejectReason)
      (e : MatchingEngine)
      → e.reports_checksum ≡ seed
      → IsDigested seed (reject client_order_id symbol_id side t reason e)
  unfolding checksum_from
  reject-IsDigested c s side t reason e h =
      record_report-IsDigested seed (make_reject c s side t reason) (empty_of e) h

  pub rest-IsDigested :
      (id : ℕ) (q t : ℤ) (r : Reported) → IsDigested seed r → IsDigested seed (rest id q t r)
  unfolding rest
  rest-IsDigested id q t r h = elim (Option-cases (find id r.engine.states)) [
    | inl e ↦ rw (e, rest) h
    | inr (s, e) ↦
        let (book, done) = rest_limit_order s q t r.engine.book in
        elim (Bool-cases (rest_limit_order s q t r.engine.book).1) [
          | inl room ↦ rw (e, rest, room) (update_book-IsDigested seed book r h)
          | inr no_room ↦
              rw (e, rest, no_room)
                (fail_internally-IsDigested seed id t (update_book book r)
                  (update_book-IsDigested seed book r h))
        ]
  ]

  settle-IsDigested :
      (r : NewOrderRequest) (id : ℕ) (after : Round)
      → IsDigested seed after.reported
      → IsDigested seed (settle r id after)
  unfolding settle
  settle-IsDigested r id after h = elim (Bool-cases (ltb_ℤ (pos 0) after.remaining)) [
    | inr none_left ↦ rw none_left h
    | inl left ↦ elim (Bool-cases (is_limit r.order_type && is_gtc r.time_in_force)) [
      | inl rests ↦
          rw (left, rests)
            (rest-IsDigested id after.remaining r.timestamp_ns
              (update_state id mark_partial after.reported)
              (update_state-IsDigested seed id mark_partial after.reported h))
      | inr ends ↦
          rw (left, ends)
            (report_state-IsDigested seed id ExecType.canceled (pos 0) (pos 0) r.timestamp_ns
              RejectReason.none (update_state id (set_status OrderStatus.canceled) after.reported)
              (update_state-IsDigested seed id (set_status OrderStatus.canceled) after.reported h))
    ]
  ]

  accept-IsDigested :
      (r : NewOrderRequest) (e : MatchingEngine)
      → e.reports_checksum ≡ seed
      → IsDigested seed (accept r e)
  unfolding accept register checksum_from
  accept-IsDigested r e h =
      let id = e.next_exchange_order_id in
      let first = empty_of (register r e) in
      let announced =
        report_state id ExecType.new (pos 0) (pos 0) r.timestamp_ns RejectReason.none first in
      settle-IsDigested r id (match_against_book id r.timestamp_ns announced r.quantity) (
        match_against_book-IsDigested seed id r.timestamp_ns announced r.quantity (
          report_state-IsDigested seed id ExecType.new (pos 0) (pos 0) r.timestamp_ns
            RejectReason.none first h))

  pub submit-IsDigested :
      (r : NewOrderRequest) (e : MatchingEngine)
      → e.reports_checksum ≡ seed
      → IsDigested seed (submit_order r e)
  unfolding submit_order
  submit-IsDigested r e h =
      let next = reserve_client_order_id r.client_order_id e in
      let h' = reserve_digest r.client_order_id e ∙ h in
      elim (Bool-cases (passes (malformed r e))) [
        | inr bad ↦ rw bad (
            reject-IsDigested r.client_order_id r.symbol_id r.side r.timestamp_ns (malformed r e) e
              h)
        | inl good ↦ elim (Bool-cases next.1) [
          | inr used ↦
              rw (good, used)
                (reject-IsDigested r.client_order_id r.symbol_id r.side r.timestamp_ns
                  RejectReason.duplicate_client_order_id next.0 h')
          | inl reserved ↦ elim (Bool-cases (passes (unfit r next.0))) [
            | inr bad ↦
                rw (good, reserved, bad)
                  (reject-IsDigested r.client_order_id r.symbol_id r.side r.timestamp_ns
                    (unfit r next.0) next.0 h')
            | inl fit ↦ rw (good, reserved, fit) (accept-IsDigested r next.0 h')
          ]
        ]
      ]
