-- ===== src/Matching/Trail/Changes.antt =====
-- The digest after `cancel_order` and `replace_order`.
use asterion.Prelude.{ℕ, ◌≡◌, ◌∙◌, inl, inr, not, ◌||◌, Option-cases, Bool-cases}
use asterion.Prelude.Int.{pos, ltb_ℤ, leb_ℤ}
use asterion.Prelude.Assoc.{find}
use asterion.Core.Types.{Side}
use asterion.Book.{cancel_order, find_order}
use asterion.Matching.Report.{OrderStatus, ExecType, RejectReason, checksum_from}
use asterion.Matching.State.{OrderState}
use asterion.Matching.Admit.{CancelOrderRequest, ReplaceOrderRequest, would_self_trade, is_some}
use asterion.Matching.Loop.{match_against_book}
use asterion.Matching.Amend.{
  cancel_resting, cancel_request, amended, mark_partial_unless_replaced, settle_replaced, reenter,
  replace_resting, replace_known, replace_request,
}
use asterion.Matching.Trail.Submits.{empty_of, reserve_digest, reject-IsDigested, rest-IsDigested}
use asterion.Matching.Digest.{
  IsDigested, report_state-IsDigested, update_state-IsDigested, update_book-IsDigested,
  fail_internally-IsDigested, match_against_book-IsDigested,
}
use asterion.Matching.{
  MatchingEngine, Reported, report_state, update_state, update_book, set_status,
  reserve_client_order_id,
}

-- A request starts with no reports.
module _ (seed : ℕ) where
  pub cancel-IsDigested :
      (r : CancelOrderRequest) (e : MatchingEngine)
      → e.reports_checksum ≡ seed
      → IsDigested seed (cancel_request r e)
  unfolding cancel_request cancel_resting checksum_from
  cancel-IsDigested r e h =
      let next = reserve_client_order_id r.client_order_id e in
      let h' = reserve_digest r.client_order_id e ∙ h in
      let id = r.exchange_order_id in
      let after = update_book (cancel_order id next.0.book).0 (empty_of next.0) in
      let h'' = update_book-IsDigested seed (cancel_order id next.0.book).0 (empty_of next.0) h' in
      let refuse = λ (reason : RejectReason).
        reject-IsDigested seed r.client_order_id next.0.symbol_id Side.none r.timestamp_ns reason
          next.0 h' in
      elim (Bool-cases next.1) [
        | inr used ↦ rw used (refuse RejectReason.duplicate_client_order_id)
        | inl reserved ↦
            elim (Bool-cases (
              not (is_some (find id next.0.states)) || not (is_some (find_order id next.0.book)))) [
                | inl unknown ↦ rw (reserved, unknown) (refuse RejectReason.unknown_order)
                | inr known ↦ elim (Bool-cases (cancel_order id next.0.book).1) [
                  | inr failed ↦
                      rw (reserved, known, failed)
                        (fail_internally-IsDigested seed id r.timestamp_ns after h'')
                  | inl done ↦
                      rw (reserved, known, done)
                        (report_state-IsDigested seed id ExecType.canceled (pos 0) (pos 0)
                          r.timestamp_ns RejectReason.none
                          (update_state id (set_status OrderStatus.canceled) after)
                          (update_state-IsDigested seed id (set_status OrderStatus.canceled) after
                            h''))
                ]
              ]
      ]

  reenter-IsDigested :
      (r : ReplaceOrderRequest) (after : Reported)
      → IsDigested seed after
      → IsDigested seed (reenter r after)
  unfolding reenter settle_replaced
  reenter-IsDigested r after h =
      let id = r.exchange_order_id in
      let changed = update_state id (amended r) after in
      let announced =
        report_state id ExecType.replaced (pos 0) (pos 0) r.timestamp_ns RejectReason.none
          changed in
      let looped = match_against_book id r.timestamp_ns announced r.new_quantity in
      let h' = match_against_book-IsDigested seed id r.timestamp_ns announced r.new_quantity (
        report_state-IsDigested seed id ExecType.replaced (pos 0) (pos 0) r.timestamp_ns
          RejectReason.none changed (update_state-IsDigested seed id (amended r) after h)) in
      elim (Bool-cases (ltb_ℤ (pos 0) looped.remaining)) [
        | inr none_left ↦ rw none_left h'
        | inl left ↦ rw left (
            rest-IsDigested seed id looped.remaining r.timestamp_ns
              (update_state id mark_partial_unless_replaced looped.reported)
              (update_state-IsDigested seed id mark_partial_unless_replaced looped.reported h'))
      ]

  replace_resting-IsDigested :
      (r : ReplaceOrderRequest) (s : OrderState) (e : MatchingEngine)
      → e.reports_checksum ≡ seed
      → IsDigested seed (replace_resting r s e)
  unfolding replace_resting checksum_from
  replace_resting-IsDigested r s e h =
      let id = r.exchange_order_id in
      let after = update_book (cancel_order id e.book).0 (empty_of e) in
      let h' = update_book-IsDigested seed (cancel_order id e.book).0 (empty_of e) h in
      elim (Bool-cases (
        would_self_trade s.side s.order_type r.new_price_ticks s.client_id s.exchange_order_id e)) [
          | inl own ↦ rw own (
              reject-IsDigested seed r.client_order_id e.symbol_id s.side r.timestamp_ns
                RejectReason.self_trade_prevention e h)
          | inr other ↦ elim (Bool-cases (cancel_order id e.book).1) [
            | inr failed ↦
                rw (other, failed) (fail_internally-IsDigested seed id r.timestamp_ns after h')
            | inl done ↦ rw (other, done) (reenter-IsDigested r after h')
          ]
        ]

  replace_known-IsDigested :
      (r : ReplaceOrderRequest) (e : MatchingEngine)
      → e.reports_checksum ≡ seed
      → IsDigested seed (replace_known r e)
  unfolding replace_known
  replace_known-IsDigested r e h =
      let refuse =
        reject-IsDigested seed r.client_order_id e.symbol_id Side.none r.timestamp_ns
          RejectReason.unknown_order e h in
      elim (Option-cases (find r.exchange_order_id e.states)) [
        | inl unknown ↦ rw (unknown, replace_known) refuse
        | inr (s, known) ↦ elim (Bool-cases (is_some (find_order r.exchange_order_id e.book))) [
          | inr gone ↦ rw (known, replace_known, gone) refuse
          | inl rests ↦ rw (known, replace_known, rests) (replace_resting-IsDigested r s e h)
        ]
      ]

  pub replace-IsDigested :
      (r : ReplaceOrderRequest) (e : MatchingEngine)
      → e.reports_checksum ≡ seed
      → IsDigested seed (replace_request r e)
  unfolding replace_request
  replace-IsDigested r e h =
      let next = reserve_client_order_id r.client_order_id e in
      let h' = reserve_digest r.client_order_id e ∙ h in
      elim (Bool-cases (leb_ℤ r.new_quantity (pos 0))) [
        | inl bad ↦ rw bad (
            reject-IsDigested seed r.client_order_id e.symbol_id Side.none r.timestamp_ns
              RejectReason.invalid_quantity e h)
        | inr sized ↦ elim (Bool-cases (leb_ℤ r.new_price_ticks (pos 0))) [
          | inl bad ↦
              rw (sized, bad)
                (reject-IsDigested seed r.client_order_id e.symbol_id Side.none r.timestamp_ns
                  RejectReason.invalid_price e h)
          | inr priced ↦ elim (Bool-cases next.1) [
            | inr used ↦
                rw (sized, priced, used)
                  (reject-IsDigested seed r.client_order_id next.0.symbol_id Side.none
                    r.timestamp_ns RejectReason.duplicate_client_order_id next.0 h')
            | inl reserved ↦ rw (sized, priced, reserved) (replace_known-IsDigested r next.0 h')
          ]
        ]
      ]
