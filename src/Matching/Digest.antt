-- ===== src/Matching/Digest.antt =====
-- `reports_checksum_` is the checksum of the reports that a request returns, after those before.
use asterion.Prelude.{ℕ, zero, suc, ◌≡◌, inl, inr, ◌&&◌, [], ◌∷◌, arith, Option-cases, Bool-cases}
use asterion.Prelude.Int.{ℤ, pos, min_ℤ, ltb_ℤ}
use asterion.Prelude.Assoc.{find}
use asterion.Core.Types.{opposite}
use asterion.Book.Queue.{Order}
use asterion.Book.{OrderBook, best_order, reduce_order, order_count}
use asterion.Matching.Report.{
  OrderStatus, ExecType, RejectReason, ExecutionReport, checksum_from, checksum_from-append,
}
use asterion.Matching.State.{OrderState}
use asterion.Matching.Admit.{crosses}
use asterion.Matching.Loop.{
  filled_by, trade, fill, match_best, turn, turn_of, match_loop, match_against_book,
}
use asterion.Matching.{
  Reported, record_report, make_report, report_state, update_state, update_book, set_status,
  fail_internally,
}

-- The engine's digest is that of the reports, from `seed` on.
abbrev pub IsDigested : ℕ → Reported → Type 0
IsDigested seed r = r.engine.reports_checksum ≡ checksum_from seed r.reports

module _ (seed : ℕ) where
  pub record_report-IsDigested :
      (report : ExecutionReport) (r : Reported)
      → IsDigested seed r
      → IsDigested seed (record_report report r)
  unfolding record_report checksum_from
  record_report-IsDigested report r h =
      ground (arith, h, checksum_from-append seed r.reports (report ∷ []))

  pub report_state-IsDigested :
      (id : ℕ) (exec_type : ExecType) (q p t : ℤ) (reason : RejectReason) (r : Reported)
      → IsDigested seed r
      → IsDigested seed (report_state id exec_type q p t reason r)
  unfolding report_state
  report_state-IsDigested id exec_type q p t reason r h =
      elim (Option-cases (find id r.engine.states)) [
        | inl e ↦ rw (e, report_state) h
        | inr (s, e) ↦
            rw (e, report_state)
              (record_report-IsDigested (make_report s exec_type q p t reason) r h)
      ]

  pub update_state-IsDigested :
      (id : ℕ) (f : OrderState → OrderState) (r : Reported)
      → IsDigested seed r
      → IsDigested seed (update_state id f r)
  unfolding update_state
  update_state-IsDigested id f r h = h

  pub update_book-IsDigested :
      (b : OrderBook) (r : Reported) → IsDigested seed r → IsDigested seed (update_book b r)
  unfolding update_book
  update_book-IsDigested b r h = h

  pub fail_internally-IsDigested :
      (id : ℕ) (t : ℤ) (r : Reported) → IsDigested seed r → IsDigested seed (fail_internally id t r)
  unfolding fail_internally
  fail_internally-IsDigested id t r h =
      report_state-IsDigested id ExecType.rejected (pos 0) (pos 0) t RejectReason.internal_error
        (update_state id (set_status OrderStatus.rejected) r) h

  pub trade-IsDigested :
      (id : ℕ) (t q : ℤ) (x : Order) (r : Reported)
      → IsDigested seed r
      → IsDigested seed (trade id t q x r)
  unfolding trade
  trade-IsDigested id t q x r h =
      let filled2 =
        update_state id (filled_by q x.price_ticks)
          (update_state x.order_id (filled_by q x.price_ticks) r) in
      report_state-IsDigested id ExecType.trade q x.price_ticks t RejectReason.none _ (
        report_state-IsDigested x.order_id ExecType.trade q x.price_ticks t RejectReason.none
          filled2 h)

  fill-IsDigested :
      (id : ℕ) (t : ℤ) (x : Order) (r : Reported) (remaining : ℤ)
      → IsDigested seed r
      → IsDigested seed (fill id t x r remaining).reported
  unfolding fill
  fill-IsDigested id t x r remaining h =
      let q = min_ℤ remaining x.quantity in
      let traded = trade id t q x r in
      let h' = trade-IsDigested id t q x r h in
      let (book, reduced) = reduce_order x.order_id q traded.engine.book in
      elim (Bool-cases (reduce_order x.order_id q traded.engine.book).1) [
        | inl done ↦ rw done (update_book-IsDigested book traded h')
        | inr failed ↦ rw failed (
            fail_internally-IsDigested id t (update_book book traded)
              (update_book-IsDigested book traded h'))
      ]

  match_best-IsDigested :
      (id : ℕ) (t : ℤ) (x : Order) (r : Reported) (remaining : ℤ)
      → IsDigested seed r
      → IsDigested seed (match_best id t x r remaining).reported
  unfolding match_best
  match_best-IsDigested id t x r remaining h =
      elim (Option-cases (find x.order_id r.engine.states)) [
        | inl e ↦ rw (e, match_best) (fail_internally-IsDigested id t r h)
        | inr (s, e) ↦ rw (e, match_best) (fill-IsDigested id t x r remaining h)
      ]

  turn-IsDigested :
      (id : ℕ) (t : ℤ) (s : OrderState) (r : Reported) (remaining : ℤ)
      → IsDigested seed r
      → IsDigested seed (turn id t s r remaining).reported
  unfolding turn
  turn-IsDigested id t s r remaining h =
      elim (Bool-cases (
        ltb_ℤ (pos 0) remaining && crosses s.side s.order_type s.limit_price_ticks r.engine.book)) [
          | inr done ↦ rw done h
          | inl on ↦ elim (Option-cases (best_order (opposite s.side) r.engine.book)) [
            | inl e ↦ rw (on, e) h
            | inr (x, e) ↦ rw (on, e) (match_best-IsDigested id t x r remaining h)
          ]
        ]

  turn_of-IsDigested :
      (id : ℕ) (t : ℤ) (r : Reported) (remaining : ℤ)
      → IsDigested seed r
      → IsDigested seed (turn_of id t r remaining).reported
  unfolding turn_of
  turn_of-IsDigested id t r remaining h = elim (Option-cases (find id r.engine.states)) [
    | inl e ↦ rw (e, turn_of) h
    | inr (s, e) ↦ rw (e, turn_of) (turn-IsDigested id t s r remaining h)
  ]

  match_loop-IsDigested :
      (fuel id : ℕ) (t : ℤ) (r : Reported) (remaining : ℤ)
      → IsDigested seed r
      → IsDigested seed (match_loop fuel id t r remaining).reported
  unfolding match_loop
  match_loop-IsDigested zero id t r remaining h = h
  match_loop-IsDigested (suc fuel) id t r remaining h =
      let after = turn_of id t r remaining in
      let h' = turn_of-IsDigested id t r remaining h in
      elim (Bool-cases (turn_of id t r remaining).running) [
        | inl on ↦ rw on (match_loop-IsDigested fuel id t after.reported after.remaining h')
        | inr done ↦ rw done h'
      ]

  pub match_against_book-IsDigested :
      (id : ℕ) (t : ℤ) (r : Reported) (remaining : ℤ)
      → IsDigested seed r
      → IsDigested seed (match_against_book id t r remaining).reported
  unfolding match_against_book
  match_against_book-IsDigested id t r remaining h =
      match_loop-IsDigested (suc (order_count r.engine.book)) id t r remaining h
