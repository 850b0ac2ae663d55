-- ===== src/Matching/Prices.antt =====
-- The fills that are reported: of some quantity, at a price within the incoming order's limit.
use asterion.Prelude.{ℕ, ◌≡◌, inl, inr, true, [], ◌∷◌, Option-cases, All, All-append}
use asterion.Prelude.Int.{ℤ, pos, ◌<ℤ◌}
use asterion.Prelude.Assoc.{find}
use asterion.Core.Types.{Side}
use asterion.Book.Queue.{Order}
use asterion.Matching.Report.{OrderType, ExecType, RejectReason, ExecutionReport}
use asterion.Matching.Admit.{reaches}
use asterion.Matching.Loop.{trade, filled_by}
use asterion.Matching.{Reported, update_state, report_state, record_report, make_report}

module _ (side : Side) (order_type : OrderType) (limit : ℤ) where
  -- A fill is of some quantity, at a price within the limit.
  pub record IsFair (report : ExecutionReport) : Type 0 where
    pub within :
        report.exec_type ≡ ExecType.trade
        → reaches side order_type limit report.last_fill_price_ticks ≡ true
    pub positive : report.exec_type ≡ ExecType.trade → pos 0 <ℤ report.last_fill_quantity

  pub report_state-IsFair :
      (j : ℕ) (exec_type : ExecType) (q p t : ℤ) (reason : RejectReason) (r : Reported)
      → (exec_type ≡ ExecType.trade → (reaches side order_type limit p ≡ true) × (pos 0 <ℤ q))
      → All IsFair r.reports
      → All IsFair (report_state j exec_type q p t reason r).reports
  unfolding report_state record_report make_report
  report_state-IsFair j exec_type q p t reason r fair a =
      elim (Option-cases (find j r.engine.states)) [
        | inl e ↦ rw (e, report_state) a
        | inr (s, e) ↦
            rw (e, report_state)
              (All-append IsFair r.reports (make_report s exec_type q p t reason ∷ []) a
                (record { within = λ h. (fair h).0; positive = λ h. (fair h).1 }, tt))
      ]

  pub trade-IsFair :
      (id : ℕ) (t q : ℤ) (x : Order) (r : Reported)
      → reaches side order_type limit x.price_ticks ≡ true
      → pos 0 <ℤ q
      → All IsFair r.reports
      → All IsFair (trade id t q x r).reports
  unfolding trade update_state
  trade-IsFair id t q x r reached some_quantity a =
      let filled1 = update_state x.order_id (filled_by q x.price_ticks) r in
      let filled2 = update_state id (filled_by q x.price_ticks) filled1 in
      report_state-IsFair id ExecType.trade q x.price_ticks t RejectReason.none
        (report_state x.order_id ExecType.trade q x.price_ticks t RejectReason.none filled2)
        (λ h. (reached, some_quantity))
        (report_state-IsFair x.order_id ExecType.trade q x.price_ticks t RejectReason.none filled2
          (λ h. (reached, some_quantity)) a)
