-- ===== src/Matching/SelfTrade.antt =====
-- Self-trade prevention: `would_self_trade`, and the loop after it.
use asterion.Prelude.{
  ℕ, zero, suc, ◌≡◌, ◌≢◌, refl, sym, ap, subst, ◌∙◌, inl, inr, ◌==◌, true, false, some, List, [],
  ◌∷◌, arith, if◌then◌else◌, ==-eq, Bool-cases, Option-cases, All, All-append,
}
use asterion.Prelude.Int.{ℤ}
use asterion.Prelude.Assoc.{find}
use asterion.Core.Types.{Side, buy, sell, opposite, eqb_side}
use asterion.Book.Queue.{Order, is_valid_resting_order}
use asterion.Book.Replace.{find_order_belongs}
use asterion.Book.{OrderBook, find_order, order_count}
use asterion.Matching.Report.{OrderType, ExecType, RejectReason, ExecutionReport}
use asterion.Matching.State.{OrderState}
use asterion.Matching.Admit.{NewOrderRequest, reaches, self_trade_among, would_self_trade}
use asterion.Matching.Loop.{Round, trade, filled_by, match_loop, turn_of}
use asterion.Matching.Rounds.{InLoop, Turned, finished, traded, Takes, turn_of-Turned}
use asterion.Matching.Sound.{IsSound, report_state-engine}
use asterion.Matching.Terms.{WellFormed, malformed-WellFormed}
use asterion.Matching.Trade.{traded_states}
use asterion.Matching.Register.{HasNextId, announced}
use asterion.Matching.Submit.{
  reserve-engine, reserve-IsSound, next, next-WellFormed, next-HasNextId,
}
use asterion.Matching.Fills.{
  announced_book, announced-InLoop, accept-All, announced-All, submit-All, submit_order-post_only,
}
use asterion.Matching.Handlers.{unfit, passes, accept, submit_order}
use asterion.Matching.{
  MatchingEngine, Reported, record_report, make_report, report_state, update_state,
}

eqb_side_refl : (s : Side) → eqb_side s s ≡ true
unfolding eqb_side
eqb_side_refl buy = refl
eqb_side_refl sell = refl
eqb_side_refl Side.none = refl

-- Where the test finds no self-trade, an order of the other side that is reached is of another client.
self_trade_among-none :
    (side : Side) (order_type : OrderType) (limit : ℤ) (client : ℕ) (b : OrderBook)
    (states : List (ℕ × OrderState))
    → self_trade_among side order_type limit client 0 b states ≡ false
    → (j : ℕ) (s : OrderState) (o : Order) → find j states ≡ some s
    → find_order j b ≡ some o
    → j ≢ 0
    → s.side ≡ opposite side
    → reaches side order_type limit s.limit_price_ticks ≡ true
    → s.client_id ≢ client
unfolding self_trade_among find
self_trade_among-none side order_type limit client b [] h j s o there found nonzero on_side
      reached =
    absurd (cc there)
self_trade_among-none side order_type limit client b ((k, w) ∷ states) h j s o there found nonzero
      on_side reached =
    λ same. elim (Bool-cases (k == j)) [
      | inl here ↦
          let is : w ≡ s = ground arith in
          let at = ==-eq _ _ here in
          let side_same : eqb_side w.side (opposite side) ≡ true =
            ap (λ x. eqb_side x (opposite side)) (ap (λ (x : OrderState). x.side) is ∙ on_side)
            ∙ eqb_side_refl (opposite side) in
          let known : find_order k b ≡ some o = ap (λ i. find_order i b) at ∙ found in
          let within : reaches side order_type limit w.limit_price_ticks ≡ true =
            ap (λ (x : OrderState). reaches side order_type limit x.limit_price_ticks) is
            ∙ reached in
          let theirs : w.client_id ≡ client = ap (λ (x : OrderState). x.client_id) is ∙ same in
          absurd (ground arith)
      | inr elsewhere ↦
          self_trade_among-none side order_type limit client b states (ground arith) j s o
            (ground arith) found nonzero on_side reached same
    ]

module _ (id client : ℕ) (states : List (ℕ × OrderState)) where
  abbrev pub IsOfAnother : ℕ → Type 0
  IsOfAnother j = (s : OrderState) × (find j states ≡ some s) × (s.client_id ≢ client)

  -- A fill of an order other than `id` is of an order of another client.
  pub record IsForeign (report : ExecutionReport) : Type 0 where
    pub against :
        report.exec_type ≡ ExecType.trade
        → report.exchange_order_id ≢ id
        → IsOfAnother report.exchange_order_id

  report_state-IsForeign :
      (j : ℕ) (q p t : ℤ) (r : Reported)
      → ((s : OrderState) → find j r.engine.states ≡ some s → s.exchange_order_id ≡ j)
      → (j ≢ id → IsOfAnother j)
      → All IsForeign r.reports
      → All IsForeign (report_state j ExecType.trade q p t RejectReason.none r).reports
  unfolding report_state record_report make_report
  report_state-IsForeign j q p t r named other a = elim (Option-cases (find j r.engine.states)) [
    | inl e ↦ rw (e, report_state) a
    | inr (s, e) ↦
        rw (e, report_state)
          (All-append IsForeign r.reports
            (make_report s ExecType.trade q p t RejectReason.none ∷ []) a
            (
              record {
                against = λ h ne.
                    subst IsOfAnother (sym (named s e)) (other (λ same. ne (named s e ∙ same)));
              },
              tt,
            ))
  ]

  trade-IsForeign :
      (t q : ℤ) (x : Order) (r : Reported)
      → ((j : ℕ) (s : OrderState)
          → find j (traded_states id x.order_id q x.price_ticks r.engine.states) ≡ some s
          → s.exchange_order_id ≡ j)
      → IsOfAnother x.order_id
      → All IsForeign r.reports
      → All IsForeign (trade id t q x r).reports
  unfolding trade update_state
  trade-IsForeign t q x r named other a =
      let filled2 =
        update_state id (filled_by q x.price_ticks)
          (update_state x.order_id (filled_by q x.price_ticks) r) in
      let reported1 =
        report_state x.order_id ExecType.trade q x.price_ticks t RejectReason.none filled2 in
      let same_states : reported1.engine.states ≡ filled2.engine.states =
        ap (λ (e : MatchingEngine). e.states)
          (report_state-engine x.order_id ExecType.trade q x.price_ticks t RejectReason.none
            filled2) in
      report_state-IsForeign id q x.price_ticks t reported1
        (λ s e. named id s (ap (find id) (sym same_states) ∙ e)) (λ ne. absurd (ne refl))
        (report_state-IsForeign x.order_id q x.price_ticks t filled2 (named x.order_id)
          (λ ne. other) a)

module _ (r : NewOrderRequest) (e : MatchingEngine) where
  abbrev id_of : ℕ
  id_of = e.next_exchange_order_id

  abbrev Foreign : ExecutionReport → Type 0
  Foreign = IsForeign id_of r.client_id e.states

  -- Every order of the other side that `r` reaches is of another client.
  abbrev IsFree : OrderBook → Type 0
  IsFree b =
      (j : ℕ) (o : Order)
      → find_order j b ≡ some o
      → o.side ≡ opposite r.side
      → reaches r.side r.order_type r.price_ticks o.price_ticks ≡ true
      → IsOfAnother id_of r.client_id e.states j

  others-IsForeign : (x : ExecutionReport) → x.exec_type ≢ ExecType.trade → Foreign x
  others-IsForeign x other = record { against = λ t. absurd (other t) }

  turn-IsForeign :
      (p : Reported) (remaining : ℤ) (after : Round)
      → Takes id_of r.side r.order_type r.price_ticks r.timestamp_ns p remaining after
      → IsFree p.engine.book
      → All Foreign p.reports
      → IsFree after.reported.engine.book × All Foreign after.reported.reports
  turn-IsForeign p remaining after t free a = (
    λ j o found on_side reached.
        let (z, there, side, price) = t.before j o found in
        free j z there (side ∙ on_side)
          (ap (reaches r.side r.order_type r.price_ticks) price ∙ reached),
    subst (All Foreign) (sym t.reports) (
        trade-IsForeign id_of r.client_id e.states r.timestamp_ns t.taken t.resting p t.named
          (free t.resting.order_id t.resting t.found t.on_side t.reached) a),
  )

  match_loop-IsForeign :
      (fuel : ℕ) (p : Reported) (remaining : ℤ)
      → InLoop id_of r.side r.order_type r.price_ticks r.timestamp_ns p remaining
      → IsFree p.engine.book
      → All Foreign p.reports
      → All Foreign (match_loop fuel id_of r.timestamp_ns p remaining).reported.reports
  unfolding match_loop
  match_loop-IsForeign zero p remaining l free a = a
  match_loop-IsForeign (suc fuel) p remaining l free a =
      go (turn_of id_of r.timestamp_ns p remaining)
        (turn_of-Turned id_of r.side r.order_type r.price_ticks r.timestamp_ns p remaining l.0 l.1)
        (λ p' q. match_loop-IsForeign fuel p' q)
    where
      go :
          (after : Round)
          → Turned id_of r.side r.order_type r.price_ticks r.timestamp_ns p remaining after
          → ((p' : Reported) (q : ℤ)
              → InLoop id_of r.side r.order_type r.price_ticks r.timestamp_ns p' q
              → IsFree p'.engine.book
              → All Foreign p'.reports
              → All Foreign (match_loop fuel id_of r.timestamp_ns p' q).reported.reports)
          → All Foreign
              (if after.running
                then match_loop fuel id_of r.timestamp_ns after.reported after.remaining
                else after).reported.reports
      go after (finished done is) later = rw is a
      go after (traded running on nonempty l' _ progress takes) later =
          let (free', a') = turn-IsForeign p remaining after takes free a in
          rw running (later after.reported after.remaining l' free' a')

  -- The test on the states of a sound engine tells which orders are reached.
  self_trade_among-IsFree :
      IsSound e
      → self_trade_among r.side r.order_type r.price_ticks r.client_id 0 e.book e.states ≡ false
      → IsFree e.book
  unfolding is_valid_resting_order
  self_trade_among-IsFree h none_found j o found on_side reached =
      let b = h.backed j o found in
      let (named, belongs) = find_order_belongs j o e.book h.valid found in
      (
        b.state,
        b.found,
        self_trade_among-none r.side r.order_type r.price_ticks r.client_id e.book e.states
            none_found j b.state o b.found found (ground (arith, belongs.resting))
            (b.same_side ∙ on_side)
            (ap (reaches r.side r.order_type r.price_ticks) b.same_price ∙ reached),
      )

  accept-IsForeign :
      (h : IsSound e)
      → (ids : HasNextId e) → (w : WellFormed r e)
      → self_trade_among r.side r.order_type r.price_ticks r.client_id 0 e.book e.states ≡ false
      → All Foreign (accept r e).reports
  accept-IsForeign h ids w none_found =
      let start = announced r e h ids w in
      accept-All r e h ids w Foreign others-IsForeign (
        match_loop-IsForeign (suc (order_count start.engine.book)) start r.quantity
          (announced-InLoop r e h ids w)
          (subst IsFree (sym (announced_book r e h ids w)) (self_trade_among-IsFree h none_found))
          (announced-All Foreign others-IsForeign r e))

no_self_trade :
    (r : NewOrderRequest) (e : MatchingEngine)
    → r.client_id ≢ 0
    → r.post_only ≡ false
    → passes (unfit r e) ≡ true
    → self_trade_among r.side r.order_type r.price_ticks r.client_id 0 e.book e.states ≡ false
unfolding unfit would_self_trade
no_self_trade r e client active fit = ground arith

All-weaken :
    {P Q : ExecutionReport → Type 0} (xs : List ExecutionReport)
    → ((x : ExecutionReport) → P x → Q x)
    → All P xs
    → All Q xs
All-weaken [] f a = tt
All-weaken (x ∷ xs) f a = (f x a.0, All-weaken xs f a.1)

-- An order that names its client is submitted to a sound engine, while exchange order ids are left.
-- Every fill that it reports of an order other than itself is of an order of another client.
pub submit_order-IsForeign :
    (r : NewOrderRequest) (e : MatchingEngine)
    → IsSound e
    → HasNextId e
    → r.client_id ≢ 0
    → All (IsForeign e.next_exchange_order_id r.client_id e.states) (submit_order r e).reports
submit_order-IsForeign r e h ids client = elim (Bool-cases r.post_only) [
  | inl passive ↦
      All-weaken (submit_order r e).reports (others-IsForeign r e)
        (submit_order-post_only r e h ids passive)
  | inr active ↦ submit-All (Foreign r e) (others-IsForeign r e) r e (λ good fit.
      subst
        (λ (x : MatchingEngine).
          All (IsForeign x.next_exchange_order_id r.client_id x.states)
            (accept r (next r e)).reports)
        (reserve-engine r.client_order_id e)
        (accept-IsForeign r (next r e) (reserve-IsSound r.client_order_id e h)
          (next-HasNextId r e ids) (next-WellFormed r e (malformed-WellFormed r e good))
          (no_self_trade r (next r e) client active fit)))
]
