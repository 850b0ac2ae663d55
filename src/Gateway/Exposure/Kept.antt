-- ===== src/Gateway/Exposure/Kept.antt =====
-- Every call of the gateway keeps its working orders tracked.
use asterion.Prelude.{
  ℕ, ◌==◌, ◌≡◌, ◌∙◌, sym, ap, subst, inl, inr, refl, Bool, true, not, ◌&&◌, ◌||◌, none, some,
  if◌then◌else◌, Bool-cases, Option-cases, arith, ==-eq,
}
use asterion.Prelude.Text.{Text}
use asterion.Prelude.Int.{ℤ, pos, ◌+ℤ◌, ◌<ℤ◌, ltb_ℤ, eqb_ℤ}
use asterion.Prelude.Assoc.{find, put, find-put, put-IsUnique, AllValues-put}
use asterion.Core.Types.{Side}
use asterion.Matching.Report.{RejectReason, ExecutionReport}
use asterion.Matching.Admit.{NewOrderRequest}
use asterion.Gateway.ClientOrderIds.{contains, insert}
use asterion.Gateway.ClientOrderIds.Members.{insert-IsHashed, contains-insert}
use asterion.Gateway.Rate.{rate_limit_allows}
use asterion.Gateway.{RiskGateway, WorkingOrder, working_quantity, decide}
use asterion.Gateway.Working.{is_limit, is_gtc, register_working_order, bind_exchange_order_id}
use asterion.Gateway.Reports.{
  is_final, reported_key, update_from_report, upsert_working_order_from_report, on_execution_report,
}
use asterion.Gateway.Admit.Counted.{rate_limit_allows-with_rates}
use asterion.Gateway.Exposure.Open.{open_quantity, share_of, IsPositive, open_quantity-put}
use asterion.Gateway.Exposure.Quantities.{working_quantity-add}
use asterion.Gateway.Exposure.Tracked.{
  IsTracked, IsTracked-same, add_frame, release_order-IsTracked, change_terms-IsTracked,
  bind_exchange_order_id-IsTracked,
}

pub decide-IsTracked :
    (now_ns : ℤ) (id symbol_id : ℕ) (side : Side) (name : Text) (accepted : Bool)
    (reason : RejectReason) (limit_value observed_value : ℤ) (g : RiskGateway)
    → IsTracked g
    → IsTracked
        (decide now_ns id symbol_id side name accepted reason limit_value observed_value g).0
unfolding decide
decide-IsTracked now_ns id symbol_id side name accepted reason l v g t =
    elim (Bool-cases g.record_audit) [
      | inl e ↦ rw e (IsTracked-same g _ refl refl refl t)
      | inr e ↦ rw e (IsTracked-same g _ refl refl refl t)
    ]

pub rate_limit_allows-IsTracked :
    (r : NewOrderRequest) (now_ns : ℤ) (g : RiskGateway)
    → IsTracked g
    → IsTracked (rate_limit_allows r now_ns g).0
rate_limit_allows-IsTracked r now_ns g t =
    rw (rate_limit_allows-with_rates r now_ns g) (IsTracked-same g _ refl refl refl t)

pub insert-IsTracked :
    (id : ℕ) (g : RiskGateway)
    → IsTracked g
    → IsTracked (record g { accepted_client_order_ids = insert id g.accepted_client_order_ids })
unfolding working_quantity
insert-IsTracked id g t = record {
  unique = t.unique;
  positive = t.positive;
  tracked = t.tracked;
  known = λ k o e.
      rw (contains-insert id k g.accepted_client_order_ids t.hashed, t.known k o e) (ground arith);
  hashed = insert-IsHashed id g.accepted_client_order_ids t.hashed;
}

-- A new order with a known id that no working order has.
pub register_working_order-IsTracked :
    (r : NewOrderRequest) (g : RiskGateway)
    → pos 0 <ℤ r.quantity
    → find r.client_order_id g.working_orders ≡ none
    → contains r.client_order_id g.accepted_client_order_ids ≡ true
    → IsTracked g
    → IsTracked (register_working_order r g)
unfolding register_working_order working_quantity
register_working_order-IsTracked r g h absent there t =
    elim (Bool-cases (not (is_limit r.order_type) || not (is_gtc r.time_in_force))) [
      | inl e ↦ rw e t
      | inr e ↦
          let o : WorkingOrder = record {
            client_id = r.client_id;
            symbol_id = r.symbol_id;
            side = r.side;
            price_ticks = r.price_ticks;
            quantity = r.quantity;
            exchange_order_id = 0;
          } in
          let placed = record g { working_orders = put r.client_order_id o g.working_orders } in
          let (orders, ids) = add_frame o o.quantity placed in
          rw e (record {
            unique = rw orders (put-IsUnique r.client_order_id o g.working_orders t.unique absent);
            positive =
                rw orders
                  (AllValues-put IsPositive r.client_order_id o g.working_orders h t.positive);
            tracked = λ s.
                working_quantity-add o placed s h
                ∙ ap (λ v. v +ℤ share_of s o) (t.tracked s)
                ∙ sym (open_quantity-put s r.client_order_id o g.working_orders absent)
                ∙ sym (ap (open_quantity s) orders);
            known = λ k w.
                rw (orders, ids, find-put r.client_order_id k o g.working_orders)
                  (elim (Bool-cases (r.client_order_id == k)) [
                    | inl q ↦ λ _.
                        subst (λ n. contains n g.accepted_client_order_ids ≡ true)
                          (==-eq r.client_order_id k q) there
                    | inr q ↦ rw q (t.known k w)
                  ]);
            hashed = rw ids t.hashed;
          })
    ]

-- A report of an order that still works.
update_from_report-IsTracked :
    (r : ExecutionReport) (key : ℕ) (o : WorkingOrder) (g : RiskGateway)
    → find key g.working_orders ≡ some o
    → pos 0 <ℤ r.remaining_quantity
    → IsTracked g
    → IsTracked (update_from_report r key o g)
unfolding update_from_report
update_from_report-IsTracked r key o g e h t =
    let b = bind_exchange_order_id-IsTracked g t o key r.exchange_order_id e in
    let bound = bind_exchange_order_id o key r.exchange_order_id g in
    elim (Option-cases (find key bound.working_orders)) [
      | inl lost ↦ rw (lost, update_from_report) b
      | inr (w, there) ↦
          let price =
            if ltb_ℤ (pos 0) r.resting_price_ticks then r.resting_price_ticks else w.price_ticks in
          elim (Bool-cases (eqb_ℤ w.quantity r.remaining_quantity && eqb_ℤ w.price_ticks price)) [
            | inl same ↦ rw (there, update_from_report, same) b
            | inr other ↦
                rw (there, update_from_report, other)
                  (change_terms-IsTracked bound b key w price r.remaining_quantity there h)
          ]
    ]

pub on_execution_report-IsTracked :
    (r : ExecutionReport) (g : RiskGateway) → IsTracked g → IsTracked (on_execution_report r g)
unfolding on_execution_report upsert_working_order_from_report
on_execution_report-IsTracked r g t = elim (Bool-cases (r.client_order_id == 0)) [
  | inl e ↦ rw e t
  | inr e ↦ elim (Option-cases (reported_key r g)) [
    | inl lost ↦ rw (e, lost, upsert_working_order_from_report) t
    | inr (key, there) ↦ elim (Bool-cases (is_final r)) [
      | inl final ↦
          rw (e, there, upsert_working_order_from_report, final)
            (release_order-IsTracked g t r.client_order_id)
      | inr on ↦ elim (Option-cases (find key g.working_orders)) [
        | inl gone ↦ rw (e, there, upsert_working_order_from_report, on, gone) t
        | inr (o, works) ↦
            rw (e, there, upsert_working_order_from_report, on, works)
              (update_from_report-IsTracked r key o g works (ground (arith, on)) t)
      ]
    ]
  ]
]
