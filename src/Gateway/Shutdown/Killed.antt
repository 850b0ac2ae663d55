-- ===== src/Gateway/Shutdown/Killed.antt =====
-- The kill switch stays on until it is disabled, and nothing works while it is.
use Prim.Native.String.{String}
use asterion.Prelude.{
  ℕ, ◌==◌, ◌≡◌, ◌∙◌, ap, inl, inr, refl, Bool, true, false, none, List, [], ◌∷◌, All, Bool-cases,
  Option-cases,
}
use asterion.Prelude.Int.{ℤ}
use asterion.Prelude.Assoc.{find}
use asterion.Matching.Report.{RejectReason, ExecutionReport}
use asterion.Matching.Admit.{NewOrderRequest, ReplaceOrderRequest}
use asterion.Gateway.{
  RiskGateway, RiskResult, WorkingOrder, decide, decide_request, on_reconnect, on_market_data,
  set_position,
}
use asterion.Gateway.Working.{release_order}
use asterion.Gateway.Reports.{reported_key, upsert_working_order_from_report, on_execution_report}
use asterion.Gateway.Shutdown.{
  audit_cancels, cancel_all_working_orders, enable_kill_switch, on_disconnect,
}
use asterion.Gateway.Admit.{first_breach, connection_checks, check_new_order}
use asterion.Gateway.Replace.{check_replace_order}
use asterion.Gateway.Refused.{
  Matches, check_new_order-RefusalMatches, check_replace_order-RefusalMatches,
}
use asterion.Gateway.Calls.{
  Call, change_limits, kill, revive, lose_connection, regain_connection, see_market, see_position,
  ask_new, ask_replace, release, hear, reserve_ids, set_audit, clear_audit, step, run,
}

abbrev pub is_revive : Call → Bool
is_revive revive = true
is_revive _ = false

-- The kill switch is on, and no order works.
pub record IsKilled (g : RiskGateway) : Type 0 where
  pub killed : g.kill_switch ≡ true
  pub no_orders : g.working_orders ≡ []
  pub no_quantities : g.working_quantities ≡ []

abbrev pub refusal : RejectReason → RiskResult
refusal reason = record { accepted = false; reject_reason = reason }

module _ (now_ns : ℤ) (g : RiskGateway) (k : g.kill_switch ≡ true) where
  check_new_order-killed :
      (r : NewOrderRequest) → (check_new_order r now_ns g).1 ≡ refusal RejectReason.kill_switch
  unfolding check_new_order first_breach connection_checks decide_request decide
  check_new_order-killed r = rw k refl

  check_replace_order-killed :
      (r : ReplaceOrderRequest)
      → (check_replace_order r now_ns g).1 ≡ refusal RejectReason.kill_switch
  unfolding check_replace_order first_breach connection_checks decide
  check_replace_order-killed r = rw k refl

still-IsKilled :
    (g h : RiskGateway)
    → h.kill_switch ≡ g.kill_switch
    → h.working_orders ≡ g.working_orders
    → h.working_quantities ≡ g.working_quantities
    → IsKilled g
    → IsKilled h
still-IsKilled g h a b c k = record {
  killed = a ∙ k.killed;
  no_orders = b ∙ k.no_orders;
  no_quantities = c ∙ k.no_quantities;
}

Matches-IsKilled : (g h : RiskGateway) → Matches g h → IsKilled g → IsKilled h
Matches-IsKilled g h m k = record {
  killed = ap (λ (x : RiskGateway). x.kill_switch) m ∙ k.killed;
  no_orders = ap (λ (x : RiskGateway). x.working_orders) m ∙ k.no_orders;
  no_quantities = ap (λ (x : RiskGateway). x.working_quantities) m ∙ k.no_quantities;
}

audit_cancels-kill_switch :
    (t : ℤ) (reason : RejectReason) (name : String) (os : List (ℕ × WorkingOrder)) (g : RiskGateway)
    → (audit_cancels t reason name os g).kill_switch ≡ g.kill_switch
unfolding audit_cancels
audit_cancels-kill_switch t reason name [] g = refl
audit_cancels-kill_switch t reason name ((id, o) ∷ os) g =
    audit_cancels-kill_switch t reason name os _

cancel_all-IsKilled :
    (t : ℤ) (reason : RejectReason) (name : String) (g : RiskGateway)
    → g.kill_switch ≡ true
    → IsKilled (cancel_all_working_orders t reason name g)
unfolding cancel_all_working_orders
cancel_all-IsKilled t reason name g k = record {
  killed = elim (Bool-cases g.record_audit) [
    | inl e ↦ rw e (audit_cancels-kill_switch t reason name g.working_orders _ ∙ k)
    | inr e ↦ rw e k
  ];
  no_orders = refl;
  no_quantities = refl;
}

on_disconnect-IsKilled : (t : ℤ) (g : RiskGateway) → IsKilled g → IsKilled (on_disconnect t g)
unfolding on_disconnect
on_disconnect-IsKilled t g k = elim (Bool-cases g.connected) [
  | inr e ↦ rw e (still-IsKilled g _ refl refl refl k)
  | inl e ↦ elim (Bool-cases g.limits.cancel_on_disconnect) [
    | inl c ↦ rw (e, c) (cancel_all-IsKilled t RejectReason.disconnected _ _ k.killed)
    | inr c ↦ rw (e, c) (still-IsKilled g _ refl refl refl k)
  ]
]

-- With no order at work there is nothing to release and nothing that a report is about.
module _ (g : RiskGateway) (e : g.working_orders ≡ []) where
  find_idle : (id : ℕ) → find id g.working_orders ≡ none
  unfolding find
  find_idle id = rw e refl

  release_order_idle : (id : ℕ) → release_order id g ≡ g
  unfolding release_order
  release_order_idle id = rw (find_idle id, release_order) refl

  reported_key_idle : (r : ExecutionReport) → reported_key r g ≡ none
  unfolding reported_key
  reported_key_idle r = elim (Bool-cases (r.exchange_order_id == 0)) [
    | inl unnamed ↦ rw (find_idle r.client_order_id, reported_key, unnamed) refl
    | inr named ↦ elim (Option-cases (find r.exchange_order_id g.exchange_to_client_order_ids)) [
      | inl lost ↦ rw (find_idle r.client_order_id, reported_key, named, lost) refl
      | inr (id, there) ↦
          rw (find_idle r.client_order_id, reported_key, named, there, find_idle id) refl
    ]
  ]

  on_execution_report_idle : (r : ExecutionReport) → on_execution_report r g ≡ g
  unfolding on_execution_report upsert_working_order_from_report
  on_execution_report_idle r = elim (Bool-cases (r.client_order_id == 0)) [
    | inl z ↦ rw z refl
    | inr nz ↦ rw (nz, reported_key_idle r, upsert_working_order_from_report) refl
  ]

step-IsKilled :
    (c : Call) (g : RiskGateway) → is_revive c ≡ false → IsKilled g → IsKilled (step c g)
unfolding step on_reconnect on_market_data set_position enable_kill_switch
step-IsKilled (change_limits limits) g n k = still-IsKilled g _ refl refl refl k
step-IsKilled (kill t) g n k = cancel_all-IsKilled t RejectReason.kill_switch _ _ refl
step-IsKilled revive g n k = cc
step-IsKilled (lose_connection t) g n k = on_disconnect-IsKilled t g k
step-IsKilled (regain_connection t) g n k = still-IsKilled g _ refl refl refl k
step-IsKilled (see_market symbol_id price t) g n k = still-IsKilled g _ refl refl refl k
step-IsKilled (see_position symbol_id quantity) g n k = still-IsKilled g _ refl refl refl k
step-IsKilled (ask_new r now_ns) g n k =
    Matches-IsKilled g _
      (check_new_order-RefusalMatches r now_ns g
        (ap (λ (x : RiskResult). x.accepted) (check_new_order-killed now_ns g k.killed r)))
      k
step-IsKilled (ask_replace r now_ns) g n k =
    Matches-IsKilled g _
      (check_replace_order-RefusalMatches r now_ns g
        (ap (λ (x : RiskResult). x.accepted) (check_replace_order-killed now_ns g k.killed r)))
      k
step-IsKilled (release id) g n k = rw (release_order_idle g k.no_orders id) k
step-IsKilled (hear r) g n k = rw (on_execution_report_idle g k.no_orders r) k
step-IsKilled (reserve_ids m) g n k = still-IsKilled g _ refl refl refl k
step-IsKilled (set_audit enabled) g n k = still-IsKilled g _ refl refl refl k
step-IsKilled clear_audit g n k = still-IsKilled g _ refl refl refl k

run-IsKilled :
    (cs : List Call) (g : RiskGateway)
    → All (λ c. is_revive c ≡ false) cs
    → IsKilled g
    → IsKilled (run cs g)
unfolding run
run-IsKilled [] g n k = k
run-IsKilled (c ∷ cs) g n k = run-IsKilled cs (step c g) n.1 (step-IsKilled c g n.0 k)

-- After the kill switch is enabled and any calls that do not disable it, no order works, nothing counts
-- as working, and every new order and every replacement is refused for the kill switch.
pub run-enable_kill_switch :
    (t : ℤ) (cs : List Call) (g : RiskGateway) (r : NewOrderRequest) (p : ReplaceOrderRequest)
    (now_ns : ℤ)
    → All (λ c. is_revive c ≡ false) cs
    → let h = run cs (enable_kill_switch t g) in
      IsKilled h
      × ((check_new_order r now_ns h).1 ≡ refusal RejectReason.kill_switch)
      × ((check_replace_order p now_ns h).1 ≡ refusal RejectReason.kill_switch)
unfolding enable_kill_switch
run-enable_kill_switch t cs g r p now_ns n =
    let k =
      run-IsKilled cs (enable_kill_switch t g) n
        (cancel_all-IsKilled t RejectReason.kill_switch _ _ refl) in
    (
      k,
      check_new_order-killed now_ns (run cs (enable_kill_switch t g)) k.killed r,
      check_replace_order-killed now_ns (run cs (enable_kill_switch t g)) k.killed p,
    )
