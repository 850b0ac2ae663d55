-- ===== src/Gateway/Session.antt =====
-- The gateway behind a broker session: session/broker_session.cpp calls its `on_disconnect` and
-- `on_reconnect`.
use Prim.Native.String.{String}
use asterion.Prelude.{
  suc, ℕ, ◌≡◌, ◌∙◌, ap, inl, inr, refl, true, false, some, List, [], ◌∷◌, Bool-cases, Option-cases,
  if_true, if_false,
}
use asterion.Prelude.Int.{ℤ}
use asterion.Prelude.Assoc.{find, map_option}
use asterion.Matching.Report.{RejectReason}
use asterion.Matching.Admit.{NewOrderRequest}
use asterion.Broker.Event.{BrokerEventType, SessionConnectionState}
use asterion.Broker.{
  GatewayOps, SimulatedBrokerSession, is_connected, is_pending, record_event, session_event,
  cancel_one, cancel_each, cancel_live, disconnect, sort, live_ids,
}
use asterion.Gateway.{
  RiskGateway, RiskLimits, WorkingOrder, on_reconnect, reject_new_orders, decide, decide_request,
}
use asterion.Gateway.Shutdown.{audit_cancels, cancel_all_working_orders, on_disconnect}
use asterion.Gateway.Shutdown.Killed.{refusal}
use asterion.Gateway.Admit.{first_breach, connection_checks, check_new_order}

-- The gateway's own operations, where the session takes any.
abbrev pub gateway_ops : GatewayOps RiskGateway
gateway_ops = record { on_disconnect = on_disconnect; on_reconnect = on_reconnect }

abbrev Session : Type 0
Session = SimulatedBrokerSession RiskGateway

cancel_one-gateway : (t : ℤ) (id : ℕ) (s : Session) → (cancel_one t id s).gateway ≡ s.gateway
unfolding cancel_one record_event
cancel_one-gateway t id s = elim (Option-cases (find id s.orders)) [
  | inl e ↦ rw (e, cancel_one) refl
  | inr (o, e) ↦ elim (Bool-cases (is_pending o.state)) [
    | inl p ↦ rw (e, cancel_one, p) refl
    | inr p ↦ rw (e, cancel_one, p) refl
  ]
]

cancel_each-gateway :
    (t : ℤ) (ids : List ℕ) (s : Session) → (cancel_each t ids s).gateway ≡ s.gateway
unfolding cancel_each
cancel_each-gateway t [] s = refl
cancel_each-gateway t (id ∷ ids) s =
    cancel_each-gateway t ids (cancel_one t id s) ∙ cancel_one-gateway t id s

cancel_live-gateway : (t : ℤ) (s : Session) → (cancel_live t s).gateway ≡ s.gateway
unfolding cancel_live
cancel_live-gateway t s = elim (Bool-cases s.cancel_on_disconnect) [
  | inl e ↦
      ap (λ (x : Session). x.gateway) (if_true _ s e)
      ∙ cancel_each-gateway t (sort (live_ids s.orders)) s
  | inr e ↦
      ap (λ (x : Session). x.gateway) (if_false (cancel_each t (sort (live_ids s.orders)) s) s e)
]

-- A session that was connected hands its disconnect to the gateway.
disconnect-gateway :
    (t : ℤ) (s : Session) (g : RiskGateway)
    → is_connected s.state ≡ true
    → s.gateway ≡ some g
    → (disconnect gateway_ops t s).gateway ≡ some (on_disconnect t g)
unfolding disconnect record_event
disconnect-gateway t s g c e =
    let down = record_event (session_event t BrokerEventType.disconnect) (record s {
      state = SessionConnectionState.disconnected;
      disconnect_count = suc s.disconnect_count;
    }) in
    rw c (ap (map_option (on_disconnect t)) (cancel_live-gateway t down ∙ e))

module _ (t : ℤ) (reason : RejectReason) (name : String) where
  audit_cancels-frame :
      (os : List (ℕ × WorkingOrder)) (g : RiskGateway)
      → let h = audit_cancels t reason name os g in
        (h.connected ≡ g.connected) × (h.kill_switch ≡ g.kill_switch) × (h.limits ≡ g.limits)
  unfolding audit_cancels
  audit_cancels-frame [] g = (refl, refl, refl)
  audit_cancels-frame ((id, o) ∷ os) g = audit_cancels-frame os _

  cancel_all-frame :
      (g : RiskGateway)
      → let h = cancel_all_working_orders t reason name g in
        (h.connected ≡ g.connected) × (h.kill_switch ≡ g.kill_switch) × (h.limits ≡ g.limits)
  unfolding cancel_all_working_orders
  cancel_all-frame g = elim (Bool-cases g.record_audit) [
    | inl e ↦ rw e (audit_cancels-frame g.working_orders (record g { record_audit = true }))
    | inr e ↦ rw e (refl, refl, refl)
  ]

  cancel_all_idle :
      (g : RiskGateway)
      → ((cancel_all_working_orders t reason name g).working_orders ≡ [])
        × ((cancel_all_working_orders t reason name g).working_quantities ≡ [])
  unfolding cancel_all_working_orders
  cancel_all_idle g = (refl, refl)

on_disconnect-cancel :
    (t : ℤ) (g : RiskGateway)
    → g.connected ≡ true
    → g.limits.cancel_on_disconnect ≡ true
    → on_disconnect t g
      ≡ cancel_all_working_orders t RejectReason.disconnected "disconnect_cancel"
          (record g { connected = false; disconnect_count = suc g.disconnect_count })
unfolding on_disconnect
on_disconnect-cancel t g c e = rw (c, e) refl

check_new_order_offline :
    (r : NewOrderRequest) (now_ns : ℤ) (g : RiskGateway)
    → g.kill_switch ≡ false
    → g.connected ≡ false
    → g.limits.disconnect_order_policy ≡ reject_new_orders
    → (check_new_order r now_ns g).1 ≡ refusal RejectReason.disconnected
unfolding check_new_order first_breach connection_checks decide_request decide
check_new_order_offline r now_ns g k c p = rw (k, c, p) refl

-- A connected session that is disconnected cuts its gateway off, if the gateway was connected with its
-- kill switch off, cancels on a disconnect and refuses new orders while it lasts: then no order works,
-- none counts, and a new order is refused as disconnected.
pub session_disconnect :
    (t : ℤ) (s : Session) (g : RiskGateway) (r : NewOrderRequest) (now_ns : ℤ)
    → is_connected s.state ≡ true
    → s.gateway ≡ some g
    → g.connected ≡ true
    → g.kill_switch ≡ false
    → g.limits.cancel_on_disconnect ≡ true
    → g.limits.disconnect_order_policy ≡ reject_new_orders
    → (h : RiskGateway) × ((disconnect gateway_ops t s).gateway ≡ some h)
      × (h.working_orders ≡ [])
      × (h.working_quantities ≡ [])
      × ((check_new_order r now_ns h).1 ≡ refusal RejectReason.disconnected)
session_disconnect t s g r now_ns up e c k cancels p =
    let down = record g { connected = false; disconnect_count = suc g.disconnect_count } in
    let h = cancel_all_working_orders t RejectReason.disconnected "disconnect_cancel" down in
    let (offline, alive, limits) =
      cancel_all-frame t RejectReason.disconnected "disconnect_cancel" down in
    let (orders, quantities) =
      cancel_all_idle t RejectReason.disconnected "disconnect_cancel" down in
    (
      h,
      disconnect-gateway t s g up e ∙ ap some (on_disconnect-cancel t g c cancels),
      orders,
      quantities,
      check_new_order_offline r now_ns h (alive ∙ k) offline
          (ap (λ (l : RiskLimits). l.disconnect_order_policy) limits ∙ p),
    )
