-- ===== src/Broker/Lifecycle.antt =====
-- A broker session over any calls: it stays consistent, and its orders move only along their states.
use asterion.Prelude.{
  ℕ, suc, ◌==◌, ◌≡◌, refl, sym, ap, subst, ◌∙◌, inl, inr, Bool, true, false, not, ◌||◌, List, [],
  ◌∷◌, if◌then◌else◌, arith, Bool-cases, Option-cases,
}
use asterion.Prelude.Int.{ℤ}
use asterion.Prelude.Assoc.{find, emplace, IsUnique, emplace-IsUnique}
use asterion.Broker.Event.{
  BrokerOrderState, accepted, pending_cancel, canceled, filled, connected, disconnected,
  BrokerEventType, checksum_broker_session_events,
}
use asterion.Broker.Disconnect.{IsLiveIn, live_ids-IsLiveIn, sort-All}
use asterion.Broker.Trace.{
  Call, connect_at, disconnect_at, reconnect_at, accept_order, ask_cancel, confirm_cancel,
  refuse_cancel, fill_order, set_cancel_on_disconnect, attach_risk_gateway, step, run, IsConsistent,
  record_event-IsConsistent, cancel_each-IsConsistent, transition-IsConsistent,
  count_orders-emplace, is_canceled, is_filled, new_session-IsConsistent,
}
use asterion.Broker.{
  OrderRecord, GatewayOps, SimulatedBrokerSession, new_session, record_event, connect, disconnect,
  reconnect, cancel_each, cancel_live, on_order_accepted, request_cancel, acknowledge_cancel,
  reject_cancel, on_order_filled, is_pending, is_accepted, is_live, is_connected, with_state,
  live_ids, sort, count_orders, session_event, order_event,
}

-- The fields that consistency does not read.
same-IsConsistent :
    {G : Type 0} (s u : SimulatedBrokerSession G)
    → u.event_checksum ≡ s.event_checksum
    → u.events ≡ s.events
    → u.orders ≡ s.orders
    → u.canceled_order_count ≡ s.canceled_order_count
    → u.filled_order_count ≡ s.filled_order_count
    → IsConsistent s
    → IsConsistent u
same-IsConsistent s u e1 e2 e3 e4 e5 h = record {
  logged = e1 ∙ h.logged ∙ ap checksum_broker_session_events (sym e2);
  canceled_counted = e4 ∙ h.canceled_counted ∙ ap (count_orders is_canceled) (sym e3);
  filled_counted = e5 ∙ h.filled_counted ∙ ap (count_orders is_filled) (sym e3);
  unique = subst IsUnique (sym e3) h.unique;
}

lives_accepted : (x : BrokerOrderState) → is_accepted x ≡ true → is_live x ≡ true
lives_accepted x h = rw h

lives_pending : (x : BrokerOrderState) → is_pending x ≡ true → is_live x ≡ true
lives_pending x h = ground arith

module _ {G : Type 0} where
  connect-IsConsistent :
      (t : ℤ) (s : SimulatedBrokerSession G) → IsConsistent s → IsConsistent (connect t s)
  unfolding connect
  connect-IsConsistent t s h = elim (Bool-cases (is_connected s.state)) [
    | inl up ↦ rw up h
    | inr down ↦ rw down (
        record_event-IsConsistent (session_event t BrokerEventType.connect)
          (record s { state = connected; connect_count = suc s.connect_count })
          (same-IsConsistent s _ refl refl refl refl refl h))
  ]

  accept-IsConsistent :
      (id : ℕ) (o : OrderRecord) (t : ℤ) (s : SimulatedBrokerSession G)
      → IsConsistent s
      → IsConsistent (on_order_accepted id o t s).0
  unfolding on_order_accepted
  accept-IsConsistent id o t s h = elim (Bool-cases (not (is_connected s.state) || (id == 0))) [
    | inl bad ↦ rw bad h
    | inr good ↦ elim (Option-cases (find id s.orders)) [
      | inr (x, there) ↦ rw (good, there) h
      | inl absent ↦
          rw (good, absent)
            (record_event-IsConsistent (order_event t BrokerEventType.order_accepted id o)
              (record s { orders = emplace id (with_state accepted o) s.orders })
              (record {
                logged = h.logged;
                canceled_counted = ground (
                  arith,
                  h.canceled_counted,
                  count_orders-emplace is_canceled id (with_state accepted o) s.orders absent,
                );
                filled_counted = ground (
                  arith,
                  h.filled_counted,
                  count_orders-emplace is_filled id (with_state accepted o) s.orders absent,
                );
                unique = emplace-IsUnique id (with_state accepted o) s.orders h.unique;
              }))
    ]
  ]

  if-IsConsistent :
      (c : Bool) (s u : SimulatedBrokerSession G)
      → IsConsistent s
      → IsConsistent u
      → IsConsistent (if c then s else u)
  if-IsConsistent true s u h k = h
  if-IsConsistent false s u h k = k

  cancel_live-IsConsistent :
      (t : ℤ) (s : SimulatedBrokerSession G) → IsConsistent s → IsConsistent (cancel_live t s)
  unfolding cancel_live
  cancel_live-IsConsistent t s h =
      if-IsConsistent s.cancel_on_disconnect (cancel_each t (sort (live_ids s.orders)) s) s
        (cancel_each-IsConsistent t (sort (live_ids s.orders)) s
          (sort-All (IsLiveIn s.orders) (live_ids s.orders) (live_ids-IsLiveIn s.orders h.unique))
          h)
        h

  -- The session once it knows that it is disconnected.
  abbrev pub went_down : ℤ → SimulatedBrokerSession G → SimulatedBrokerSession G
  went_down t s =
      record_event (session_event t BrokerEventType.disconnect)
        (record s { state = disconnected; disconnect_count = suc s.disconnect_count })

  pub went_down-IsConsistent :
      (t : ℤ) (s : SimulatedBrokerSession G) → IsConsistent s → IsConsistent (went_down t s)
  went_down-IsConsistent t s h =
      record_event-IsConsistent (session_event t BrokerEventType.disconnect)
        (record s { state = disconnected; disconnect_count = suc s.disconnect_count })
        (same-IsConsistent s _ refl refl refl refl refl h)

  module _ (ops : GatewayOps G) where
    disconnect-IsConsistent :
        (t : ℤ) (s : SimulatedBrokerSession G) → IsConsistent s → IsConsistent (disconnect ops t s)
    unfolding disconnect
    disconnect-IsConsistent t s h = elim (Bool-cases (is_connected s.state)) [
      | inr off ↦ rw off h
      | inl on ↦ rw on (
          same-IsConsistent (cancel_live t (went_down t s)) _ refl refl refl refl refl
            (cancel_live-IsConsistent t (went_down t s) (went_down-IsConsistent t s h)))
    ]

    reconnect-IsConsistent :
        (t : ℤ) (s : SimulatedBrokerSession G) → IsConsistent s → IsConsistent (reconnect ops t s)
    unfolding reconnect
    reconnect-IsConsistent t s h = elim (Bool-cases (is_connected s.state)) [
      | inl up ↦ rw up h
      | inr down ↦
          let back =
            record_event (session_event t BrokerEventType.reconnect)
              (record s { state = connected; reconnect_count = suc s.reconnect_count }) in
          rw down (
            same-IsConsistent back _ refl refl refl refl refl (
              record_event-IsConsistent (session_event t BrokerEventType.reconnect)
                (record s { state = connected; reconnect_count = suc s.reconnect_count })
                (same-IsConsistent s _ refl refl refl refl refl h)))
    ]

    step-IsConsistent :
        (c : Call G) (s : SimulatedBrokerSession G) → IsConsistent s → IsConsistent (step ops c s)
    unfolding step request_cancel acknowledge_cancel reject_cancel on_order_filled
    step-IsConsistent (connect_at t) s h = connect-IsConsistent t s h
    step-IsConsistent (disconnect_at t) s h = disconnect-IsConsistent t s h
    step-IsConsistent (reconnect_at t) s h = reconnect-IsConsistent t s h
    step-IsConsistent (accept_order id o t) s h = accept-IsConsistent id o t s h
    step-IsConsistent (ask_cancel id t) s h =
        transition-IsConsistent is_accepted pending_cancel BrokerEventType.cancel_requested (λ u. u)
          lives_accepted (λ u. (refl, refl, refl, omega arith, omega arith)) id t s h
    step-IsConsistent (confirm_cancel id t) s h =
        transition-IsConsistent is_pending canceled BrokerEventType.cancel_acknowledged
          (λ u. record u { canceled_order_count = suc u.canceled_order_count }) lives_pending
          (λ u. (refl, refl, refl, omega arith, omega arith)) id t s h
    step-IsConsistent (refuse_cancel id t) s h =
        transition-IsConsistent is_pending accepted BrokerEventType.cancel_rejected
          (λ u. record u { cancel_reject_count = suc u.cancel_reject_count }) lives_pending
          (λ u. (refl, refl, refl, omega arith, omega arith)) id t s h
    step-IsConsistent (fill_order id t) s h =
        transition-IsConsistent is_live filled BrokerEventType.order_filled
          (λ u. record u { filled_order_count = suc u.filled_order_count }) (λ x l. l)
          (λ u. (refl, refl, refl, omega arith, omega arith)) id t s h
    step-IsConsistent (set_cancel_on_disconnect b) s h =
        same-IsConsistent s _ refl refl refl refl refl h
    step-IsConsistent (attach_risk_gateway g) s h = same-IsConsistent s _ refl refl refl refl refl h

    run-IsConsistent :
        (cs : List (Call G)) (s : SimulatedBrokerSession G)
        → IsConsistent s
        → IsConsistent (run ops cs s)
    unfolding run
    run-IsConsistent [] s h = h
    run-IsConsistent (c ∷ cs) s h = run-IsConsistent cs (step ops c s) (step-IsConsistent c s h)

    -- After any calls to a new session, its checksum is that of its events, and it has counted as canceled
    -- and as filled exactly the orders that are.
    pub session_run-IsConsistent :
        (b : Bool) (cs : List (Call G)) → IsConsistent (run ops cs (new_session b))
    session_run-IsConsistent b cs = run-IsConsistent cs (new_session b) (new_session-IsConsistent b)
