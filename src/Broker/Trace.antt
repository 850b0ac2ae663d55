-- ===== src/Broker/Trace.antt =====
-- The calls of a broker session, and its log: the checksum is that of the events, and the counts of
-- ended orders are those of the orders that have ended.
use asterion.Prelude.{
  ℕ, ◌+◌, ◌≡◌, refl, sym, ap, ◌∙◌, inl, inr, Bool, true, false, Option, none, some, List, [], ◌∷◌,
  if◌then◌else◌, arith, Bool-cases, Option-cases, All, All-mono, subst,
}
use asterion.Prelude.Int.{ℤ}
use asterion.Prelude.Assoc.{find, put, emplace, modify, IsUnique, modify-IsUnique}
use asterion.Broker.Disconnect.{IsLiveIn, cancel_one-IsLiveIn}
use asterion.Core.Checksum.{fnv_offset_basis}
use asterion.Broker.Event.{
  BrokerOrderState, pending_cancel, BrokerEventType, BrokerSessionEvent, checksum_from,
  checksum_from-append, checksum_broker_session_events,
}
use asterion.Broker.{
  OrderRecord, GatewayOps, SimulatedBrokerSession, new_session, record_event, connect, disconnect,
  reconnect, cancel_one, cancel_each, on_order_accepted, transition, request_cancel,
  acknowledge_cancel, reject_cancel, on_order_filled, is_pending, is_live, with_state, count_orders,
  order_event,
}

pub data Call (G : Type 0) : Type 0 where
  connect_at disconnect_at reconnect_at : ℤ → Call G
  accept_order : ℕ → OrderRecord → ℤ → Call G
  ask_cancel confirm_cancel refuse_cancel fill_order : ℕ → ℤ → Call G
  set_cancel_on_disconnect : Bool → Call G
  attach_risk_gateway : Option G → Call G

module _ {G : Type 0} (ops : GatewayOps G) where
  unfoldable pub step : Call G → SimulatedBrokerSession G → SimulatedBrokerSession G
  step (connect_at t) s = connect t s
  step (disconnect_at t) s = disconnect ops t s
  step (reconnect_at t) s = reconnect ops t s
  step (accept_order id o t) s = (on_order_accepted id o t s).0
  step (ask_cancel id t) s = (request_cancel id t s).0
  step (confirm_cancel id t) s = (acknowledge_cancel id t s).0
  step (refuse_cancel id t) s = (reject_cancel id t s).0
  step (fill_order id t) s = (on_order_filled id t s).0
  step (set_cancel_on_disconnect enabled) s = record s { cancel_on_disconnect = enabled }
  step (attach_risk_gateway gateway) s = record s { gateway = gateway }

  unfoldable pub run : List (Call G) → SimulatedBrokerSession G → SimulatedBrokerSession G
  unfolding step
  run [] s = s
  run (c ∷ cs) s = run cs (step c s)

abbrev pub is_canceled : BrokerOrderState → Bool
is_canceled BrokerOrderState.canceled = true
is_canceled _ = false

abbrev pub is_filled : BrokerOrderState → Bool
is_filled BrokerOrderState.filled = true
is_filled _ = false

abbrev pub one : Bool → ℕ
one b = if b then 1 else 0

pub count_orders-modify :
    (p : BrokerOrderState → Bool) (k : ℕ) (t : BrokerOrderState) (m : List (ℕ × OrderRecord))
    {o : OrderRecord}
    → find k m ≡ some o
    → count_orders p (modify k (with_state t) m) + one (p o.state) ≡ count_orders p m + one (p t)
unfolding find modify count_orders
count_orders-modify p k t [] e = cc
count_orders-modify p k t ((j, w) ∷ m) {o} e = ground (arith, count_orders-modify p k t m {o = o})

count_orders-put :
    (p : BrokerOrderState → Bool) (k : ℕ) (v : OrderRecord) (m : List (ℕ × OrderRecord))
    → find k m ≡ none
    → count_orders p (put k v m) ≡ count_orders p m + one (p v.state)
unfolding find put count_orders
count_orders-put p k v [] e = ground arith
count_orders-put p k v ((j, w) ∷ m) e = ground (arith, count_orders-put p k v m)

pub count_orders-emplace :
    (p : BrokerOrderState → Bool) (k : ℕ) (v : OrderRecord) (m : List (ℕ × OrderRecord))
    → find k m ≡ none
    → count_orders p (emplace k v m) ≡ count_orders p m + one (p v.state)
unfolding emplace
count_orders-emplace p k v m e = ground (arith, e, count_orders-put p k v m e)

pub record IsConsistent {G : Type 0} (s : SimulatedBrokerSession G) : Type 0 where
  pub logged : s.event_checksum ≡ checksum_broker_session_events s.events
  pub canceled_counted : s.canceled_order_count ≡ count_orders is_canceled s.orders
  pub filled_counted : s.filled_order_count ≡ count_orders is_filled s.orders
  pub unique : IsUnique s.orders

module _ {G : Type 0} where
  pub new_session-IsConsistent : (b : Bool) → IsConsistent (new_session {G = G} b)
  unfolding new_session checksum_broker_session_events checksum_from count_orders
  new_session-IsConsistent b = record {
    logged = refl;
    canceled_counted = refl;
    filled_counted = refl;
    unique = tt;
  }

  -- The event is logged; the rest is as it was.
  pub record_event-IsConsistent :
      (e : BrokerSessionEvent) (s : SimulatedBrokerSession G)
      → IsConsistent s
      → IsConsistent (record_event e s)
  unfolding record_event checksum_broker_session_events checksum_from
  record_event-IsConsistent e s h = record {
    logged = ground (arith, h.logged, checksum_from-append fnv_offset_basis s.events (e ∷ []));
    canceled_counted = h.canceled_counted;
    filled_counted = h.filled_counted;
    unique = h.unique;
  }

  -- A move of one order to a state that has not ended.
  moved-IsConsistent :
      (id : ℕ) (t : BrokerOrderState) (o : OrderRecord) (s : SimulatedBrokerSession G)
      → find id s.orders ≡ some o
      → is_live o.state ≡ true
      → is_live t ≡ true
      → IsConsistent s
      → IsConsistent (record s { orders = modify id (with_state t) s.orders })
  moved-IsConsistent id t o s there live live' h = record {
    logged = h.logged;
    canceled_counted =
        ground (arith, h.canceled_counted, count_orders-modify is_canceled id t s.orders there);
    filled_counted =
        ground (arith, h.filled_counted, count_orders-modify is_filled id t s.orders there);
    unique = modify-IsUnique id (with_state t) s.orders h.unique;
  }

  cancel_one-IsConsistent :
      (t : ℤ) (id : ℕ) (s : SimulatedBrokerSession G)
      → IsLiveIn s.orders id
      → IsConsistent s
      → IsConsistent (cancel_one t id s)
  unfolding cancel_one
  cancel_one-IsConsistent t id s (o, there, live) h = elim (Bool-cases (is_pending o.state)) [
    | inl asked ↦ rw (there, cancel_one, asked) h
    | inr fresh ↦
        rw (there, cancel_one, fresh)
          (record_event-IsConsistent (order_event t BrokerEventType.cancel_requested id o)
            (record s { orders = modify id (with_state pending_cancel) s.orders })
            (moved-IsConsistent id pending_cancel o s there live refl h))
  ]

  pub cancel_each-IsConsistent :
      (t : ℤ) (ids : List ℕ) (s : SimulatedBrokerSession G)
      → All (IsLiveIn s.orders) ids
      → IsConsistent s
      → IsConsistent (cancel_each t ids s)
  unfolding cancel_each
  cancel_each-IsConsistent t [] s a h = h
  cancel_each-IsConsistent t (id ∷ ids) s a h =
      cancel_each-IsConsistent t ids (cancel_one t id s)
        (All-mono (IsLiveIn s.orders) (IsLiveIn (cancel_one t id s).orders) ids
          (cancel_one-IsLiveIn t id s) a.1)
        (cancel_one-IsConsistent t id s a.0 h)

  -- A transition that `count` counts, where it ends an order.
  pub transition-IsConsistent :
      (from : BrokerOrderState → Bool) (to : BrokerOrderState) (kind : BrokerEventType)
      (count : SimulatedBrokerSession G → SimulatedBrokerSession G)
      → ((x : BrokerOrderState) → from x ≡ true → is_live x ≡ true)
      → ((s : SimulatedBrokerSession G)
          → ((count s).event_checksum ≡ s.event_checksum)
            × ((count s).events ≡ s.events)
            × ((count s).orders ≡ s.orders)
            × ((count s).canceled_order_count ≡ s.canceled_order_count + one (is_canceled to))
            × ((count s).filled_order_count ≡ s.filled_order_count + one (is_filled to)))
      → (id : ℕ) (t : ℤ) (s : SimulatedBrokerSession G) → IsConsistent s
      → IsConsistent (transition from to kind count id t s).0
  unfolding transition
  transition-IsConsistent from to kind count lives counts id t s h =
      elim (Option-cases (find id s.orders)) [
        | inl absent ↦ rw (absent, transition) h
        | inr (o, there) ↦ elim (Bool-cases (from o.state)) [
          | inr stuck ↦ rw (there, transition, stuck) h
          | inl ready ↦
              let moved = record s { orders = modify id (with_state to) s.orders } in
              let c = counts moved in
              let live = lives o.state ready in
              rw (there, transition, ready)
                (record_event-IsConsistent (order_event t kind id o) (count moved) (record {
                  logged = c.0 ∙ h.logged ∙ ap checksum_broker_session_events (sym c.1);
                  canceled_counted = ground (
                    arith,
                    c.3,
                    c.2,
                    h.canceled_counted,
                    count_orders-modify is_canceled id to s.orders there,
                  );
                  filled_counted = ground (
                    arith,
                    c.4,
                    c.2,
                    h.filled_counted,
                    count_orders-modify is_filled id to s.orders there,
                  );
                  unique =
                      subst IsUnique (sym c.2)
                        (modify-IsUnique id (with_state to) s.orders h.unique);
                }))
        ]
      ]
