-- ===== src/Broker/Moves.antt =====
-- How the orders of a broker session move: the state machine of `BrokerOrderState`.
use asterion.Prelude.{
  ℕ, suc, ◌==◌, ◌≡◌, refl, sym, ap, subst, ◌∙◌, inl, inr, ◌⊎◌, Bool, true, false, not, ◌||◌, Option,
  none, some, List, [], ◌∷◌, arith, Bool-cases, Option-cases, All, All-mono, if_true, if_false,
  ==-eq,
}
use asterion.Prelude.Int.{ℤ}
use asterion.Prelude.Assoc.{find, emplace, modify, find-modify, find-emplace, map_option}
use asterion.Broker.Event.{
  BrokerOrderState, accepted, pending_cancel, canceled, filled, BrokerEventType,
}
use asterion.Broker.Disconnect.{IsLiveIn, live_ids-IsLiveIn, sort-All, cancel_one-IsLiveIn}
use asterion.Broker.Trace.{
  Call, connect_at, disconnect_at, reconnect_at, accept_order, ask_cancel, confirm_cancel,
  refuse_cancel, fill_order, set_cancel_on_disconnect, attach_risk_gateway, step, IsConsistent,
}
use asterion.Broker.Lifecycle.{went_down, went_down-IsConsistent}
use asterion.Broker.{
  OrderRecord, GatewayOps, SimulatedBrokerSession, record_event, connect, disconnect, reconnect,
  cancel_one, cancel_each, cancel_live, on_order_accepted, transition, request_cancel,
  acknowledge_cancel, reject_cancel, on_order_filled, is_pending, is_accepted, is_live,
  is_connected, with_state, live_ids, sort,
}

abbrev pub state_of : Option OrderRecord → Option BrokerOrderState
state_of none = none
state_of (some o) = some o.state

-- The state of an order, if the session knows it.
abbrev pub state_at : {G : Type 0} → ℕ → SimulatedBrokerSession G → Option BrokerOrderState
state_at id s = state_of (find id s.orders)

-- One call moves an order along the session's state machine, or leaves it.
pub data Moves : Option BrokerOrderState → Option BrokerOrderState → Type 0 where
  stays : (x : Option BrokerOrderState) → Moves x x
  enters : Moves none (some accepted)
  asked : Moves (some accepted) (some pending_cancel)
  refused : Moves (some pending_cancel) (some accepted)
  ended : Moves (some pending_cancel) (some canceled)
  done : (x : BrokerOrderState) → is_live x ≡ true → Moves (some x) (some filled)

modified-Moves :
    (id j : ℕ) (to : BrokerOrderState) (os : List (ℕ × OrderRecord)) (o : OrderRecord)
    → find id os ≡ some o
    → Moves (some o.state) (some to)
    → Moves (state_of (find j os)) (state_of (find j (modify id (with_state to) os)))
modified-Moves id j to os o there moves = elim (Bool-cases (id == j)) [
  | inl eq ↦
      let before : find j os ≡ some o = subst (λ k. find k os ≡ some o) (==-eq _ _ eq) there in
      let after : find j (modify id (with_state to) os) ≡ some (with_state to o) =
        find-modify id j (with_state to) os
        ∙ if_true _ _ eq
        ∙ ap (map_option (with_state to)) before in
      subst (λ x. Moves x (state_of (find j (modify id (with_state to) os))))
        (sym (ap state_of before)) (subst (Moves (some o.state)) (sym (ap state_of after)) moves)
  | inr ne ↦
      subst (Moves (state_of (find j os)))
        (sym (ap state_of (find-modify id j (with_state to) os ∙ if_false _ _ ne)))
        (stays (state_of (find j os)))
]

-- A new order, where the id was not known.
emplaced-Moves :
    (id j : ℕ) (o : OrderRecord) (os : List (ℕ × OrderRecord))
    → find id os ≡ none
    → Moves (state_of (find j os)) (state_of (find j (emplace id (with_state accepted o) os)))
emplaced-Moves id j o os absent = elim (Bool-cases (id == j)) [
  | inl eq ↦
      let before : find j os ≡ none = subst (λ k. find k os ≡ none) (==-eq _ _ eq) absent in
      let after : find j (emplace id (with_state accepted o) os) ≡ some (with_state accepted o) =
        find-emplace id j (with_state accepted o) os absent ∙ if_true _ _ eq in
      subst (λ x. Moves x (state_of (find j (emplace id (with_state accepted o) os))))
        (sym (ap state_of before)) (subst (Moves none) (sym (ap state_of after)) enters)
  | inr ne ↦
      subst (Moves (state_of (find j os)))
        (sym (ap state_of (find-emplace id j (with_state accepted o) os absent ∙ if_false _ _ ne)))
        (stays (state_of (find j os)))
]

-- What asking for cancels does to an order.
abbrev Asked : Option BrokerOrderState → Option BrokerOrderState → Type 0
Asked x y = (y ≡ x) ⊎ ((x ≡ some accepted) × (y ≡ some pending_cancel))

Asked-Moves : (x y : Option BrokerOrderState) → Asked x y → Moves x y
Asked-Moves x y (inl same) = subst (Moves x) (sym same) (stays x)
Asked-Moves x y (inr (e, e')) =
    subst (λ z. Moves z y) (sym e) (subst (Moves (some accepted)) (sym e') asked)

Asked-trans : (x y z : Option BrokerOrderState) → Asked x y → Asked y z → Asked x z
Asked-trans x y z (inl p) (inl q) = inl (q ∙ p)
Asked-trans x y z (inl p) (inr (q, r)) = inr (sym p ∙ q, r)
Asked-trans x y z (inr (p, q)) (inl r) = inr (p, r ∙ q)
Asked-trans x y z (inr (p, q)) (inr (r, s)) = inr (p, s)

live_cases : (x : BrokerOrderState) → is_live x ≡ true → is_pending x ≡ false → x ≡ accepted
live_cases BrokerOrderState.accepted h k = refl
live_cases BrokerOrderState.pending_cancel h k = absurd (cc k)
live_cases BrokerOrderState.canceled h k = absurd (cc h)
live_cases BrokerOrderState.filled h k = absurd (cc h)

pending_of : (x : BrokerOrderState) → is_pending x ≡ true → x ≡ pending_cancel
pending_of BrokerOrderState.pending_cancel h = refl
pending_of BrokerOrderState.accepted h = absurd (cc h)
pending_of BrokerOrderState.canceled h = absurd (cc h)
pending_of BrokerOrderState.filled h = absurd (cc h)

accepted_of : (x : BrokerOrderState) → is_accepted x ≡ true → x ≡ accepted
accepted_of BrokerOrderState.accepted h = refl
accepted_of BrokerOrderState.pending_cancel h = absurd (cc h)
accepted_of BrokerOrderState.canceled h = absurd (cc h)
accepted_of BrokerOrderState.filled h = absurd (cc h)

module _ {G : Type 0} where
  cancel_one-Asked :
      (t : ℤ) (id : ℕ) (s : SimulatedBrokerSession G) (j : ℕ)
      → IsLiveIn s.orders id
      → Asked (state_at j s) (state_at j (cancel_one t id s))
  unfolding cancel_one record_event
  cancel_one-Asked t id s j (o, there, live) = elim (Bool-cases (is_pending o.state)) [
    | inl pending ↦ rw (there, cancel_one, pending) (inl refl)
    | inr fresh ↦
        let is = live_cases o.state live fresh in
        rw (there, cancel_one, fresh)
          (ground (arith, find-modify id j (with_state pending_cancel) s.orders, there, is))
  ]

  cancel_each-Asked :
      (t : ℤ) (ids : List ℕ) (s : SimulatedBrokerSession G) (j : ℕ)
      → All (IsLiveIn s.orders) ids
      → Asked (state_at j s) (state_at j (cancel_each t ids s))
  unfolding cancel_each
  cancel_each-Asked t [] s j a = inl refl
  cancel_each-Asked t (id ∷ ids) s j a =
      Asked-trans (state_at j s) (state_at j (cancel_one t id s))
        (state_at j (cancel_each t ids (cancel_one t id s))) (cancel_one-Asked t id s j a.0)
        (cancel_each-Asked t ids (cancel_one t id s) j (
          All-mono (IsLiveIn s.orders) (IsLiveIn (cancel_one t id s).orders) ids
            (cancel_one-IsLiveIn t id s) a.1))

  cancel_live-Asked :
      (t : ℤ) (s : SimulatedBrokerSession G) (j : ℕ)
      → IsConsistent s
      → Asked (state_at j s) (state_at j (cancel_live t s))
  unfolding cancel_live
  cancel_live-Asked t s j h = elim (Bool-cases s.cancel_on_disconnect) [
    | inr keep ↦ inl (
        ap (λ (u : SimulatedBrokerSession G). state_at j u)
          (if_false (cancel_each t (sort (live_ids s.orders)) s) s keep))
    | inl ask ↦
        subst (λ (u : SimulatedBrokerSession G). Asked (state_at j s) (state_at j u))
          (sym (if_true (cancel_each t (sort (live_ids s.orders)) s) s ask))
          (cancel_each-Asked t (sort (live_ids s.orders)) s j (
            sort-All (IsLiveIn s.orders) (live_ids s.orders) (live_ids-IsLiveIn s.orders h.unique)))
  ]

  transition-Moves :
      (from : BrokerOrderState → Bool) (to : BrokerOrderState) (kind : BrokerEventType)
      (count : SimulatedBrokerSession G → SimulatedBrokerSession G)
      → ((x : BrokerOrderState) → from x ≡ true → Moves (some x) (some to))
      → ((s : SimulatedBrokerSession G) → (count s).orders ≡ s.orders)
      → (id : ℕ) (t : ℤ) (s : SimulatedBrokerSession G) (j : ℕ)
      → Moves (state_at j s) (state_at j (transition from to kind count id t s).0)
  unfolding transition record_event
  transition-Moves from to kind count moves same id t s j = elim (Option-cases (find id s.orders)) [
    | inl absent ↦ rw (absent, transition) (stays (state_at j s))
    | inr (o, there) ↦ elim (Bool-cases (from o.state)) [
      | inr stuck ↦ rw (there, transition, stuck) (stays (state_at j s))
      | inl ready ↦
          rw (there, transition, ready)
            (subst (λ os. Moves (state_at j s) (state_of (find j os)))
              (sym (same (record s { orders = modify id (with_state to) s.orders })))
              (modified-Moves id j to s.orders o there (moves o.state ready)))
    ]
  ]

  accept-Moves :
      (id : ℕ) (o : OrderRecord) (t : ℤ) (s : SimulatedBrokerSession G) (j : ℕ)
      → Moves (state_at j s) (state_at j (on_order_accepted id o t s).0)
  unfolding on_order_accepted record_event
  accept-Moves id o t s j = elim (Bool-cases (not (is_connected s.state) || (id == 0))) [
    | inl bad ↦ rw bad (stays (state_at j s))
    | inr good ↦ elim (Option-cases (find id s.orders)) [
      | inr (x, there) ↦ rw (good, there) (stays (state_at j s))
      | inl absent ↦ rw (good, absent) (emplaced-Moves id j o s.orders absent)
    ]
  ]

  connect-Moves :
      (t : ℤ) (s : SimulatedBrokerSession G) (j : ℕ)
      → Moves (state_at j s) (state_at j (connect t s))
  unfolding connect record_event
  connect-Moves t s j = elim (Bool-cases (is_connected s.state)) [
    | inl up ↦ rw up (stays (state_at j s))
    | inr down ↦ rw down (stays (state_at j s))
  ]

  module _ (ops : GatewayOps G) where
    reconnect-Moves :
        (t : ℤ) (s : SimulatedBrokerSession G) (j : ℕ)
        → Moves (state_at j s) (state_at j (reconnect ops t s))
    unfolding reconnect record_event
    reconnect-Moves t s j = elim (Bool-cases (is_connected s.state)) [
      | inl up ↦ rw up (stays (state_at j s))
      | inr down ↦ rw down (stays (state_at j s))
    ]

    disconnect-Moves :
        (t : ℤ) (s : SimulatedBrokerSession G) (j : ℕ)
        → IsConsistent s
        → Moves (state_at j s) (state_at j (disconnect ops t s))
    unfolding disconnect record_event
    disconnect-Moves t s j h = elim (Bool-cases (is_connected s.state)) [
      | inr off ↦ rw off (stays (state_at j s))
      | inl on ↦ rw on (
          Asked-Moves (state_at j s) (state_at j (cancel_live t (went_down t s)))
            (cancel_live-Asked t (went_down t s) j (went_down-IsConsistent t s h)))
    ]

    -- Every call on a consistent session moves every order along the state machine, or leaves it: a canceled
    -- or filled order stays so, and only a pending cancel ends in one.
    pub step-Moves :
        (c : Call G) (s : SimulatedBrokerSession G) (j : ℕ)
        → IsConsistent s
        → Moves (state_at j s) (state_at j (step ops c s))
    unfolding step request_cancel acknowledge_cancel reject_cancel on_order_filled
    step-Moves (connect_at t) s j h = connect-Moves t s j
    step-Moves (disconnect_at t) s j h = disconnect-Moves t s j h
    step-Moves (reconnect_at t) s j h = reconnect-Moves t s j
    step-Moves (accept_order id o t) s j h = accept-Moves id o t s j
    step-Moves (ask_cancel id t) s j h =
        transition-Moves is_accepted pending_cancel BrokerEventType.cancel_requested (λ u. u)
          (λ x e. subst (λ y. Moves (some y) (some pending_cancel)) (sym (accepted_of x e)) asked)
          (λ u. refl) id t s j
    step-Moves (confirm_cancel id t) s j h =
        transition-Moves is_pending canceled BrokerEventType.cancel_acknowledged
          (λ u. record u { canceled_order_count = suc u.canceled_order_count })
          (λ x e. subst (λ y. Moves (some y) (some canceled)) (sym (pending_of x e)) ended)
          (λ u. refl) id t s j
    step-Moves (refuse_cancel id t) s j h =
        transition-Moves is_pending accepted BrokerEventType.cancel_rejected
          (λ u. record u { cancel_reject_count = suc u.cancel_reject_count })
          (λ x e. subst (λ y. Moves (some y) (some accepted)) (sym (pending_of x e)) refused)
          (λ u. refl) id t s j
    step-Moves (fill_order id t) s j h =
        transition-Moves is_live filled BrokerEventType.order_filled
          (λ u. record u { filled_order_count = suc u.filled_order_count }) done (λ u. refl) id t s
          j
    step-Moves (set_cancel_on_disconnect b) s j h = stays (state_at j s)
    step-Moves (attach_risk_gateway g) s j h = stays (state_at j s)
