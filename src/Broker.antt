-- ===== src/Broker.antt =====
-- session/broker_session.hpp and broker_session.cpp: the simulated broker session. The risk gateway
-- that may be attached is taken through the two operations that the session calls.
pub mod Event
pub mod Disconnect
pub mod Trace
pub mod Lifecycle
pub mod Moves
mod Tests
use asterion.Prelude.{
  ℕ, suc, ◌==◌, leb, Bool, true, false, not, ◌&&◌, ◌||◌, Option, none, some, List, [], ◌∷◌, ◌++◌,
  if◌then◌else◌, length,
}
use asterion.Prelude.Int.{ℤ, pos}
use asterion.Prelude.Assoc.{find, emplace, modify, map_option}
use asterion.Core.Types.{Side}
use asterion.Core.Checksum.{fnv_offset_basis}
use Event.{
  SessionConnectionState, disconnected, connected, BrokerOrderState, accepted, pending_cancel,
  BrokerEventType, BrokerSessionEvent, append_to_checksum,
}

pub record OrderRecord : Type 0 where
  pub client_order_id : ℕ
  pub symbol_id : ℕ
  pub side : Side
  pub quantity : ℤ
  pub state : BrokerOrderState

-- What the session calls of a `RiskGateway`.
pub record GatewayOps (G : Type 0) : Type 0 where
  pub on_disconnect : ℤ → G → G
  pub on_reconnect : ℤ → G → G

pub record SimulatedBrokerSession (G : Type 0) : Type 0 where
  pub gateway : Option G
  pub cancel_on_disconnect : Bool
  pub state : SessionConnectionState
  pub connect_count : ℕ
  pub disconnect_count : ℕ
  pub reconnect_count : ℕ
  pub filled_order_count : ℕ
  pub canceled_order_count : ℕ
  pub cancel_reject_count : ℕ
  pub orders : List (ℕ × OrderRecord)
  pub events : List BrokerSessionEvent
  pub event_checksum : ℕ

abbrev pub is_accepted : BrokerOrderState → Bool
is_accepted BrokerOrderState.accepted = true
is_accepted _ = false

abbrev pub is_pending : BrokerOrderState → Bool
is_pending BrokerOrderState.pending_cancel = true
is_pending _ = false

abbrev pub is_live : BrokerOrderState → Bool
is_live s = is_accepted s || is_pending s

abbrev pub is_connected : SessionConnectionState → Bool
is_connected SessionConnectionState.connected = true
is_connected _ = false

-- An event of the session alone.
abbrev pub session_event : ℤ → BrokerEventType → BrokerSessionEvent
session_event t k = record {
  timestamp_ns = t;
  event_type = k;
  exchange_order_id = 0;
  client_order_id = 0;
  symbol_id = 0;
  side = Side.none;
  quantity = pos 0;
}

abbrev pub order_event : ℤ → BrokerEventType → ℕ → OrderRecord → BrokerSessionEvent
order_event t k id o = record {
  timestamp_ns = t;
  event_type = k;
  exchange_order_id = id;
  client_order_id = o.client_order_id;
  symbol_id = o.symbol_id;
  side = o.side;
  quantity = o.quantity;
}

abbrev pub with_state : BrokerOrderState → OrderRecord → OrderRecord
with_state s o = record o { state = s }

-- The keys of the live orders, and `std::sort` on them.
unfoldable pub live_ids : List (ℕ × OrderRecord) → List ℕ
live_ids [] = []
live_ids ((id, o) ∷ os) = let rest = live_ids os in if is_live o.state then id ∷ rest else rest

unfoldable pub insert : ℕ → List ℕ → List ℕ
insert x [] = x ∷ []
insert x (y ∷ ys) = let rest = insert x ys in if leb x y then x ∷ y ∷ ys else y ∷ rest

unfoldable pub sort : List ℕ → List ℕ
unfolding insert
sort [] = []
sort (x ∷ xs) = insert x (sort xs)

-- How many orders have a state.
unfoldable pub count_orders : (BrokerOrderState → Bool) → List (ℕ × OrderRecord) → ℕ
count_orders p [] = 0
count_orders p ((id, o) ∷ os) = let rest = count_orders p os in if p o.state then suc rest else rest

module _ {G : Type 0} where
  unfoldable pub new_session : Bool → SimulatedBrokerSession G
  new_session cancel_on_disconnect = record {
    gateway = none;
    cancel_on_disconnect = cancel_on_disconnect;
    state = disconnected;
    connect_count = 0;
    disconnect_count = 0;
    reconnect_count = 0;
    filled_order_count = 0;
    canceled_order_count = 0;
    cancel_reject_count = 0;
    orders = [];
    events = [];
    event_checksum = fnv_offset_basis;
  }

  unfoldable pub record_event :
      BrokerSessionEvent → SimulatedBrokerSession G → SimulatedBrokerSession G
  record_event e s = record s {
    events = s.events ++ e ∷ [];
    event_checksum = append_to_checksum s.event_checksum e;
  }

  unfoldable pub connect : ℤ → SimulatedBrokerSession G → SimulatedBrokerSession G
  unfolding record_event
  connect t s =
      if is_connected s.state
      then s
      else record_event (session_event t BrokerEventType.connect)
          (record s { state = connected; connect_count = suc s.connect_count })

  -- The body of the loop over the live orders.
  unfoldable pub cancel_one : ℤ → ℕ → SimulatedBrokerSession G → SimulatedBrokerSession G
  unfolding record_event
  cancel_one t id s = elim (find id s.orders) [
    | none ↦ s
    | some o ↦
        if is_pending o.state
        then s
        else record_event (order_event t BrokerEventType.cancel_requested id o)
            (record s { orders = modify id (with_state pending_cancel) s.orders })
  ]

  unfoldable pub cancel_each : ℤ → List ℕ → SimulatedBrokerSession G → SimulatedBrokerSession G
  unfolding cancel_one
  cancel_each t [] s = s
  cancel_each t (id ∷ ids) s = cancel_each t ids (cancel_one t id s)

  -- With `cancel_on_disconnect`, a cancel is asked for every live order, by ascending id.
  unfoldable pub cancel_live : ℤ → SimulatedBrokerSession G → SimulatedBrokerSession G
  unfolding cancel_each live_ids sort
  cancel_live t s = if s.cancel_on_disconnect then cancel_each t (sort (live_ids s.orders)) s else s

  unfoldable pub on_order_accepted :
      ℕ → OrderRecord → ℤ → SimulatedBrokerSession G → SimulatedBrokerSession G × Bool
  unfolding record_event
  on_order_accepted id o t s =
      if not (is_connected s.state) || (id == 0) then (s, false) else elim (find id s.orders) [
        | some _ ↦ (s, false)
        | none ↦ (
          record_event (order_event t BrokerEventType.order_accepted id o)
              (record s { orders = emplace id (with_state accepted o) s.orders }),
          true,
        )
      ]

  -- A transition of one order: from the states that `from` admits, to `to`; `count` counts it.
  unfoldable pub transition :
      (BrokerOrderState → Bool)
      → BrokerOrderState
      → BrokerEventType
      → (SimulatedBrokerSession G → SimulatedBrokerSession G)
      → ℕ
      → ℤ
      → SimulatedBrokerSession G
      → SimulatedBrokerSession G × Bool
  unfolding record_event
  transition from to kind count id t s = elim (find id s.orders) [
    | none ↦ (s, false)
    | some o ↦ if not (from o.state) then (s, false) else (
      record_event (order_event t kind id o)
          (count (record s { orders = modify id (with_state to) s.orders })),
      true,
    )
  ]

  unfoldable pub request_cancel : ℕ → ℤ → SimulatedBrokerSession G → SimulatedBrokerSession G × Bool
  unfolding transition
  request_cancel = transition is_accepted pending_cancel BrokerEventType.cancel_requested (λ s. s)

  unfoldable pub acknowledge_cancel :
      ℕ → ℤ → SimulatedBrokerSession G → SimulatedBrokerSession G × Bool
  unfolding transition
  acknowledge_cancel =
      transition is_pending BrokerOrderState.canceled BrokerEventType.cancel_acknowledged
        (λ s. record s { canceled_order_count = suc s.canceled_order_count })

  unfoldable pub reject_cancel : ℕ → ℤ → SimulatedBrokerSession G → SimulatedBrokerSession G × Bool
  unfolding transition
  reject_cancel =
      transition is_pending accepted BrokerEventType.cancel_rejected
        (λ s. record s { cancel_reject_count = suc s.cancel_reject_count })

  unfoldable pub on_order_filled :
      ℕ → ℤ → SimulatedBrokerSession G → SimulatedBrokerSession G × Bool
  unfolding transition
  on_order_filled =
      transition is_live BrokerOrderState.filled BrokerEventType.order_filled
        (λ s. record s { filled_order_count = suc s.filled_order_count })

  unfoldable pub live_order_count : SimulatedBrokerSession G → ℕ
  live_order_count s = count_orders is_live s.orders

  unfoldable pub pending_cancel_count : SimulatedBrokerSession G → ℕ
  pending_cancel_count s = count_orders is_pending s.orders

  module _ (ops : GatewayOps G) where
    unfoldable pub disconnect : ℤ → SimulatedBrokerSession G → SimulatedBrokerSession G
    unfolding record_event cancel_live
    disconnect t s =
        if not (is_connected s.state)
        then s
        else let down =
            record_event (session_event t BrokerEventType.disconnect)
              (record s { state = disconnected; disconnect_count = suc s.disconnect_count }) in
          let asked = cancel_live t down in
          record asked { gateway = map_option (ops.on_disconnect t) asked.gateway }

    unfoldable pub reconnect : ℤ → SimulatedBrokerSession G → SimulatedBrokerSession G
    unfolding record_event
    reconnect t s =
        if is_connected s.state
        then s
        else let up =
            record_event (session_event t BrokerEventType.reconnect)
              (record s { state = connected; reconnect_count = suc s.reconnect_count }) in
          record up { gateway = map_option (ops.on_reconnect t) up.gateway }
