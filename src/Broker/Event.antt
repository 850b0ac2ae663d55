-- ===== src/Broker/Event.antt =====
-- session/broker_session.hpp: the states and events of a broker session, and the events' checksum.
use asterion.Prelude.{ℕ, ◌≡◌, refl, List, [], ◌∷◌, ◌++◌}
use asterion.Prelude.Int.{ℤ}
use asterion.Core.Types.{Side, side_code}
use asterion.Core.Checksum.{fnv_offset_basis, append_u64, append_u32, append_u8, append_i64}

pub data SessionConnectionState : Type 0 where
  disconnected connected : SessionConnectionState

pub data BrokerOrderState : Type 0 where
  accepted pending_cancel canceled filled : BrokerOrderState

pub data BrokerEventType : Type 0 where
  connect disconnect reconnect order_accepted cancel_requested cancel_acknowledged cancel_rejected
        order_filled :
      BrokerEventType

-- The `std::uint8_t` of an event type.
unfoldable pub event_type_code : BrokerEventType → ℕ
event_type_code connect = 1
event_type_code disconnect = 2
event_type_code reconnect = 3
event_type_code order_accepted = 4
event_type_code cancel_requested = 5
event_type_code cancel_acknowledged = 6
event_type_code cancel_rejected = 7
event_type_code order_filled = 8

pub record BrokerSessionEvent : Type 0 where
  pub timestamp_ns : ℤ
  pub event_type : BrokerEventType
  pub exchange_order_id : ℕ
  pub client_order_id : ℕ
  pub symbol_id : ℕ
  pub side : Side
  pub quantity : ℤ

unfoldable pub append_to_checksum : ℕ → BrokerSessionEvent → ℕ
unfolding append_u64 append_u32 append_u8 append_i64 side_code event_type_code
append_to_checksum seed e =
    let s1 = append_i64 seed e.timestamp_ns in
    let s2 = append_u8 s1 (event_type_code e.event_type) in
    let s3 = append_u64 s2 e.exchange_order_id in
    let s4 = append_u64 s3 e.client_order_id in
    let s5 = append_u32 s4 e.symbol_id in
    let s6 = append_u8 s5 (side_code e.side) in append_i64 s6 e.quantity

unfoldable pub checksum_from : ℕ → List BrokerSessionEvent → ℕ
checksum_from seed [] = seed
checksum_from seed (e ∷ es) = checksum_from (append_to_checksum seed e) es

unfoldable pub checksum_broker_session_events : List BrokerSessionEvent → ℕ
unfolding checksum_from
checksum_broker_session_events es = checksum_from fnv_offset_basis es

pub checksum_from-append :
    (seed : ℕ) (xs ys : List BrokerSessionEvent)
    → checksum_from seed (xs ++ ys) ≡ checksum_from (checksum_from seed xs) ys
unfolding checksum_from
checksum_from-append seed [] ys = refl
checksum_from-append seed (x ∷ xs) ys = checksum_from-append (append_to_checksum seed x) xs ys
