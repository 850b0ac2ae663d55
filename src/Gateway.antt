-- ===== src/Gateway.antt =====
-- risk/limits.hpp, risk/kill_switch.hpp, risk/risk_gateway.hpp and risk_gateway.cpp: the pre-trade risk
-- gateway, its state and its short operations. The audit log file is left out: a decision is recorded
-- in the trail in memory only.
pub mod Audit
pub mod ClientOrderIds
pub mod Working
pub mod Reports
pub mod Shutdown
pub mod Rate
pub mod Admit
pub mod Replace
pub mod Calls
pub mod Exposure
pub mod Session
mod Tests
pub mod Refused
use asterion.Prelude.{
  ℕ, suc, ◌+◌, ◌*◌, ◌^◌, ◌%◌, Bool, true, false, not, ◌&&◌, ◌||◌, Option, none, some, List, [], ◌∷◌,
  if◌then◌else◌,
}
use asterion.Prelude.Text.{Text}
use asterion.Prelude.Int.{ℤ, pos, ltb_ℤ}
use asterion.Prelude.Assoc.{find, put}
use asterion.Core.Types.{Side}
use asterion.Matching.Report.{RejectReason}
use asterion.Matching.Admit.{NewOrderRequest}
use asterion.Gateway.Audit.{RiskAuditEntry, RiskAuditTrail, empty_trail, record_entry}
use asterion.Gateway.ClientOrderIds.{ClientOrderIdSet, empty_ids}

pub data RateLimitMode : Type 0 where
  fixed_window sliding_window : RateLimitMode

pub data DisconnectOrderPolicy : Type 0 where
  reject_new_orders allow_new_orders : DisconnectOrderPolicy

pub record RiskLimits : Type 0 where
  pub max_order_quantity : ℤ
  pub max_notional_ticks : ℤ
  pub max_position_per_symbol : ℤ
  pub max_gross_exposure_ticks : ℤ
  pub price_band_ticks : ℤ
  pub stale_after_ns : ℤ
  pub max_open_order_quantity : ℤ
  pub max_messages_per_window : ℕ
  pub rate_window_ns : ℤ
  pub enable_self_trade_prevention : Bool
  pub rate_limit_mode : RateLimitMode
  pub cancel_on_disconnect : Bool
  pub disconnect_order_policy : DisconnectOrderPolicy

pub record RiskResult : Type 0 where
  pub accepted : Bool
  pub reject_reason : RejectReason

pub record MarketState : Type 0 where
  pub reference_price_ticks : ℤ
  pub last_timestamp_ns : ℤ

pub record WorkingOrder : Type 0 where
  pub client_id : ℕ
  pub symbol_id : ℕ
  pub side : Side
  pub price_ticks : ℤ
  pub quantity : ℤ
  pub exchange_order_id : ℕ

-- The quantities by price, the best price of each side first.
pub record ClientWorkingBook : Type 0 where
  pub buy_qty_by_price : List (ℤ × ℤ)
  pub sell_qty_by_price : List (ℤ × ℤ)

pub record RateState : Type 0 where
  pub window_start_ns : ℤ
  pub count : ℕ
  pub active : Bool
  pub sliding_timestamps : List ℤ

pub record RiskGateway : Type 0 where
  pub limits : RiskLimits
  pub kill_switch : Bool
  pub accepted_client_order_ids : ClientOrderIdSet
  pub market_state : List (ℕ × MarketState)
  pub positions : List (ℕ × ℤ)
  pub working_quantities : List (ℕ × ℤ)
  pub working_orders : List (ℕ × WorkingOrder)
  pub exchange_to_client_order_ids : List (ℕ × ℕ)
  pub client_books : List (ℕ × ClientWorkingBook)
  pub rate_states : List (ℕ × RateState)
  pub audit : RiskAuditTrail
  pub disconnect_count : ℕ
  pub disconnect_cancel_count : ℕ
  pub record_audit : Bool
  pub connected : Bool

unfoldable pub new_gateway : RiskLimits → RiskGateway
new_gateway limits = record {
  limits = limits;
  kill_switch = false;
  accepted_client_order_ids = empty_ids;
  market_state = [];
  positions = [];
  working_quantities = [];
  working_orders = [];
  exchange_to_client_order_ids = [];
  client_books = [];
  rate_states = [];
  audit = empty_trail;
  disconnect_count = 0;
  disconnect_cancel_count = 0;
  record_audit = false;
  connected = true;
}

unfoldable pub disable_kill_switch : RiskGateway → RiskGateway
disable_kill_switch g = record g { kill_switch = false }

unfoldable pub on_reconnect : ℤ → RiskGateway → RiskGateway
on_reconnect timestamp_ns g = record g { connected = true }

unfoldable pub on_market_data : ℕ → ℤ → ℤ → RiskGateway → RiskGateway
on_market_data symbol_id reference_price_ticks timestamp_ns g =
    let m : MarketState = record {
      reference_price_ticks = reference_price_ticks;
      last_timestamp_ns = timestamp_ns;
    } in
    record g { market_state = put symbol_id m g.market_state }

unfoldable pub set_position : ℕ → ℤ → RiskGateway → RiskGateway
set_position symbol_id signed_position g = record g {
  positions = put symbol_id signed_position g.positions;
}

abbrev pub value_or_zero : Option ℤ → ℤ
value_or_zero none = pos 0
value_or_zero (some v) = v

unfoldable pub position : ℕ → RiskGateway → ℤ
position symbol_id g = value_or_zero (find symbol_id g.positions)

unfoldable pub working_quantity : ℕ → RiskGateway → ℤ
working_quantity symbol_id g = value_or_zero (find symbol_id g.working_quantities)

-- Both ids have 32 bits, so `|` of the shifted and the plain one is their sum.
unfoldable pub client_symbol_key : ℕ → ℕ → ℕ
client_symbol_key client_id symbol_id = client_id * 2 ^ 32 + symbol_id

unfoldable pub tracks_working_orders : RiskGateway → Bool
tracks_working_orders g =
    ltb_ℤ (pos 0) g.limits.max_open_order_quantity || g.limits.enable_self_trade_prevention

unfoldable pub record_audit_entry : RiskAuditEntry → RiskGateway → RiskGateway
unfolding record_entry
record_audit_entry e g = record g { audit = record_entry e g.audit }

-- `decide`: the result of a check, recorded if recording is on.
unfoldable pub decide :
    ℤ → ℕ → ℕ → Side → Text → Bool → RejectReason → ℤ → ℤ → RiskGateway → RiskGateway × RiskResult
unfolding record_audit_entry
decide now_ns client_order_id symbol_id side check_name accepted reason limit_value observed_value
      g =
    let e : RiskAuditEntry = record {
      timestamp_ns = now_ns;
      client_order_id = client_order_id;
      symbol_id = symbol_id;
      side = side;
      accepted = accepted;
      reject_reason = reason;
      check_name = check_name;
      limit_value = limit_value;
      observed_value = observed_value;
    } in
    (
      if g.record_audit then record_audit_entry e g else g,
      record { accepted = accepted; reject_reason = reason },
    )

-- The `decide` for a request: its id, symbol and side.
unfoldable pub decide_request :
    NewOrderRequest
    → ℤ
    → Text
    → Bool
    → RejectReason
    → ℤ
    → ℤ
    → RiskGateway
    → RiskGateway × RiskResult
unfolding decide
decide_request r now_ns = decide now_ns r.client_order_id r.symbol_id r.side
