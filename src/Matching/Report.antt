-- ===== src/Matching/Report.antt =====
-- matching/execution_report.hpp and execution_report.cpp: what the engine reports, and its checksum.
use asterion.Prelude.{ℕ, ◌≡◌, refl, List, [], ◌∷◌, ◌++◌}
use asterion.Prelude.Int.{ℤ}
use asterion.Core.Types.{Side, side_code}
use asterion.Core.Checksum.{fnv_offset_basis, append_u64, append_u32, append_u8, append_i64}

-- `other` stands for every value outside the enumeration.
pub data OrderType : Type 0 where
  limit market other : OrderType

pub data TimeInForce : Type 0 where
  gtc ioc fok other : TimeInForce

pub data OrderStatus : Type 0 where
  new partially_filled filled canceled replaced rejected : OrderStatus

pub data ExecType : Type 0 where
  new trade canceled replaced rejected : ExecType

pub data RejectReason : Type 0 where
  none invalid_quantity invalid_price duplicate_client_order_id unknown_order kill_switch
        max_order_quantity max_notional max_position max_gross_exposure price_band stale_market_data
        unsupported internal_error max_open_order_quantity message_rate_limit self_trade_prevention
        disconnected max_portfolio_gross_exposure max_portfolio_net_exposure
        max_symbol_concentration max_portfolio_loss post_only_would_cross fok_not_fillable :
      RejectReason

-- The `std::uint8_t` values of the enumerations.
unfoldable pub order_status_code : OrderStatus → ℕ
order_status_code new = 1
order_status_code partially_filled = 2
order_status_code filled = 3
order_status_code canceled = 4
order_status_code replaced = 5
order_status_code rejected = 6

unfoldable pub exec_type_code : ExecType → ℕ
exec_type_code new = 1
exec_type_code trade = 2
exec_type_code canceled = 3
exec_type_code replaced = 4
exec_type_code rejected = 5

unfoldable pub reject_reason_code : RejectReason → ℕ
reject_reason_code none = 0
reject_reason_code invalid_quantity = 1
reject_reason_code invalid_price = 2
reject_reason_code duplicate_client_order_id = 3
reject_reason_code unknown_order = 4
reject_reason_code kill_switch = 5
reject_reason_code max_order_quantity = 6
reject_reason_code max_notional = 7
reject_reason_code max_position = 8
reject_reason_code max_gross_exposure = 9
reject_reason_code price_band = 10
reject_reason_code stale_market_data = 11
reject_reason_code unsupported = 12
reject_reason_code internal_error = 13
reject_reason_code max_open_order_quantity = 14
reject_reason_code message_rate_limit = 15
reject_reason_code self_trade_prevention = 16
reject_reason_code disconnected = 17
reject_reason_code max_portfolio_gross_exposure = 18
reject_reason_code max_portfolio_net_exposure = 19
reject_reason_code max_symbol_concentration = 20
reject_reason_code max_portfolio_loss = 21
reject_reason_code post_only_would_cross = 22
reject_reason_code fok_not_fillable = 23

pub record ExecutionReport : Type 0 where
  pub client_order_id : ℕ
  pub exchange_order_id : ℕ
  pub symbol_id : ℕ
  pub side : Side
  pub order_status : OrderStatus
  pub exec_type : ExecType
  pub filled_quantity : ℤ
  pub remaining_quantity : ℤ
  pub last_fill_quantity : ℤ
  pub last_fill_price_ticks : ℤ
  pub average_price_ticks : ℤ
  pub resting_price_ticks : ℤ
  pub timestamp_ns : ℤ
  pub reject_reason : RejectReason

unfoldable pub append_to_checksum : ℕ → ExecutionReport → ℕ
unfolding append_u64 append_u32 append_u8 append_i64 side_code order_status_code exec_type_code
    reject_reason_code
append_to_checksum seed r =
    let s1 = append_u64 seed r.client_order_id in
    let s2 = append_u64 s1 r.exchange_order_id in
    let s3 = append_u32 s2 r.symbol_id in
    let s4 = append_u8 s3 (side_code r.side) in
    let s5 = append_u8 s4 (order_status_code r.order_status) in
    let s6 = append_u8 s5 (exec_type_code r.exec_type) in
    let s7 = append_i64 s6 r.filled_quantity in
    let s8 = append_i64 s7 r.remaining_quantity in
    let s9 = append_i64 s8 r.last_fill_quantity in
    let s10 = append_i64 s9 r.last_fill_price_ticks in
    let s11 = append_i64 s10 r.average_price_ticks in
    let s12 = append_i64 s11 r.resting_price_ticks in
    let s13 = append_i64 s12 r.timestamp_ns in append_u8 s13 (reject_reason_code r.reject_reason)

-- The loop of `checksum_execution_reports`.
unfoldable pub checksum_from : ℕ → List ExecutionReport → ℕ
checksum_from seed [] = seed
checksum_from seed (r ∷ rs) = checksum_from (append_to_checksum seed r) rs

unfoldable pub checksum_execution_reports : List ExecutionReport → ℕ
unfolding checksum_from
checksum_execution_reports rs = checksum_from fnv_offset_basis rs

pub checksum_from-append :
    (seed : ℕ) (xs ys : List ExecutionReport)
    → checksum_from seed (xs ++ ys) ≡ checksum_from (checksum_from seed xs) ys
unfolding checksum_from
checksum_from-append seed [] ys = refl
checksum_from-append seed (x ∷ xs) ys = checksum_from-append (append_to_checksum seed x) xs ys
