-- ===== src/Gateway/Audit/Log.antt =====
-- risk_audit.cpp: an entry as a line of the log, in either format.
use asterion.Prelude.{ℕ, ◌==◌, Bool, true, false, [], ◌∷◌, ◌++◌, if◌then◌else◌}
use asterion.Prelude.Text.{Text, codes}
use asterion.Prelude.Decimal.{format_nat, format_int}
use asterion.Core.Types.{Side, buy, sell}
use asterion.Matching.Report.{RejectReason}
use asterion.Gateway.Audit.{RiskAuditEntry}

pub data RiskAuditLogFormat : Type 0 where
  text jsonl : RiskAuditLogFormat

-- `to_string` of a side and of a reason.
unfoldable pub show_side : Side → Text
show_side Side.none = codes "None"
show_side buy = codes "Buy"
show_side sell = codes "Sell"

unfoldable pub show_reason : RejectReason → Text
show_reason RejectReason.none = codes "None"
show_reason RejectReason.invalid_quantity = codes "InvalidQuantity"
show_reason RejectReason.invalid_price = codes "InvalidPrice"
show_reason RejectReason.duplicate_client_order_id = codes "DuplicateClientOrderId"
show_reason RejectReason.unknown_order = codes "UnknownOrder"
show_reason RejectReason.kill_switch = codes "KillSwitch"
show_reason RejectReason.max_order_quantity = codes "MaxOrderQuantity"
show_reason RejectReason.max_notional = codes "MaxNotional"
show_reason RejectReason.max_position = codes "MaxPosition"
show_reason RejectReason.max_gross_exposure = codes "MaxGrossExposure"
show_reason RejectReason.price_band = codes "PriceBand"
show_reason RejectReason.stale_market_data = codes "StaleMarketData"
show_reason RejectReason.unsupported = codes "Unsupported"
show_reason RejectReason.internal_error = codes "InternalError"
show_reason RejectReason.max_open_order_quantity = codes "MaxOpenOrderQuantity"
show_reason RejectReason.message_rate_limit = codes "MessageRateLimit"
show_reason RejectReason.self_trade_prevention = codes "SelfTradePrevention"
show_reason RejectReason.disconnected = codes "Disconnected"
show_reason RejectReason.max_portfolio_gross_exposure = codes "MaxPortfolioGrossExposure"
show_reason RejectReason.max_portfolio_net_exposure = codes "MaxPortfolioNetExposure"
show_reason RejectReason.max_symbol_concentration = codes "MaxSymbolConcentration"
show_reason RejectReason.max_portfolio_loss = codes "MaxPortfolioLoss"
show_reason RejectReason.post_only_would_cross = codes "PostOnlyWouldCross"
show_reason RejectReason.fok_not_fillable = codes "FokNotFillable"

abbrev pub show_bool : Bool → Text
show_bool true = codes "true"
show_bool false = codes "false"

unfoldable pub escape : ℕ → Text
escape c =
    if c == b'\\'
    then codes "\\\\"
    else if c == b'"'
    then codes "\\\""
    else if c == 10
    then codes "\\n"
    else if c == 13
    then codes "\\r"
    else if c == 9
    then codes "\\t"
    else c ∷ []

unfoldable pub escape_all : Text → Text
unfolding escape
escape_all [] = []
escape_all (c ∷ s) = escape c ++ escape_all s

-- `write_json_string`, before what is written next.
unfoldable pub write_json_string : Text → Text → Text
unfolding escape_all
write_json_string value next = b'"' ∷ (escape_all value ++ b'"' ∷ next)

-- A text line, up to its line end.
unfoldable pub text_line : RiskAuditEntry → ℕ → Text
unfolding format_int format_nat show_side show_reason
text_line e trail_checksum =
    codes "timestamp_ns="
    ++ (format_int e.timestamp_ns
        ++ (codes " client_order_id="
            ++ (format_nat e.client_order_id
                ++ (codes " symbol_id="
                    ++ (format_nat e.symbol_id
                        ++ (codes " side="
                            ++ (show_side e.side
                                ++ (codes " accepted="
                                    ++ (show_bool e.accepted
                                        ++ (codes " reject_reason="
                                            ++ (show_reason e.reject_reason
                                                ++ (codes " check_name="
                                                    ++ (e.check_name
                                                        ++ (codes " limit_value="
                                                            ++ (format_int e.limit_value
                                                            ++ (codes " observed_value="
                                                            ++ (format_int e.observed_value
                                                            ++ (codes " checksum="
                                                            ++ format_nat
                                                            trail_checksum))))))))))))))))))

unfoldable pub jsonl_line : RiskAuditEntry → ℕ → Text
unfolding format_int format_nat show_side show_reason write_json_string
jsonl_line e trail_checksum =
    codes "{\"timestamp_ns\":"
    ++ (format_int e.timestamp_ns
        ++ (codes ",\"client_order_id\":"
            ++ (format_nat e.client_order_id
                ++ (codes ",\"symbol_id\":"
                    ++ (format_nat e.symbol_id
                        ++ (codes ",\"side\":"
                            ++ write_json_string (show_side e.side) (
                                codes ",\"accepted\":"
                                ++ (show_bool e.accepted
                                    ++ (codes ",\"reject_reason\":"
                                        ++ write_json_string (show_reason e.reject_reason) (
                                            codes ",\"check_name\":"
                                            ++ write_json_string e.check_name (
                                                codes ",\"limit_value\":"
                                                ++ (format_int e.limit_value
                                                    ++ (codes ",\"observed_value\":"
                                                        ++ (format_int e.observed_value
                                                            ++ (codes ",\"checksum\":"
                                                            ++ (format_nat trail_checksum
                                                            ++ codes "}"))))))))))))))))

unfoldable pub format_risk_audit_log_entry : RiskAuditEntry → ℕ → RiskAuditLogFormat → Text
unfolding text_line jsonl_line
format_risk_audit_log_entry e trail_checksum text = text_line e trail_checksum ++ 10 ∷ []
format_risk_audit_log_entry e trail_checksum jsonl = jsonl_line e trail_checksum ++ 10 ∷ []
