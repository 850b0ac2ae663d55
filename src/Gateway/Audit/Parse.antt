-- ===== src/Gateway/Audit/Parse.antt =====
-- risk_audit.cpp: a line of the log read back.
use asterion.Prelude.{
  ℕ, ◌^◌, ◌==◌, Bool, true, false, not, ◌&&◌, ◌||◌, Option, none, some, List, [], ◌∷◌, ◌++◌,
  if◌then◌else◌,
}
use Prim.Native.String.{String}
use asterion.Prelude.Text.{Text, codes, eq_text, strip_prefix, take_until}
use asterion.Prelude.Decimal.{parse_nat, parse_int}
use asterion.Core.Types.{Side, buy, sell}
use asterion.Matching.Report.{RejectReason}
use asterion.Gateway.Audit.{RiskAuditEntry}
use asterion.Gateway.Audit.Log.{RiskAuditLogFormat, text, jsonl}

abbrev pub or_else : Option Text → Option Text → Option Text
or_else (some v) further = some v
or_else none further = further

-- The loop of `text_value_for`; `starts` says that a token starts here.
unfoldable pub scan_tokens : Text → Bool → Text → Option Text
unfolding strip_prefix take_until
scan_tokens needle starts [] = none
scan_tokens needle starts (c ∷ s) =
    or_else (if starts then strip_prefix needle (take_until (λ d. d == b' ') (c ∷ s)) else none)
      (scan_tokens needle (c == b' ') s)

unfoldable pub text_value_for : Text → Text → Option Text
unfolding scan_tokens
text_value_for line key = scan_tokens (key ++ b'=' ∷ []) true line

-- `find` of a text: what follows its first occurrence.
unfoldable pub find_after : Text → Text → Option Text
unfolding strip_prefix
find_after needle [] = strip_prefix needle []
find_after needle (c ∷ s) = or_else (strip_prefix needle (c ∷ s)) (find_after needle s)

abbrev more : ℕ → Option Text → Option Text
more c none = none
more c (some s) = some (c ∷ s)

-- The loop to the closing quote.
unfoldable pub quoted : Bool → Text → Option Text
quoted escaped [] = none
quoted escaped (c ∷ s) =
    let rest = quoted (if c == b'\\' then not escaped else false) s in
    if not escaped && (c == b'"') then some [] else more c rest

unfoldable pub json_value : Text → Option Text
unfolding quoted take_until
json_value [] = none
json_value (c ∷ s) =
    if c == b'"'
    then quoted false s
    else some (take_until (λ d. (d == b',') || (d == b'}')) (c ∷ s))

unfoldable pub json_value_for : Text → Text → Option Text
unfolding find_after json_value
json_value_for line key = elim (find_after (b'"' ∷ (key ++ codes "\":")) line) [
  | none ↦ none
  | some rest ↦ json_value rest
]

unfoldable pub first_named {ℓ} : {A : Type ℓ} → Text → List (String × A) → Option A
unfolding eq_text
first_named value [] = none
first_named value ((name, a) ∷ rest) =
    if eq_text value (codes name) then some a else first_named value rest

unfoldable pub parse_side_token : Text → Option Side
unfolding first_named
parse_side_token value =
    first_named value (("Buy", buy) ∷ ("Sell", sell) ∷ ("None", Side.none) ∷ [])

-- The names in the order of the source's tests.
abbrev reason_tokens : List (String × RejectReason)
reason_tokens =
    ("None", RejectReason.none)
    ∷ ("InvalidQuantity", RejectReason.invalid_quantity)
    ∷ ("InvalidPrice", RejectReason.invalid_price)
    ∷ ("DuplicateClientOrderId", RejectReason.duplicate_client_order_id)
    ∷ ("UnknownOrder", RejectReason.unknown_order)
    ∷ ("KillSwitch", RejectReason.kill_switch)
    ∷ ("MaxOrderQuantity", RejectReason.max_order_quantity)
    ∷ ("MaxNotional", RejectReason.max_notional)
    ∷ ("MaxPosition", RejectReason.max_position)
    ∷ ("MaxGrossExposure", RejectReason.max_gross_exposure)
    ∷ ("PriceBand", RejectReason.price_band)
    ∷ ("StaleMarketData", RejectReason.stale_market_data)
    ∷ ("Unsupported", RejectReason.unsupported)
    ∷ ("InternalError", RejectReason.internal_error)
    ∷ ("MaxOpenOrderQuantity", RejectReason.max_open_order_quantity)
    ∷ ("MessageRateLimit", RejectReason.message_rate_limit)
    ∷ ("SelfTradePrevention", RejectReason.self_trade_prevention)
    ∷ ("Disconnected", RejectReason.disconnected)
    ∷ ("MaxPortfolioGrossExposure", RejectReason.max_portfolio_gross_exposure)
    ∷ ("MaxPortfolioNetExposure", RejectReason.max_portfolio_net_exposure)
    ∷ ("MaxSymbolConcentration", RejectReason.max_symbol_concentration)
    ∷ ("MaxPortfolioLoss", RejectReason.max_portfolio_loss)
    ∷ []

unfoldable pub parse_reject_reason_token : Text → Option RejectReason
unfolding first_named
parse_reject_reason_token value = first_named value reason_tokens

unfoldable pub parse_bool_token : Text → Bool
unfolding eq_text
parse_bool_token value = eq_text value (codes "true")

infixl 5 ◌>>=◌
abbrev pub ◌>>=◌ {ℓ κ} : {A : Type ℓ} {B : Type κ} → Option A → (A → Option B) → Option B
none >>= f = none
some a >>= f = f a

-- The fields of a line, whatever gives their values.
unfoldable pub parse_fields : (Text → Option Text) → Option (RiskAuditEntry × ℕ)
parse_fields value_for = do
  timestamp_ns ← value_for (codes "timestamp_ns") >>= parse_int
  client_order_id ← value_for (codes "client_order_id") >>= parse_nat (2 ^ 64)
  symbol_id ← value_for (codes "symbol_id") >>= parse_nat (2 ^ 32)
  limit_value ← value_for (codes "limit_value") >>= parse_int
  observed_value ← value_for (codes "observed_value") >>= parse_int
  logged_checksum ← value_for (codes "checksum") >>= parse_nat (2 ^ 64)
  side ← value_for (codes "side") >>= parse_side_token
  reason ← value_for (codes "reject_reason") >>= parse_reject_reason_token
  accepted ← value_for (codes "accepted")
  check_name ← value_for (codes "check_name")
  let entry : RiskAuditEntry = record {
    timestamp_ns = timestamp_ns;
    client_order_id = client_order_id;
    symbol_id = symbol_id;
    side = side;
    accepted = parse_bool_token accepted;
    reject_reason = reason;
    check_name = check_name;
    limit_value = limit_value;
    observed_value = observed_value;
  }
  some (entry, logged_checksum)

unfoldable pub parse_audit_entry_line : Text → RiskAuditLogFormat → Option (RiskAuditEntry × ℕ)
unfolding parse_fields text_value_for json_value_for
parse_audit_entry_line line text = parse_fields (text_value_for line)
parse_audit_entry_line line jsonl = parse_fields (json_value_for line)
