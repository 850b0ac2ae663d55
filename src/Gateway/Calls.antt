-- ===== src/Gateway/Calls.antt =====
-- The calls of a gateway, and a gateway that calls lead to.
use asterion.Prelude.{ℕ, Bool, List, [], ◌∷◌}
use asterion.Prelude.Int.{ℤ}
use asterion.Matching.Report.{ExecutionReport}
use asterion.Matching.Admit.{NewOrderRequest, ReplaceOrderRequest}
use asterion.Gateway.Audit.{empty_trail}
use asterion.Gateway.{
  RiskGateway, RiskLimits, disable_kill_switch, on_reconnect, on_market_data, set_position,
}
use asterion.Gateway.ClientOrderIds.{reserve}
use asterion.Gateway.Working.{release_order}
use asterion.Gateway.Reports.{on_execution_report}
use asterion.Gateway.Shutdown.{enable_kill_switch, on_disconnect}
use asterion.Gateway.Admit.{check_new_order}
use asterion.Gateway.Replace.{check_replace_order}

pub data Call : Type 0 where
  change_limits : RiskLimits → Call
  kill : ℤ → Call
  revive : Call
  lose_connection : ℤ → Call
  regain_connection : ℤ → Call
  see_market : ℕ → ℤ → ℤ → Call
  see_position : ℕ → ℤ → Call
  ask_new : NewOrderRequest → ℤ → Call
  ask_replace : ReplaceOrderRequest → ℤ → Call
  release : ℕ → Call
  hear : ExecutionReport → Call
  reserve_ids : ℕ → Call
  set_audit : Bool → Call
  clear_audit : Call

unfoldable pub step : Call → RiskGateway → RiskGateway
step (change_limits limits) g = record g { limits = limits }
step (kill t) g = enable_kill_switch t g
step revive g = disable_kill_switch g
step (lose_connection t) g = on_disconnect t g
step (regain_connection t) g = on_reconnect t g
step (see_market symbol_id price t) g = on_market_data symbol_id price t g
step (see_position symbol_id quantity) g = set_position symbol_id quantity g
step (ask_new r now_ns) g = (check_new_order r now_ns g).0
step (ask_replace r now_ns) g = (check_replace_order r now_ns g).0
step (release id) g = release_order id g
step (hear r) g = on_execution_report r g
step (reserve_ids n) g = record g {
  accepted_client_order_ids = reserve n g.accepted_client_order_ids;
}
step (set_audit enabled) g = record g { record_audit = enabled }
step clear_audit g = record g { audit = empty_trail }

unfoldable pub run : List Call → RiskGateway → RiskGateway
unfolding step
run [] g = g
run (c ∷ cs) g = run cs (step c g)
