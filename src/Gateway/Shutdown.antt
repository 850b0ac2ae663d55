-- ===== src/Gateway/Shutdown.antt =====
-- The kill switch and the loss of the connection, which cancel the working orders.
pub mod Killed
use Prim.Native.String.{String}
use asterion.Prelude.{ℕ, suc, ◌+◌, Bool, true, false, not, List, [], ◌∷◌, if◌then◌else◌, length}
use asterion.Prelude.Text.{codes}
use asterion.Prelude.Int.{ℤ, pos}
use asterion.Matching.Report.{RejectReason}
use asterion.Gateway.{RiskGateway, WorkingOrder, record_audit_entry}

abbrev pub is_disconnected : RejectReason → Bool
is_disconnected RejectReason.disconnected = true
is_disconnected _ = false

-- The loop of `cancel_all_working_orders`, in the order of the map.
unfoldable pub audit_cancels :
    ℤ → RejectReason → String → List (ℕ × WorkingOrder) → RiskGateway → RiskGateway
unfolding record_audit_entry
audit_cancels timestamp_ns reason check_name [] g = g
audit_cancels timestamp_ns reason check_name ((id, o) ∷ os) g =
    let g' =
      record_audit_entry
        (record {
          timestamp_ns = timestamp_ns;
          client_order_id = id;
          symbol_id = o.symbol_id;
          side = o.side;
          accepted = false;
          reject_reason = reason;
          check_name = codes check_name;
          limit_value = pos 0;
          observed_value = o.quantity;
        })
        g in
    audit_cancels timestamp_ns reason check_name os (record g' {
      disconnect_cancel_count =
          if is_disconnected reason
          then suc g'.disconnect_cancel_count
          else g'.disconnect_cancel_count;
    })

unfoldable pub cancel_all_working_orders : ℤ → RejectReason → String → RiskGateway → RiskGateway
cancel_all_working_orders timestamp_ns reason check_name g =
    let noted =
      if g.record_audit
      then audit_cancels timestamp_ns reason check_name g.working_orders g
      else record g {
        disconnect_cancel_count =
            if is_disconnected reason
            then g.disconnect_cancel_count + length g.working_orders
            else g.disconnect_cancel_count;
      } in
    record noted {
      working_quantities = [];
      working_orders = [];
      exchange_to_client_order_ids = [];
      client_books = [];
    }

unfoldable pub enable_kill_switch : ℤ → RiskGateway → RiskGateway
enable_kill_switch timestamp_ns g =
    cancel_all_working_orders timestamp_ns RejectReason.kill_switch "kill_switch_cancel"
      (record g { kill_switch = true })

unfoldable pub on_disconnect : ℤ → RiskGateway → RiskGateway
on_disconnect timestamp_ns g =
    let down = record g { connected = false; disconnect_count = suc g.disconnect_count } in
    if not g.connected
    then g
    else if g.limits.cancel_on_disconnect
    then cancel_all_working_orders timestamp_ns RejectReason.disconnected "disconnect_cancel" down
    else down
