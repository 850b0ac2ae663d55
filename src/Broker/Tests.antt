-- ===== src/Broker/Tests.antt =====
-- A session with a gateway that counts its disconnects, and the session's theorems at it.
use asterion.Prelude.{ℕ, suc, true, some, List, [], ◌∷◌}
use asterion.Prelude.Int.{pos}
use asterion.Core.Types.{buy}
use asterion.Broker.Trace.{
  Call, connect_at, disconnect_at, accept_order, ask_cancel, confirm_cancel, fill_order,
  attach_risk_gateway, step, run, IsConsistent,
}
use asterion.Broker.Event.{accepted}
use asterion.Broker.Lifecycle.{session_run-IsConsistent}
use asterion.Broker.Moves.{Moves, step-Moves, state_at}
use asterion.Broker.{OrderRecord, GatewayOps, SimulatedBrokerSession, new_session}

abbrev counting : GatewayOps ℕ
counting = record { on_disconnect = λ t n. suc n; on_reconnect = λ t n. n }

abbrev an_order : OrderRecord
an_order = record {
  client_order_id = 5;
  symbol_id = 7;
  side = buy;
  quantity = pos 10;
  state = accepted;
}

abbrev calls : List (Call ℕ)
calls =
    attach_risk_gateway (some 0)
    ∷ connect_at (pos 1)
    ∷ accept_order 4 an_order (pos 2)
    ∷ accept_order 3 an_order (pos 3)
    ∷ ask_cancel 4 (pos 4)
    ∷ confirm_cancel 4 (pos 5)
    ∷ disconnect_at (pos 6)
    ∷ []

abbrev after : SimulatedBrokerSession ℕ
after = run counting calls (new_session true)

session_run-IsConsistent_example : IsConsistent (run counting calls (new_session true))
session_run-IsConsistent_example = session_run-IsConsistent counting true calls

step-Moves_example :
    Moves (state_at 3 after) (state_at 3 (step counting (fill_order 3 (pos 7)) after))
step-Moves_example =
    step-Moves counting (fill_order 3 (pos 7)) after 3
      (session_run-IsConsistent counting true calls)
