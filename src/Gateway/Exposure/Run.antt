-- ===== src/Gateway/Exposure/Run.antt =====
-- Whatever calls a new gateway gets, what it tracks is what its working orders add up to.
use Prim.Native.String.{String}
use asterion.Prelude.{
  ℕ, ◌≡◌, ◌∙◌, inl, inr, refl, Bool, true, false, none, some, List, [], ◌∷◌, if◌then◌else◌,
  Bool-cases, Option-cases, arith,
}
use asterion.Prelude.Int.{ℤ, pos, ◌<ℤ◌}
use asterion.Prelude.Assoc.{find}
use asterion.Matching.Report.{RejectReason}
use asterion.Matching.Admit.{NewOrderRequest, ReplaceOrderRequest}
use asterion.Gateway.ClientOrderIds.{contains, insert, reserve}
use asterion.Gateway.ClientOrderIds.Members.{
  IsHashed, contains-insert, empty_ids-IsHashed, reserve-IsHashed, contains-reserve,
}
use asterion.Gateway.Rate.{rate_limit_allows}
use asterion.Gateway.{
  RiskGateway, RiskLimits, WorkingOrder, new_gateway, working_quantity, decide_request,
  tracks_working_orders, disable_kill_switch, on_reconnect, on_market_data, set_position,
}
use asterion.Gateway.Working.{change_terms, register_working_order}
use asterion.Gateway.Shutdown.{
  audit_cancels, cancel_all_working_orders, enable_kill_switch, on_disconnect,
}
use asterion.Gateway.Admit.{
  connection_checks, request_checks, market_checks, rate_check, check_market, check_request,
  check_new_order, admit,
}
use asterion.Gateway.Replace.{
  replace_checks, replace_market_checks, replacement, replace_working, check_replace_market,
  check_replacement, working_by_exchange, check_replace_order,
}
use asterion.Gateway.Admit.Limits.{stage_lem}
use asterion.Gateway.Admit.Counted.{rate_limit_allows-with_rates}
use asterion.Gateway.Calls.{
  Call, change_limits, kill, revive, lose_connection, regain_connection, see_market, see_position,
  ask_new, ask_replace, release, hear, reserve_ids, set_audit, clear_audit, step, run,
}
use asterion.Gateway.Exposure.Open.{open_quantity}
use asterion.Gateway.Exposure.Tracked.{
  IsTracked, IsTracked-same, release_order-IsTracked, change_terms-IsTracked,
}
use asterion.Gateway.Exposure.Kept.{
  decide-IsTracked, rate_limit_allows-IsTracked, insert-IsTracked, register_working_order-IsTracked,
  on_execution_report-IsTracked,
}

audit_cancels-ids :
    (t : ℤ) (reason : RejectReason) (name : String) (os : List (ℕ × WorkingOrder)) (g : RiskGateway)
    → (audit_cancels t reason name os g).accepted_client_order_ids ≡ g.accepted_client_order_ids
unfolding audit_cancels
audit_cancels-ids t reason name [] g = refl
audit_cancels-ids t reason name ((id, o) ∷ os) g = audit_cancels-ids t reason name os _

cancel_all-ids :
    (t : ℤ) (reason : RejectReason) (name : String) (g : RiskGateway)
    → (cancel_all_working_orders t reason name g).accepted_client_order_ids
      ≡ g.accepted_client_order_ids
unfolding cancel_all_working_orders
cancel_all-ids t reason name g = elim (Bool-cases g.record_audit) [
  | inl e ↦ rw e (audit_cancels-ids t reason name g.working_orders _)
  | inr e ↦ rw e refl
]

cancel_all-IsTracked :
    (t : ℤ) (reason : RejectReason) (name : String) (g : RiskGateway)
    → IsHashed g.accepted_client_order_ids
    → IsTracked (cancel_all_working_orders t reason name g)
unfolding cancel_all_working_orders working_quantity open_quantity find
cancel_all-IsTracked t reason name g h = record {
  unique = tt;
  positive = tt;
  tracked = λ s. refl;
  known = λ id o e. absurd (ground arith);
  hashed = rw (cancel_all-ids t reason name g) h;
}

module _ (r : NewOrderRequest) (now_ns : ℤ) where
  admit-IsTracked :
      (g : RiskGateway)
      → pos 0 <ℤ r.quantity
      → contains r.client_order_id g.accepted_client_order_ids ≡ false
      → IsTracked g
      → IsTracked (admit r now_ns g).0
  unfolding admit decide_request
  admit-IsTracked g h fresh t =
      let ids = insert r.client_order_id g.accepted_client_order_ids in
      let known = record g { accepted_client_order_ids = ids } in
      let k = insert-IsTracked r.client_order_id g t in
      let absent : find r.client_order_id g.working_orders ≡ none =
        elim (Option-cases (find r.client_order_id g.working_orders)) [
          | inl none_there ↦ none_there
          | inr (o, there) ↦ absurd (ground (arith, t.known r.client_order_id o there, fresh))
        ] in
      let held : contains r.client_order_id ids ≡ true =
        rw
          (contains-insert r.client_order_id r.client_order_id g.accepted_client_order_ids t.hashed)
          (ground arith) in
      let kept : IsTracked
          (if tracks_working_orders known then register_working_order r known else known) =
        elim (Bool-cases (tracks_working_orders known)) [
          | inl e ↦ rw e (register_working_order-IsTracked r known h absent held k)
          | inr e ↦ rw e k
        ] in
      decide-IsTracked now_ns _ _ _ _ _ _ _ _ _ kept

  check_market-IsTracked :
      (g : RiskGateway)
      → pos 0 <ℤ r.quantity
      → contains r.client_order_id g.accepted_client_order_ids ≡ false
      → IsTracked g
      → IsTracked (check_market r now_ns g).0
  unfolding check_market decide_request
  check_market-IsTracked g h fresh t = elim (Option-cases (find r.symbol_id g.market_state)) [
    | inl e ↦ rw (e, check_market) (decide-IsTracked now_ns _ _ _ _ _ _ _ _ g t)
    | inr (m, e) ↦
        rw (e, check_market)
          (stage_lem (λ p. IsTracked p.0) (market_checks r m now_ns g)
            (λ c.
              decide_request r now_ns c.check_name false c.reason c.limit_value c.observed_value g)
            (admit r now_ns g) (λ c. decide-IsTracked now_ns _ _ _ _ _ _ _ _ g t)
            (λ _. admit-IsTracked g h fresh t))
  ]

  check_request-IsTracked :
      (counted : RiskGateway × Bool × ℤ)
      → IsTracked counted.0
      → IsTracked (check_request r now_ns counted).0
  unfolding check_request decide_request request_checks
  check_request-IsTracked (g, allowed, rate) t =
      stage_lem (λ p. IsTracked p.0)
        (rate_check "message_rate_limit" "message_rate_limit_sliding" allowed rate g
          ∷ request_checks r g)
        (λ c. decide_request r now_ns c.check_name false c.reason c.limit_value c.observed_value g)
        (check_market r now_ns g) (λ c. decide-IsTracked now_ns _ _ _ _ _ _ _ _ g t)
        (λ a. check_market-IsTracked g (ground (arith, a.1.0)) a.1.1.1.0 t)

  check_new_order-IsTracked :
      (g : RiskGateway) → IsTracked g → IsTracked (check_new_order r now_ns g).0
  unfolding check_new_order decide_request
  check_new_order-IsTracked g t =
      stage_lem (λ p. IsTracked p.0) (connection_checks g)
        (λ c. decide_request r now_ns c.check_name false c.reason c.limit_value c.observed_value g)
        (check_request r now_ns (rate_limit_allows r now_ns g))
        (λ c. decide-IsTracked now_ns _ _ _ _ _ _ _ _ g t)
        (λ _.
          check_request-IsTracked (rate_limit_allows r now_ns g)
            (rate_limit_allows-IsTracked r now_ns g t))

module _ (r : ReplaceOrderRequest) (now_ns : ℤ) (key : ℕ) (o : WorkingOrder)
    (h : pos 0 <ℤ r.new_quantity) where
  replace_working-IsTracked :
      (g : RiskGateway)
      → find key g.working_orders ≡ some o
      → IsTracked g
      → IsTracked (replace_working r key o now_ns g).0
  unfolding replace_working decide_request
  replace_working-IsTracked g e t =
      let changed = change_terms key o r.new_price_ticks r.new_quantity g in
      decide-IsTracked now_ns _ _ _ _ _ _ _ _ _ (
        insert-IsTracked r.client_order_id changed
          (change_terms-IsTracked g t key o r.new_price_ticks r.new_quantity e h))

  check_replace_market-IsTracked :
      (g : RiskGateway)
      → find key g.working_orders ≡ some o
      → IsTracked g
      → IsTracked (check_replace_market r key o now_ns g).0
  unfolding check_replace_market decide_request
  check_replace_market-IsTracked g w t = elim (Option-cases (find o.symbol_id g.market_state)) [
    | inl e ↦ rw (e, check_replace_market) (decide-IsTracked now_ns _ _ _ _ _ _ _ _ g t)
    | inr (m, e) ↦
        rw (e, check_replace_market)
          (stage_lem (λ p. IsTracked p.0) (replace_market_checks r o m now_ns g)
            (λ c.
              decide_request (replacement r o) now_ns c.check_name false c.reason c.limit_value
                c.observed_value g)
            (replace_working r key o now_ns g) (λ c. decide-IsTracked now_ns _ _ _ _ _ _ _ _ g t)
            (λ _. replace_working-IsTracked g w t))
  ]

  check_replacement-IsTracked :
      (counted : RiskGateway × Bool × ℤ)
      → find key counted.0.working_orders ≡ some o
      → IsTracked counted.0
      → IsTracked (check_replacement r key o now_ns counted).0
  unfolding check_replacement decide_request
  check_replacement-IsTracked (g, allowed, rate) w t =
      stage_lem (λ p. IsTracked p.0) _
        (λ c.
          decide_request (replacement r o) now_ns c.check_name false c.reason c.limit_value
            c.observed_value g)
        (check_replace_market r key o now_ns g) (λ c. decide-IsTracked now_ns _ _ _ _ _ _ _ _ g t)
        (λ _. check_replace_market-IsTracked g w t)

working_by_exchange-find :
    (x : ℕ) (g : RiskGateway) (f : ℕ × WorkingOrder)
    → working_by_exchange x g ≡ some f
    → find f.0 g.working_orders ≡ some f.1
unfolding working_by_exchange
working_by_exchange-find x g f h = elim (Option-cases (find x g.exchange_to_client_order_ids)) [
  | inl e ↦ absurd (ground (arith, e))
  | inr (k, e) ↦ elim (Option-cases (find k g.working_orders)) [
    | inl l ↦ absurd (ground (arith, e, l))
    | inr (o, l) ↦ ground (arith, e, l)
  ]
]

check_replace_order-IsTracked :
    (r : ReplaceOrderRequest) (now_ns : ℤ) (g : RiskGateway)
    → IsTracked g
    → IsTracked (check_replace_order r now_ns g).0
unfolding check_replace_order replace_checks
check_replace_order-IsTracked r now_ns g t =
    stage_lem (λ p. IsTracked p.0) (connection_checks g) _ _
      (λ c. decide-IsTracked now_ns _ _ _ _ _ _ _ _ g t)
      (λ _.
        stage_lem (λ p. IsTracked p.0) (replace_checks r g) _ _
          (λ c. decide-IsTracked now_ns _ _ _ _ _ _ _ _ g t)
          (λ a. elim (Option-cases (working_by_exchange r.exchange_order_id g)) [
            | inl e ↦ rw e (decide-IsTracked now_ns _ _ _ _ _ _ _ _ g t)
            | inr (f, e) ↦
                let n = replacement r f.1 in
                let there : find f.0 (rate_limit_allows n now_ns g).0.working_orders ≡ some f.1 =
                  rw (rate_limit_allows-with_rates n now_ns g)
                    (working_by_exchange-find r.exchange_order_id g f e) in
                rw e (
                  check_replacement-IsTracked r now_ns f.0 f.1 (ground (arith, a.0))
                    (rate_limit_allows n now_ns g) there (rate_limit_allows-IsTracked n now_ns g t))
          ]))

reserve_ids-IsTracked :
    (n : ℕ) (g : RiskGateway)
    → IsTracked g
    → IsTracked (record g { accepted_client_order_ids = reserve n g.accepted_client_order_ids })
unfolding working_quantity
reserve_ids-IsTracked n g t = record {
  unique = t.unique;
  positive = t.positive;
  tracked = t.tracked;
  known = λ k o e. contains-reserve n g.accepted_client_order_ids t.hashed k ∙ t.known k o e;
  hashed = reserve-IsHashed n g.accepted_client_order_ids t.hashed;
}

kill-IsTracked : (t : ℤ) (g : RiskGateway) → IsTracked g → IsTracked (enable_kill_switch t g)
unfolding enable_kill_switch
kill-IsTracked t g h =
    cancel_all-IsTracked t RejectReason.kill_switch _ (record g { kill_switch = true }) h.hashed

on_disconnect-IsTracked : (t : ℤ) (g : RiskGateway) → IsTracked g → IsTracked (on_disconnect t g)
unfolding on_disconnect
on_disconnect-IsTracked t g h = elim (Bool-cases g.connected) [
  | inr e ↦ rw e (IsTracked-same g _ refl refl refl h)
  | inl e ↦ elim (Bool-cases g.limits.cancel_on_disconnect) [
    | inl c ↦ rw (e, c) (cancel_all-IsTracked t RejectReason.disconnected _ _ h.hashed)
    | inr c ↦ rw (e, c) (IsTracked-same g _ refl refl refl h)
  ]
]

-- Every call keeps the working orders tracked.
pub step-IsTracked : (c : Call) (g : RiskGateway) → IsTracked g → IsTracked (step c g)
unfolding step disable_kill_switch on_reconnect on_market_data set_position
step-IsTracked (change_limits limits) g t = IsTracked-same g _ refl refl refl t
step-IsTracked (kill now_ns) g t = kill-IsTracked now_ns g t
step-IsTracked revive g t = IsTracked-same g _ refl refl refl t
step-IsTracked (lose_connection now_ns) g t = on_disconnect-IsTracked now_ns g t
step-IsTracked (regain_connection now_ns) g t = IsTracked-same g _ refl refl refl t
step-IsTracked (see_market symbol_id price now_ns) g t = IsTracked-same g _ refl refl refl t
step-IsTracked (see_position symbol_id quantity) g t = IsTracked-same g _ refl refl refl t
step-IsTracked (ask_new r now_ns) g t = check_new_order-IsTracked r now_ns g t
step-IsTracked (ask_replace r now_ns) g t = check_replace_order-IsTracked r now_ns g t
step-IsTracked (release id) g t = release_order-IsTracked g t id
step-IsTracked (hear r) g t = on_execution_report-IsTracked r g t
step-IsTracked (reserve_ids n) g t = reserve_ids-IsTracked n g t
step-IsTracked (set_audit enabled) g t = IsTracked-same g _ refl refl refl t
step-IsTracked clear_audit g t = IsTracked-same g _ refl refl refl t

run-IsTracked : (cs : List Call) (g : RiskGateway) → IsTracked g → IsTracked (run cs g)
unfolding run
run-IsTracked [] g t = t
run-IsTracked (c ∷ cs) g t = run-IsTracked cs (step c g) (step-IsTracked c g t)

new_gateway-IsTracked : (limits : RiskLimits) → IsTracked (new_gateway limits)
unfolding new_gateway working_quantity open_quantity find
new_gateway-IsTracked limits = record {
  unique = tt;
  positive = tt;
  tracked = λ s. refl;
  known = λ id o e. absurd (ground arith);
  hashed = empty_ids-IsHashed;
}

-- After any calls to a new gateway, the working quantity of every symbol is the sum of the quantities of
-- its working orders, each of which is positive and works under an id that the set of accepted ids
-- contains; no id works twice, and every id stands where the set looks for it.
pub gateway-IsTracked :
    (limits : RiskLimits) (cs : List Call) → IsTracked (run cs (new_gateway limits))
gateway-IsTracked limits cs = run-IsTracked cs (new_gateway limits) (new_gateway-IsTracked limits)
