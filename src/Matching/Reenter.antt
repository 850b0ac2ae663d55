-- ===== src/Matching/Reenter.antt =====
-- `replace_order` of the engine keeps it sound.
use asterion.Prelude.{ℕ, ◌≡◌, refl, inl, inr, not, ◌&&◌, some, [], arith, Option-cases, Bool-cases}
use asterion.Prelude.Int.{pos, ◌<ℤ◌, leb_ℤ, ltb_ℤ, +-ℤ_cancel}
use asterion.Prelude.Assoc.{find, find-modify}
use asterion.Core.Types.{Side}
use asterion.Book.Queue.{Order}
use asterion.Book.{find_order}
use asterion.Matching.Report.{OrderType, OrderStatus, ExecType, RejectReason}
use asterion.Matching.State.{OrderState}
use asterion.Matching.Admit.{ReplaceOrderRequest, would_self_trade, is_some}
use asterion.Matching.Sound.{IsSound}
use asterion.Matching.Trade.{Incoming}
use asterion.Matching.Rounds.{Ended, match_against_book-Ended}
use asterion.Matching.Resting.{modify-IsSound, rest-IsSound}
use asterion.Matching.Terms.{
  SameTerms, set_status-SameTerms, if-SameTerms, update_state-IsSound, update_state-Incoming,
  report_state-IsSound, report_state-Incoming,
}
use asterion.Matching.Submit.{reserve-IsSound, reject-IsSound}
use asterion.Matching.Change.{
  taken, without, without-off_book, without-IsSound, found_nonzero, some_of,
}
use asterion.Matching.Loop.{Round, match_against_book}
use asterion.Matching.Amend.{
  amended, is_replaced, mark_partial_unless_replaced, settle_replaced, reenter, replace_resting,
  replace_known, replace_request,
}
use asterion.Matching.{
  MatchingEngine, Reported, report_state, update_state, update_book, set_status,
  reserve_client_order_id,
}

module _ (r : ReplaceOrderRequest) (s : OrderState) (o : Order) (e : MatchingEngine) (h : IsSound e)
    (found : find_order r.exchange_order_id e.book ≡ some o)
    (known : find r.exchange_order_id e.states ≡ some s) (sized : pos 0 <ℤ r.new_quantity)
    (priced : pos 0 <ℤ r.new_price_ticks) where
  abbrev id : ℕ
  id = r.exchange_order_id

  abbrev off : MatchingEngine
  off = without e h id o found

  limit_order : s.order_type ≡ OrderType.limit
  limit_order = let b = h.backed id o found in ground (arith, b.found, b.is_limit_order)

  abbrev changed : Reported
  changed = update_state id (amended r) (record { engine = off; reports = [] })

  changed-IsSound : IsSound changed.engine
  unfolding update_state
  changed-IsSound =
      modify-IsSound off id (amended r) (without-IsSound e h id o found)
        (without-off_book e h id o found)
        (λ s' n. record {
          same_id = n.same_id;
          same_symbol = n.same_symbol;
          valid_side = n.valid_side;
        })

  changed-Incoming :
      Incoming id s.side OrderType.limit r.new_price_ticks r.new_quantity changed.engine
  unfolding update_state
  changed-Incoming = record {
    off_book = without-off_book e h id o found;
    state = amended r s;
    found = ground (arith, find-modify id id (amended r) e.states, known);
    same_side = refl;
    same_type = limit_order;
    same_limit = refl;
    unfilled = +-ℤ_cancel s.filled_quantity r.new_quantity;
    nonnegative = ground arith;
  }

  abbrev announced : Reported
  announced =
      report_state id ExecType.replaced (pos 0) (pos 0) r.timestamp_ns RejectReason.none changed

  abbrev looped : Round
  looped = match_against_book id r.timestamp_ns announced r.new_quantity

  looped-Ended : Ended id s.side OrderType.limit r.new_price_ticks r.timestamp_ns looped
  looped-Ended =
      match_against_book-Ended id s.side OrderType.limit r.new_price_ticks r.timestamp_ns announced
        r.new_quantity
        (
          report_state-IsSound id ExecType.replaced (pos 0) (pos 0) r.timestamp_ns RejectReason.none
              changed changed-IsSound,
          report_state-Incoming id ExecType.replaced (pos 0) (pos 0) r.timestamp_ns
              RejectReason.none changed id s.side OrderType.limit r.new_price_ticks r.new_quantity
              changed-Incoming,
        )

  terms : (x : OrderState) → SameTerms x (mark_partial_unless_replaced x)
  terms x =
      if-SameTerms (ltb_ℤ (pos 0) x.filled_quantity && not (is_replaced x.status)) x
        (set_status OrderStatus.partially_filled x)
        (set_status-SameTerms OrderStatus.partially_filled x)

  settle_replaced-IsSound :
      (after : Round)
      → Ended id s.side OrderType.limit r.new_price_ticks r.timestamp_ns after
      → IsSound (settle_replaced r after).engine
  unfolding settle_replaced update_state
  settle_replaced-IsSound after end = elim (Bool-cases (ltb_ℤ (pos 0) after.remaining)) [
    | inr none_left ↦ rw none_left end.in_loop.0
    | inl left ↦
        let inc = end.in_loop.1 in
        let marked = update_state id mark_partial_unless_replaced after.reported in
        rw left (
          rest-IsSound id s.side r.new_price_ticks after.remaining r.timestamp_ns marked
            (update_state-IsSound id mark_partial_unless_replaced terms after.reported end.in_loop.0
              inc.off_book)
            (update_state-Incoming id mark_partial_unless_replaced terms after.reported
              end.in_loop.0 s.side OrderType.limit r.new_price_ticks after.remaining inc)
            (found_nonzero e h id o found) priced (ground arith) (ground (arith, end.condition)))
  ]

  reenter-IsSound : IsSound (reenter r (record { engine = off; reports = [] })).engine
  unfolding reenter
  reenter-IsSound = settle_replaced-IsSound looped looped-Ended

  replace_resting-IsSound : IsSound (replace_resting r s e).engine
  unfolding replace_resting update_book
  replace_resting-IsSound =
      elim (Bool-cases (
        would_self_trade s.side s.order_type r.new_price_ticks s.client_id s.exchange_order_id e)) [
          | inl own ↦ rw own (
              reject-IsSound r.client_order_id e.symbol_id s.side r.timestamp_ns
                RejectReason.self_trade_prevention e h)
          | inr other ↦ rw (other, (taken e h id o found).accepted) reenter-IsSound
        ]

module _ (r : ReplaceOrderRequest) (e : MatchingEngine) (h : IsSound e) where
  replace_known-IsSound :
      pos 0 <ℤ r.new_quantity → pos 0 <ℤ r.new_price_ticks → IsSound (replace_known r e).engine
  unfolding replace_known
  replace_known-IsSound sized priced = elim (Option-cases (find r.exchange_order_id e.states)) [
    | inl unknown ↦
        rw (unknown, replace_known)
          (reject-IsSound r.client_order_id e.symbol_id Side.none r.timestamp_ns
            RejectReason.unknown_order e h)
    | inr (s, known) ↦ elim (Bool-cases (is_some (find_order r.exchange_order_id e.book))) [
      | inr gone ↦
          rw (known, replace_known, gone)
            (reject-IsSound r.client_order_id e.symbol_id Side.none r.timestamp_ns
              RejectReason.unknown_order e h)
      | inl rests ↦
          let (o, found) = some_of (find_order r.exchange_order_id e.book) rests in
          rw (known, replace_known, rests)
            (replace_resting-IsSound r s o e h found known sized priced)
    ]
  ]

-- A replace leaves a sound engine sound, whatever becomes of it.
pub replace_request-IsSound :
    (r : ReplaceOrderRequest) (e : MatchingEngine)
    → IsSound e
    → IsSound (replace_request r e).engine
unfolding replace_request
replace_request-IsSound r e h = elim (Bool-cases (leb_ℤ r.new_quantity (pos 0))) [
  | inl bad ↦ rw bad (
      reject-IsSound r.client_order_id e.symbol_id Side.none r.timestamp_ns
        RejectReason.invalid_quantity e h)
  | inr sized ↦ elim (Bool-cases (leb_ℤ r.new_price_ticks (pos 0))) [
    | inl bad ↦
        rw (sized, bad)
          (reject-IsSound r.client_order_id e.symbol_id Side.none r.timestamp_ns
            RejectReason.invalid_price e h)
    | inr priced ↦
        let next = reserve_client_order_id r.client_order_id e in
        let h' = reserve-IsSound r.client_order_id e h in
        elim (Bool-cases next.1) [
          | inr used ↦
              rw (sized, priced, used)
                (reject-IsSound r.client_order_id next.0.symbol_id Side.none r.timestamp_ns
                  RejectReason.duplicate_client_order_id next.0 h')
          | inl reserved ↦
              rw (sized, priced, reserved)
                (replace_known-IsSound r next.0 h' (ground arith) (ground arith))
        ]
  ]
]
