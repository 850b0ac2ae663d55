-- ===== src/Matching/Register.antt =====
-- How `submit_order` gives an order its exchange order id, and runs the loop on it.
use asterion.Prelude.{
  ℕ, ◌+◌, ◌^◌, ◌<◌, ◌≡◌, ◌≢◌, refl, subst, inl, inr, none, some, [], arith, ◌==◌, if◌then◌else◌,
  Option-cases, Bool-cases, ==-eq,
}
use asterion.Prelude.Int.{pos, int_laws}
use asterion.Prelude.Assoc.{find, emplace, find-emplace}
use asterion.Book.Queue.{Order}
use asterion.Book.{find_order}
use asterion.Matching.Report.{ExecType, RejectReason}
use asterion.Matching.State.{OrderState}
use asterion.Matching.Admit.{NewOrderRequest}
use asterion.Matching.Sound.{IsSound, Named, Backs}
use asterion.Matching.Trade.{Incoming}
use asterion.Matching.Rounds.{Ended, match_against_book-Ended}
use asterion.Matching.Terms.{WellFormed, report_state-IsSound, report_state-Incoming}
use asterion.Matching.Loop.{Round, match_against_book}
use asterion.Matching.Handlers.{register, state_of}
use asterion.Matching.{MatchingEngine, Reported, report_state}

-- The exchange order ids are not used up: the counter does not wrap.
abbrev pub HasNextId : MatchingEngine → Type 0
HasNextId e = e.next_exchange_order_id + 1 < 2 ^ 64

module _ (r : NewOrderRequest) (e : MatchingEngine) (h : IsSound e) (ids : HasNextId e)
    (w : WellFormed r e) where
  abbrev pub id : ℕ
  id = e.next_exchange_order_id

  absent : find id e.states ≡ none
  absent = h.fresh id (omega arith)

  off_book : find_order id e.book ≡ none
  off_book = elim (Option-cases (find_order id e.book)) [
    | inl o ↦ o
    | inr (o, there) ↦ absurd (cc ((h.backed id o there).found, absent))
  ]

  registered :
      (j : ℕ)
      → find j (emplace id (state_of r id) e.states)
        ≡ (if id == j then some (state_of r id) else find j e.states)
  registered j = find-emplace id j (state_of r id) e.states absent

  registered-Backs :
      (j : ℕ) (o : Order)
      → find_order j e.book ≡ some o
      → Backs j o (emplace id (state_of r id) e.states)
  registered-Backs j o there =
      let b = h.backed j o there in
      let ne : id ≢ j = λ same. absurd (cc (there, off_book, same)) in
      record {
        state = b.state;
        found = ground (arith, registered j, b.found);
        same_side = b.same_side;
        same_price = b.same_price;
        is_limit_order = b.is_limit_order;
        unfilled = b.unfilled;
      }

  registered-Named :
      (j : ℕ) (s : OrderState)
      → find j (emplace id (state_of r id) e.states) ≡ some s
      → Named e.symbol_id j s
  registered-Named j s there = elim (Bool-cases (id == j)) [
    | inr ne ↦ h.named j s (ground (arith, registered j))
    | inl eq ↦
        let same : state_of r id ≡ s = ground (arith, registered j) in
        subst (Named e.symbol_id j) same
          (record { same_id = ==-eq _ _ eq; same_symbol = w.symbol; valid_side = w.valid_side })
  ]

  pub register-IsSound : IsSound (register r e)
  unfolding register
  register-IsSound = record {
    valid = h.valid;
    book_symbol = h.book_symbol;
    has_symbol = h.has_symbol;
    uncrossed = h.uncrossed;
    backed = registered-Backs;
    named = registered-Named;
    fresh = λ j high. ground (arith, registered j, h.fresh j);
    started = ground (arith, h.started);
  }

  pub register-Incoming : Incoming id r.side r.order_type r.price_ticks r.quantity (register r e)
  unfolding register
  register-Incoming = record {
    off_book = off_book;
    state = state_of r id;
    found = ground (arith, registered id);
    same_side = refl;
    same_type = refl;
    same_limit = refl;
    unfilled = omega int_laws;
    nonnegative = ground (arith, w.some_quantity);
  }

  abbrev pub announced : Reported
  announced =
      report_state id ExecType.new (pos 0) (pos 0) r.timestamp_ns RejectReason.none
        (record { engine = register r e; reports = [] })

  abbrev pub looped : Round
  looped = match_against_book id r.timestamp_ns announced r.quantity

  pub looped-Ended : Ended id r.side r.order_type r.price_ticks r.timestamp_ns looped
  looped-Ended =
      match_against_book-Ended id r.side r.order_type r.price_ticks r.timestamp_ns announced
        r.quantity
        (
          report_state-IsSound id ExecType.new (pos 0) (pos 0) r.timestamp_ns RejectReason.none
              (record { engine = register r e; reports = [] }) register-IsSound,
          report_state-Incoming id ExecType.new (pos 0) (pos 0) r.timestamp_ns RejectReason.none
              (record { engine = register r e; reports = [] }) id r.side r.order_type r.price_ticks
              r.quantity register-Incoming,
        )
