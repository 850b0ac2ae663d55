-- ===== src/Matching/Change.antt =====
-- `cancel_order` and `replace_order` of the engine keep it sound.
use asterion.Prelude.{
  ℕ, ◌≡◌, ◌≢◌, refl, ◌∙◌, inl, inr, true, not, ◌||◌, Option, none, some, [], arith, Bool-cases,
}
use asterion.Prelude.Int.{pos}
use asterion.Prelude.Assoc.{find}
use asterion.Core.Types.{Side}
use asterion.Book.Queue.{Order, is_valid_resting_order}
use asterion.Book.Replace.{find_order_belongs}
use asterion.Book.Effects.{Sets, cancel_order-found}
use asterion.Book.{find_order, cancel_order}
use asterion.Matching.Report.{OrderStatus, ExecType, RejectReason}
use asterion.Matching.Admit.{CancelOrderRequest, is_some}
use asterion.Matching.Sound.{IsSound}
use asterion.Matching.Terms.{set_status-SameTerms, update_state-IsSound, report_state-IsSound}
use asterion.Matching.Submit.{reserve-IsSound, reject-IsSound}
use asterion.Matching.Amend.{cancel_resting, cancel_request}
use asterion.Matching.{
  MatchingEngine, Reported, update_state, update_book, set_status, reserve_client_order_id,
}

-- Taking an order off the book keeps the engine sound.
module _ (e : MatchingEngine) (h : IsSound e) (id : ℕ) (o : Order)
    (found : find_order id e.book ≡ some o) where
  pub taken : Sets id none e.book (cancel_order id e.book)
  taken = cancel_order-found id e.book h.valid o found

  abbrev pub without : MatchingEngine
  without = record e { book = (cancel_order id e.book).0 }

  before : (j : ℕ) (x : Order) → find_order j without.book ≡ some x → find_order j e.book ≡ some x
  before j x there = ground (arith, taken.lookups j)

  pub without-off_book : find_order id without.book ≡ none
  without-off_book = ground (arith, taken.lookups id)

  pub without-IsSound : IsSound without
  without-IsSound = record {
    valid = taken.valid;
    book_symbol = taken.same_symbol ∙ h.book_symbol;
    has_symbol = h.has_symbol;
    uncrossed = λ i j x y hx hy sx sy. h.uncrossed i j x y (before i x hx) (before j y hy) sx sy;
    backed = λ j x there. h.backed j x (before j x there);
    named = h.named;
    fresh = h.fresh;
    started = h.started;
  }

  pub found_nonzero : id ≢ 0
  unfolding is_valid_resting_order
  found_nonzero =
      let (same, b) = find_order_belongs id o e.book h.valid found in ground (arith, b.resting)

pub some_of : {A : Type 0} (x : Option A) → is_some x ≡ true → (a : A) × (x ≡ some a)
some_of none h = absurd (cc h)
some_of (some a) h = (a, refl)

cancel_resting-IsSound :
    (r : CancelOrderRequest) (e : MatchingEngine) (o : Order)
    → IsSound e
    → find_order r.exchange_order_id e.book ≡ some o
    → IsSound (cancel_resting r e).engine
unfolding cancel_resting update_book
cancel_resting-IsSound r e o h found =
    let id = r.exchange_order_id in
    let after : Reported = record { engine = without e h id o found; reports = [] } in
    let closed = update_state id (set_status OrderStatus.canceled) after in
    rw ((taken e h id o found).accepted) (
      report_state-IsSound id ExecType.canceled (pos 0) (pos 0) r.timestamp_ns RejectReason.none
        closed
        (update_state-IsSound id (set_status OrderStatus.canceled)
          (set_status-SameTerms OrderStatus.canceled) after (without-IsSound e h id o found)
          (without-off_book e h id o found)))

-- A cancel leaves a sound engine sound, whatever becomes of it.
pub cancel_request-IsSound :
    (r : CancelOrderRequest) (e : MatchingEngine) → IsSound e → IsSound (cancel_request r e).engine
unfolding cancel_request
cancel_request-IsSound r e h =
    let next = reserve_client_order_id r.client_order_id e in
    let h' = reserve-IsSound r.client_order_id e h in
    elim (Bool-cases next.1) [
      | inr used ↦ rw used (
          reject-IsSound r.client_order_id next.0.symbol_id Side.none r.timestamp_ns
            RejectReason.duplicate_client_order_id next.0 h')
      | inl reserved ↦
          elim (Bool-cases (
            not (is_some (find r.exchange_order_id next.0.states))
            || not (is_some (find_order r.exchange_order_id next.0.book)))) [
              | inl unknown ↦
                  rw (reserved, unknown)
                    (reject-IsSound r.client_order_id next.0.symbol_id Side.none r.timestamp_ns
                      RejectReason.unknown_order next.0 h')
              | inr known ↦
                  let (o, found) =
                    some_of (find_order r.exchange_order_id next.0.book) (ground arith) in
                  rw (reserved, known) (cancel_resting-IsSound r next.0 o h' found)
            ]
    ]
