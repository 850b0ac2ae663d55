-- ===== src/Book/Calls.antt =====
-- The book's methods as calls, and the plain registry of orders that they promise to keep: what
-- each id looks up, with no levels, no iterators and no index.
pub mod Refine
use asterion.Prelude.{
  ℕ, ◌≡◌, Bool, true, false, not, ◌&&◌, ◌||◌, Option, none, some, List, [], ◌∷◌, ◌==◌,
  if◌then◌else◌,
}
use asterion.Prelude.Int.{ℤ, pos, ◌-ℤ◌, leb_ℤ}
use asterion.Book.Queue.{Order, is_valid_resting_order}
use asterion.Book.{
  OrderBook, clear, add_order, cancel_order, reduce_order, replace_order, replacement,
}
use asterion.Book.Reduce.{with_less}

pub data Call : Type 0 where
  add : Order → Call
  cancel : ℕ → Call
  reduce : ℕ → ℤ → Call
  replace : ℕ → ℤ → ℤ → ℤ → ℕ → Call
  reset : Call

unfoldable pub step : Call → OrderBook → OrderBook × Bool
step (add o) b = add_order o b
step (cancel id) b = cancel_order id b
step (reduce id q) b = reduce_order id q b
step (replace id price quantity t n) b = replace_order id price quantity t n b
step reset b = (clear b, true)

-- The final book and the results of the calls, in order.
unfoldable pub run : List Call → OrderBook → OrderBook × List Bool
run [] b = (b, [])
run (c ∷ cs) b = let (b', done) = step c b in let (b'', rest) = run cs b' in (b'', done ∷ rest)

abbrev pub Registry : Type 0
Registry = ℕ → Option Order

abbrev pub assign : ℕ → Option Order → Registry → Registry
assign id o r j = if id == j then o else r j

-- The registry of the book of one symbol.
module _ (symbol_id : ℕ) where
  unfoldable pub registry_add : Order → Registry → Registry × Bool
  registry_add o r =
      if is_valid_resting_order o && (o.symbol_id == symbol_id)
      then elim (r o.order_id) [ some _ ↦ (r, false) | none ↦ (assign o.order_id (some o) r, true) ]
      else (r, false)

  unfoldable pub registry_step : Call → Registry → Registry × Bool
  unfolding registry_add
  registry_step (add o) r = registry_add o r
  registry_step (cancel id) r = elim (r id) [
    | none ↦ (r, false)
    | some _ ↦ (assign id none r, true)
  ]
  registry_step (reduce id q) r = if leb_ℤ q (pos 0) then (r, false) else elim (r id) [
    | none ↦ (r, false)
    | some o ↦ (assign id (if leb_ℤ o.quantity q then none else some (with_less o q)) r, true)
  ]
  registry_step (replace id price quantity t n) r =
      if leb_ℤ price (pos 0) || leb_ℤ quantity (pos 0) then (r, false) else elim (r id) [
        | none ↦ (r, false)
        | some o ↦ (assign id (some (replacement o price quantity t n)) r, true)
      ]
  registry_step reset r = (λ _. none, true)

  unfoldable pub registry_run : List Call → Registry → Registry × List Bool
  registry_run [] r = (r, [])
  registry_run (c ∷ cs) r =
      let (r', done) = registry_step c r in
      let (r'', rest) = registry_run cs r' in (r'', done ∷ rest)
