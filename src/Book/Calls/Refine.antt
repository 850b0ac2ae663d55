-- ===== src/Book/Calls/Refine.antt =====
-- The book refines its registry: no sequence of calls tells them apart.
use asterion.Prelude.{
  ℕ, ◌≡◌, refl, sym, ap, ◌∙◌, inl, inr, ◌⊎◌, Bool, true, false, ◌&&◌, ◌||◌, none, some, List, [],
  ◌∷◌, arith, ◌==◌, if◌then◌else◌, if_true, if_false, Option-cases, Bool-cases,
}
use mathlib.Core.Path.{fun_ext}
use asterion.Prelude.Int.{ℤ, pos, leb_ℤ}
use asterion.Prelude.Assoc.{find}
use asterion.Book.Queue.{Order, is_valid_resting_order}
use asterion.Book.Valid.{IsValid, clear-IsValid}
use asterion.Book.Add.{
  symbol_id-place, Accepts, add_order_cases, add_order-IsValid, find_order-place,
}
use asterion.Book.Cancel.{
  find_order_indexed, cancel_order_cases, cancel_order-IsValid, remove-IsValid, find_order-remove,
}
use asterion.Book.Reduce.{
  symbol_id-shrunk, with_less, Reduced, refused, emptied, lessened, reduce_order_cases,
  reduce_order-IsValid, find_order-shrunk,
}
use asterion.Book.Replace.{
  symbol_id-remove, Replaced, renews, found_belongs, replace_order_cases, replace_order-IsValid,
}
use asterion.Book.{
  OrderBook, Locator, clear, add_order, cancel_order, reduce_order, replace_order, find_order,
  replacement, place, remove, deref_locator,
}
use asterion.Book.Calls.{
  Call, add, cancel, reduce, replace, reset, step, run, Registry, assign, registry_add,
  registry_step, registry_run,
}

-- Every call keeps a valid book valid, whether it is accepted or refused.
pub step-IsValid : (c : Call) (b : OrderBook) → IsValid b → IsValid (step c b).0
unfolding step
step-IsValid (add o) b v = add_order-IsValid o b v
step-IsValid (cancel id) b v = cancel_order-IsValid id b v
step-IsValid (reduce id q) b v = reduce_order-IsValid id q b v
step-IsValid (replace id price quantity t n) b v = replace_order-IsValid id price quantity t n b v
step-IsValid reset b v = clear-IsValid b

-- The registry that a book stands for.
abbrev pub registry_of : OrderBook → Registry
registry_of b id = find_order id b

abbrev pub view : OrderBook × Bool → Registry × Bool
view (b, done) = (registry_of b, done)

module _ (symbol_id : ℕ) (o : Order) (r : Registry) where
  registry_add_refused :
      (is_valid_resting_order o && (o.symbol_id == symbol_id) ≡ false)
        ⊎ ((x : Order) × (r o.order_id ≡ some x))
      → registry_add symbol_id o r ≡ (r, false)
  unfolding registry_add
  registry_add_refused (inl bad) = rw bad
  registry_add_refused (inr (x, known)) =
      elim (Bool-cases (is_valid_resting_order o && (o.symbol_id == symbol_id))) [
        | inl good ↦ rw (good, known)
        | inr bad ↦ rw bad
      ]

  registry_add_accepted :
      is_valid_resting_order o && (o.symbol_id == symbol_id) ≡ true
      → r o.order_id ≡ none
      → registry_add symbol_id o r ≡ (assign o.order_id (some o) r, true)
  unfolding registry_add
  registry_add_accepted good new = rw (good, new)

find_order_absent : (id : ℕ) (b : OrderBook) → find id b.order_index ≡ none → find_order id b ≡ none
unfolding find_order
find_order_absent id b e = rw (e, find_order)

find_order_present :
    (id : ℕ) (b : OrderBook) (loc : Locator)
    → IsValid b
    → find id b.order_index ≡ some loc
    → (x : Order) × (find_order id b ≡ some x)
unfolding find_order
find_order_present id b loc v e =
    let l = v.located id loc e in (l.order, rw (e, find_order) l.found)

-- Why `add_order` refuses.
why_refused :
    (o : Order) (b : OrderBook)
    → IsValid b
    → ¬ Accepts o b
    → (is_valid_resting_order o && (o.symbol_id == b.symbol_id) ≡ false)
      ⊎ ((x : Order) × (find_order o.order_id b ≡ some x))
why_refused o b v bad =
    elim (Bool-cases (is_valid_resting_order o && (o.symbol_id == b.symbol_id))) [
      | inr unfit ↦ inl unfit
      | inl good ↦ elim (Option-cases (find o.order_id b.order_index)) [
        | inr (loc, e) ↦ inr (find_order_present o.order_id b loc v e)
        | inl new ↦
            absurd (bad (record { resting = ground arith; symbol = ground arith; fresh = new }))
      ]
    ]

changed :
    {r s : Registry} (done : Bool)
    → ((j : ℕ) → r j ≡ s j)
    → ◌≡◌ {A = Registry × Bool} (r, done) (s, done)
changed done h = λ i. (fun_ext h i, done)

add_refines :
    (o : Order) (b : OrderBook)
    → IsValid b
    → view (add_order o b) ≡ registry_add b.symbol_id o (registry_of b)
add_refines o b v = elim (add_order_cases o b) [
  | inl (e, bad) ↦
      rw e (sym (registry_add_refused b.symbol_id o (registry_of b) (why_refused o b v bad)))
  | inr (e, a) ↦ rw e (
      changed true (find_order-place o b a v)
      ∙ sym (
          registry_add_accepted b.symbol_id o (registry_of b) (ground (arith, a.resting, a.symbol))
            (find_order_absent o.order_id b a.fresh)))
]

module _ (symbol_id : ℕ) (id : ℕ) (r : Registry) where
  cancel_unknown : r id ≡ none → registry_step symbol_id (cancel id) r ≡ (r, false)
  unfolding registry_step
  cancel_unknown e = rw (e, registry_step)

  cancel_known :
      (o : Order) → r id ≡ some o → registry_step symbol_id (cancel id) r ≡ (assign id none r, true)
  unfolding registry_step
  cancel_known o e = rw (e, registry_step)

  reduce_refused :
      (q : ℤ)
      → (leb_ℤ q (pos 0) ≡ true) ⊎ (r id ≡ none)
      → registry_step symbol_id (reduce id q) r ≡ (r, false)
  unfolding registry_step
  reduce_refused q (inl bad) = rw bad
  reduce_refused q (inr e) = elim (Bool-cases (leb_ℤ q (pos 0))) [
    | inl bad ↦ rw bad
    | inr good ↦ rw (good, e)
  ]

  reduce_known :
      (q : ℤ) (o : Order)
      → leb_ℤ q (pos 0) ≡ false
      → r id ≡ some o
      → registry_step symbol_id (reduce id q) r
        ≡ (assign id (if leb_ℤ o.quantity q then none else some (with_less o q)) r, true)
  unfolding registry_step
  reduce_known q o good e = rw (good, e)

  replace_refused :
      (price quantity t : ℤ) (n : ℕ)
      → (leb_ℤ price (pos 0) || leb_ℤ quantity (pos 0) ≡ true) ⊎ (r id ≡ none)
      → registry_step symbol_id (replace id price quantity t n) r ≡ (r, false)
  unfolding registry_step
  replace_refused price quantity t n (inl bad) = rw bad
  replace_refused price quantity t n (inr e) =
      elim (Bool-cases (leb_ℤ price (pos 0) || leb_ℤ quantity (pos 0))) [
        | inl bad ↦ rw bad
        | inr good ↦ rw (good, e)
      ]

  replace_known :
      (price quantity t : ℤ) (n : ℕ) (o : Order)
      → leb_ℤ price (pos 0) || leb_ℤ quantity (pos 0) ≡ false
      → r id ≡ some o
      → registry_step symbol_id (replace id price quantity t n) r
        ≡ (assign id (some (replacement o price quantity t n)) r, true)
  unfolding registry_step
  replace_known price quantity t n o good e = rw (good, e)

cancel_refines :
    (id : ℕ) (b : OrderBook)
    → IsValid b
    → view (cancel_order id b) ≡ registry_step b.symbol_id (cancel id) (registry_of b)
cancel_refines id b v = elim (cancel_order_cases id b v) [
  | inl (e, absent, _) ↦ rw e (sym (cancel_unknown b.symbol_id id (registry_of b) absent))
  | inr (loc, o, e, found, here, done) ↦ rw done (
      changed true (find_order-remove id loc o b v e found)
      ∙ sym (cancel_known b.symbol_id id (registry_of b) o here))
]

reduce_refines :
    (id : ℕ) (q : ℤ) (b : OrderBook)
    → IsValid b
    → view (reduce_order id q b) ≡ registry_step b.symbol_id (reduce id q) (registry_of b)
reduce_refines id q b v = go (reduce_order_cases id q b v)
  where
    go :
        Reduced id q b
        → view (reduce_order id q b) ≡ registry_step b.symbol_id (reduce id q) (registry_of b)
    go (refused why e) = rw e (sym (reduce_refused b.symbol_id id (registry_of b) q why))
    go (emptied loc o good e found all done) = rw done (
        changed true (find_order-remove id loc o b v e found)
        ∙ ap (λ x. (assign id x (registry_of b), true))
            (sym (if_true none (some (with_less o q)) all))
        ∙ sym (
            reduce_known b.symbol_id id (registry_of b) q o good
              (find_order_indexed id loc b e ∙ found)))
    go (lessened loc o good e found part done) = rw done (
        changed true (find_order-shrunk id loc o q b v e found part)
        ∙ ap (λ x. (assign id x (registry_of b), true))
            (sym (if_false none (some (with_less o q)) part))
        ∙ sym (
            reduce_known b.symbol_id id (registry_of b) q o good
              (find_order_indexed id loc b e ∙ found)))

replaced_lookup :
    (id : ℕ) (price quantity t : ℤ) (n : ℕ) (b : OrderBook) (v : IsValid b) (loc : Locator)
    (o : Order) (e : find id b.order_index ≡ some loc) (found : deref_locator loc b ≡ some o)
    → Accepts (replacement o price quantity t n) (remove id loc o b)
    → (j : ℕ)
    → find_order j (place (replacement o price quantity t n) (remove id loc o b))
      ≡ (if id == j then some (replacement o price quantity t n) else find_order j b)
replaced_lookup id price quantity t n b v loc o e found a j = ground (
  arith,
  find_order-place (replacement o price quantity t n) (remove id loc o b) a
      (remove-IsValid id loc o b v e found) j,
  find_order-remove id loc o b v e found j,
  (found_belongs id loc o b v e found).0,
)

replace_refines :
    (id : ℕ) (price quantity t : ℤ) (n : ℕ) (b : OrderBook)
    → IsValid b
    → view (replace_order id price quantity t n b)
      ≡ registry_step b.symbol_id (replace id price quantity t n) (registry_of b)
replace_refines id price quantity t n b v = go (replace_order_cases id price quantity t n b v)
  where
    go :
        Replaced id price quantity t n b v
        → view (replace_order id price quantity t n b)
          ≡ registry_step b.symbol_id (replace id price quantity t n) (registry_of b)
    go (Replaced.refused why e) =
        rw e (sym (replace_refused b.symbol_id id (registry_of b) price quantity t n why))
    go (renews loc o good here e found a done) = rw done (
        changed true (replaced_lookup id price quantity t n b v loc o e found a)
        ∙ sym (replace_known b.symbol_id id (registry_of b) price quantity t n o good here))

reset_refines :
    (b : OrderBook) → view (clear b, true) ≡ registry_step b.symbol_id reset (registry_of b)
unfolding registry_step clear find_order find
reset_refines b = changed true (λ j. refl)

-- One call on a valid book returns what the registry returns, and leaves its registry.
pub step_refines :
    (c : Call) (b : OrderBook)
    → IsValid b
    → view (step c b) ≡ registry_step b.symbol_id c (registry_of b)
unfolding step
step_refines (add o) b v = unfold registry_step in add_refines o b v
step_refines (cancel id) b v = cancel_refines id b v
step_refines (reduce id q) b v = reduce_refines id q b v
step_refines (replace id price quantity t n) b v = replace_refines id price quantity t n b v
step_refines reset b v = reset_refines b

symbol_id-step : (c : Call) (b : OrderBook) → IsValid b → (step c b).0.symbol_id ≡ b.symbol_id
unfolding step
symbol_id-step (add o) b v = elim (add_order_cases o b) [
  | inl (e, _) ↦ rw e
  | inr (e, _) ↦ rw e (symbol_id-place o b)
]
symbol_id-step (cancel id) b v = elim (cancel_order_cases id b v) [
  | inl (e, _, _) ↦ rw e
  | inr (loc, o, _, _, _, done) ↦ rw done (symbol_id-remove id loc o b)
]
symbol_id-step (reduce id q) b v = go (reduce_order_cases id q b v)
  where
    go : Reduced id q b → (reduce_order id q b).0.symbol_id ≡ b.symbol_id
    go (refused _ done) = rw done
    go (emptied loc o _ _ _ _ done) = rw done (symbol_id-remove id loc o b)
    go (lessened loc o _ _ _ _ done) = rw done (symbol_id-shrunk loc q b)
symbol_id-step (replace id price quantity t n) b v =
    go (replace_order_cases id price quantity t n b v)
  where
    go :
        Replaced id price quantity t n b v
        → (replace_order id price quantity t n b).0.symbol_id ≡ b.symbol_id
    go (Replaced.refused _ done) = rw done
    go (renews loc o _ _ _ _ _ done) = rw done (
        symbol_id-place (replacement o price quantity t n) (remove id loc o b)
        ∙ symbol_id-remove id loc o b)
symbol_id-step reset b v = unfold clear in refl

abbrev pub view_run : OrderBook × List Bool → Registry × List Bool
view_run (b, done) = (registry_of b, done)

-- Any sequence of calls on a valid book returns what the registry of its orders returns, call by
-- call, and ends with its lookups; the book stays valid.
pub run_refines :
    (cs : List Call) (b : OrderBook)
    → IsValid b
    → (view_run (run cs b) ≡ registry_run b.symbol_id cs (registry_of b)) × IsValid (run cs b).0
unfolding run registry_run
run_refines [] b v = (refl, v)
run_refines (c ∷ cs) b v =
    let (same, valid) = run_refines cs (step c b).0 (step-IsValid c b v) in
    (
      rw (← step_refines c b v) (
          ap (λ (x : Registry × List Bool). (x.0, (step c b).1 ∷ x.1))
            (same ∙ ap (λ s. registry_run s cs (registry_of (step c b).0)) (symbol_id-step c b v))),
      valid,
    )
