-- ===== src/Book/Effects.antt =====
-- What the book's calls do to its lookups, for the callers of the book.
use asterion.Prelude.{
  ℕ, ◌<◌, ◌≤◌, ◌≡◌, refl, ap, subst, inl, inr, Bool, true, false, Option, none, some, List, [], ◌∷◌,
  arith, ◌==◌, if◌then◌else◌, Option-cases, length,
}
use asterion.Prelude.Int.{ℤ, pos, leb_ℤ}
use asterion.Prelude.Assoc.{find, erase}
use asterion.Book.Queue.{Order, is_valid_resting_order}
use asterion.Book.Valid.{IsValid}
use asterion.Book.Add.{add_order_cases, place-IsValid, find_order-place, symbol_id-place}
use asterion.Book.Cancel.{
  cancel_order_cases, remove-IsValid, find_order-remove, find_order_indexed, order_index-remove,
}
use asterion.Book.Reduce.{
  Reduced, refused, emptied, lessened, reduce_order_cases, shrunk-IsValid, find_order-shrunk,
  with_less, symbol_id-shrunk,
}
use asterion.Book.Replace.{symbol_id-remove}
use asterion.Book.{
  OrderBook, Locator, find_order, add_order, cancel_order, reduce_order, remove, order_count,
  deref_locator,
}

-- The book `c`, which a call returned with `done`, in terms of the book `b` before it: the order `x`
-- under `id`, and nothing else, is now `after`.
pub record Sets (id : ℕ) (after : Option Order) (b : OrderBook) (c : OrderBook × Bool)
    : Type 0 where
  pub accepted : c.1 ≡ true
  pub valid : IsValid c.0
  pub same_symbol : c.0.symbol_id ≡ b.symbol_id
  pub lookups : (j : ℕ) → find_order j c.0 ≡ (if id == j then after else find_order j b)

erase_shorter : {V : Type 0} (k : ℕ) (m : List (ℕ × V)) → length (erase k m) ≤ length m
unfolding erase
erase_shorter k [] = omega arith
erase_shorter k ((j, w) ∷ m) = ground (arith, erase_shorter k m)

erase_found :
    {V : Type 0} (k : ℕ) (m : List (ℕ × V)) {w : V}
    → find k m ≡ some w
    → length (erase k m) < length m
unfolding erase find
erase_found k [] e = cc
erase_found k ((j, w) ∷ m) {w = u} e = ground (arith, erase_shorter k m, erase_found k m {w = u})

unindexed :
    (id : ℕ) (b : OrderBook) → IsValid b → find_order id b ≡ none → find id b.order_index ≡ none
unindexed id b v absent = elim (Option-cases (find id b.order_index)) [
  | inl e ↦ e
  | inr (loc, e) ↦
      absurd (ground (arith, absent, find_order_indexed id loc b e, (v.located id loc e).found))
]

length_found : {V : Type 0} (k : ℕ) (m : List (ℕ × V)) {w : V} → find k m ≡ some w → 1 ≤ length m
unfolding find
length_found k [] e = cc
length_found k ((j, w) ∷ m) e = omega arith

-- A book that finds an order has one.
pub order_count-found :
    (id : ℕ) (o : Order) (b : OrderBook) → find_order id b ≡ some o → 1 ≤ order_count b
unfolding order_count find_order
order_count-found id o b h = elim (Option-cases (find id b.order_index)) [
  | inl e ↦ absurd (ground (arith, e))
  | inr (loc, e) ↦ length_found id b.order_index e
]

module _ (id : ℕ) (b : OrderBook) (v : IsValid b) (o : Order)
    (found : find_order id b ≡ some o) where
  same_order :
      (loc : Locator) (x : Order)
      → find id b.order_index ≡ some loc
      → deref_locator loc b ≡ some x
      → x ≡ o
  same_order loc x e there = ground (arith, find_order_indexed id loc b e, there, found)

  order_count-remove :
      (loc : Locator) (x : Order)
      → find id b.order_index ≡ some loc
      → order_count (remove id loc x b) < order_count b
  unfolding order_count
  order_count-remove loc x e =
      ground (arith, order_index-remove id loc x b, erase_found id b.order_index e)

  -- Cancelling an order that is found takes exactly it away.
  pub cancel_order-found : Sets id none b (cancel_order id b)
  cancel_order-found = elim (cancel_order_cases id b v) [
    | inl (_, absent, _) ↦ absurd (cc (absent, found))
    | inr (loc, x, e, there, here, done) ↦ rw done (record {
      accepted = refl;
      valid = remove-IsValid id loc x b v e there;
      same_symbol = symbol_id-remove id loc x b;
      lookups = find_order-remove id loc x b v e there;
    })
  ]

  -- Reducing an order that is found by a positive quantity lowers its quantity, or takes it away where
  -- that is all of it; the book then has an order less.
  pub record Reduces (q : ℤ) (c : OrderBook × Bool) : Type 0 where
    pub sets : Sets id (if leb_ℤ o.quantity q then none else some (with_less o q)) b c
    pub fewer : leb_ℤ o.quantity q ≡ true → order_count c.0 < order_count b

  pub reduce_order-found : (q : ℤ) → leb_ℤ q (pos 0) ≡ false → Reduces q (reduce_order id q b)
  reduce_order-found q positive = go (reduce_order_cases id q b v)
    where
      go : Reduced id q b → Reduces q (reduce_order id q b)
      go (refused (inl bad) _) = absurd (cc (bad, positive))
      go (refused (inr absent) _) = absurd (cc (absent, found))
      go (emptied loc x _ e there all done) =
          let same : x ≡ o = same_order loc x e there in
          let all' = subst (λ (y : Order). leb_ℤ y.quantity q ≡ true) same all in
          rw done (record {
            sets = record {
              accepted = refl;
              valid = remove-IsValid id loc x b v e there;
              same_symbol = symbol_id-remove id loc x b;
              lookups = λ j. ground (arith, find_order-remove id loc x b v e there j);
            };
            fewer = λ _. order_count-remove loc x e;
          })
      go (lessened loc x _ e there part done) =
          let same : x ≡ o = same_order loc x e there in
          let part' = subst (λ (y : Order). leb_ℤ y.quantity q ≡ false) same part in
          rw done (record {
            sets = record {
              accepted = refl;
              valid = shrunk-IsValid id loc x q b v e there part;
              same_symbol = symbol_id-shrunk loc q b;
              lookups = λ j. ground (
                arith,
                ap (λ y. with_less y q) same,
                find_order-shrunk id loc x q b v e there part j,
              );
            };
            fewer = λ all. absurd (cc (all, part'));
          })

-- An order that is valid, of the book's symbol and new is added under its id.
pub add_order-new :
    (o : Order) (b : OrderBook)
    → IsValid b
    → is_valid_resting_order o ≡ true
    → o.symbol_id ≡ b.symbol_id
    → find_order o.order_id b ≡ none
    → Sets o.order_id (some o) b (add_order o b)
add_order-new o b v resting symbol absent = elim (add_order_cases o b) [
  | inl (_, bad) ↦
      absurd (
        bad
          (record { resting = resting; symbol = symbol; fresh = unindexed o.order_id b v absent }))
  | inr (done, a) ↦ rw done (record {
    accepted = refl;
    valid = place-IsValid o b a v;
    same_symbol = symbol_id-place o b;
    lookups = find_order-place o b a v;
  })
]
