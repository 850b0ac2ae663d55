-- ===== src/Book/Replace.antt =====
-- `replace_order`: a cancel and an add under the same id, so the order loses its time priority.
use asterion.Prelude.{
  ℕ, ◌≡◌, refl, sym, subst, ◌⊎◌, inl, inr, Bool, true, false, ◌||◌, none, some, arith, Bool-cases,
  ◌∙◌,
}
use asterion.Prelude.Int.{ℤ, pos, leb_ℤ}
use asterion.Prelude.Assoc.{find, find-erase}
use asterion.Book.Queue.{Order, is_valid_resting_order}
use asterion.Book.Queue.Laws.{All_of_deref, order_id_of_deref}
use asterion.Book.Valid.{BelongsAt, IsValid}
use asterion.Book.Valid.Update.{level_or_new-ok, symbol_id-update_level, symbol_id-erase_level}
use asterion.Book.Reads.{queue_at}
use asterion.Book.Add.{Accepts, add_order_cases, place-IsValid}
use asterion.Book.Cancel.{in_queue, cancel_order_cases, remove-IsValid, order_index-remove}
use asterion.Book.{
  OrderBook, Locator, unlink, replacement, place, remove, add_order, replace_order, deref_locator,
  find_order,
}

-- An order that a valid book finds has the id it was looked up by, and belongs where it stands.
pub found_belongs :
    (id : ℕ) (loc : Locator) (o : Order) (b : OrderBook)
    → IsValid b
    → find id b.order_index ≡ some loc
    → deref_locator loc b ≡ some o
    → (o.order_id ≡ id) × BelongsAt b.symbol_id loc.side loc.price_ticks o
unfolding queue_at
found_belongs id loc o b v e found =
    let here = in_queue id loc o b v e found in
    let side = (v.located id loc e).valid_side in
    (
      order_id_of_deref id (queue_at loc.side loc.price_ticks b) here,
      All_of_deref _ id (queue_at loc.side loc.price_ticks b)
          (level_or_new-ok loc.side loc.price_ticks b side v.levels).1 here,
    )

pub find_order_belongs :
    (id : ℕ) (o : Order) (b : OrderBook)
    → IsValid b
    → find_order id b ≡ some o
    → (o.order_id ≡ id) × BelongsAt b.symbol_id o.side o.price_ticks o
find_order_belongs id o b v h = elim (cancel_order_cases id b v) [
  | inl (_, absent, _) ↦ absurd (cc (absent, h))
  | inr (loc, x, e, found, here, _) ↦
      let same : x ≡ o = ground (arith, h, here) in
      let (named, belongs) = found_belongs id loc x b v e found in
      subst (λ (y : Order). (y.order_id ≡ id) × BelongsAt b.symbol_id y.side y.price_ticks y) same
        (
          named,
          record {
            resting = belongs.resting;
            symbol = belongs.symbol;
            on_side = refl;
            at_price = refl;
          },
        )
]

replacement_rests :
    (o : Order) (price quantity timestamp_ns : ℤ) (sequence_number : ℕ)
    → is_valid_resting_order o ≡ true
    → leb_ℤ price (pos 0) ≡ false
    → leb_ℤ quantity (pos 0) ≡ false
    → is_valid_resting_order (replacement o price quantity timestamp_ns sequence_number) ≡ true
unfolding is_valid_resting_order
replacement_rests o price quantity t n h p q = ground arith

pub symbol_id-remove :
    (id : ℕ) (loc : Locator) (o : Order) (b : OrderBook)
    → (remove id loc o b).symbol_id ≡ b.symbol_id
unfolding remove
symbol_id-remove id loc o b =
    symbol_id-erase_level loc.side loc.price_ticks _
    ∙ symbol_id-update_level loc.side loc.price_ticks (unlink o loc.iterator) b

add_order_accepted : (o : Order) (b : OrderBook) → Accepts o b → add_order o b ≡ (place o b, true)
add_order_accepted o b a = elim (add_order_cases o b) [
  | inl (_, not) ↦ absurd (not a)
  | inr (done, _) ↦ done
]

module _ (id : ℕ) (price quantity timestamp_ns : ℤ) (sequence_number : ℕ) (b : OrderBook)
    (v : IsValid b) where
  abbrev renewed : Order → Order
  renewed o = replacement o price quantity timestamp_ns sequence_number

  abbrev outcome : OrderBook × Bool
  outcome = replace_order id price quantity timestamp_ns sequence_number b

  -- A refused `replace_order` changes nothing; one that is accepted is a removal and then an
  -- accepted add under the same id.
  pub data Replaced : Type 0 where
    refused :
        (leb_ℤ price (pos 0) || leb_ℤ quantity (pos 0) ≡ true) ⊎ (find_order id b ≡ none)
        → outcome ≡ (b, false)
        → Replaced
    renews :
        (loc : Locator) (o : Order)
        → leb_ℤ price (pos 0) || leb_ℤ quantity (pos 0) ≡ false
        → find_order id b ≡ some o
        → find id b.order_index ≡ some loc
        → deref_locator loc b ≡ some o
        → Accepts (renewed o) (remove id loc o b)
        → outcome ≡ (place (renewed o) (remove id loc o b), true)
        → Replaced

  renewed_accepted :
      leb_ℤ price (pos 0) || leb_ℤ quantity (pos 0) ≡ false
      → (loc : Locator) (o : Order) → find id b.order_index ≡ some loc
      → deref_locator loc b ≡ some o
      → Accepts (renewed o) (remove id loc o b)
  renewed_accepted good loc o e found =
      let (named, belongs) = found_belongs id loc o b v e found in
      record {
        resting =
            replacement_rests o price quantity timestamp_ns sequence_number belongs.resting
              (ground arith) (ground arith);
        symbol = belongs.symbol ∙ sym (symbol_id-remove id loc o b);
        fresh =
            ground (arith, order_index-remove id loc o b, find-erase id o.order_id b.order_index);
      }

  pub replace_order_cases : Replaced
  unfolding replace_order
  replace_order_cases = elim (Bool-cases (leb_ℤ price (pos 0) || leb_ℤ quantity (pos 0))) [
    | inl bad ↦ refused (inl bad) (ground arith)
    | inr good ↦ elim (cancel_order_cases id b v) [
      | inl (_, absent, _) ↦ refused (inr absent) (ground arith)
      | inr (loc, o, e, found, here, done) ↦
          let accepted = renewed_accepted good loc o e found in
          renews loc o good here e found accepted
            (ground (arith, add_order_accepted (renewed o) (remove id loc o b) accepted))
    ]
  ]

-- `replace_order` keeps the book valid, whatever it is given.
pub replace_order-IsValid :
    (id : ℕ) (price quantity timestamp_ns : ℤ) (sequence_number : ℕ) (b : OrderBook)
    → IsValid b
    → IsValid (replace_order id price quantity timestamp_ns sequence_number b).0
replace_order-IsValid id price quantity timestamp_ns n b v =
    kept (replace_order_cases id price quantity timestamp_ns n b v)
  where
    kept :
        Replaced id price quantity timestamp_ns n b v
        → IsValid (replace_order id price quantity timestamp_ns n b).0
    kept (refused _ done) = rw done v
    kept (renews loc o _ _ e found a done) = rw done (
        place-IsValid (replacement o price quantity timestamp_ns n) (remove id loc o b) a
          (remove-IsValid id loc o b v e found))
