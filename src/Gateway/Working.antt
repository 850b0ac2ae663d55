-- ===== src/Gateway/Working.antt =====
-- The working orders of the gateway: what rests, by order, by symbol and by client and price.
use asterion.Prelude.{
  ℕ, ◌==◌, Bool, true, false, not, ◌&&◌, ◌||◌, Option, none, some, List, [], ◌∷◌, if◌then◌else◌,
  is_empty,
}
use asterion.Prelude.Int.{ℤ, pos, ◌+ℤ◌, ◌-ℤ◌, leb_ℤ, min_ℤ}
use asterion.Prelude.Assoc.{find, put, erase, modify}
use asterion.Core.Types.{Side, buy, sell}
use asterion.Book.PriceMap.{bid_before, ask_before}
use asterion.Matching.Report.{OrderType, limit, TimeInForce, gtc}
use asterion.Matching.Admit.{NewOrderRequest}
use asterion.Gateway.{
  RiskGateway, WorkingOrder, ClientWorkingBook, client_symbol_key, value_or_zero,
}

-- A price map of one side: `qty_by_price[price] += q`, and the release of a quantity.
module _ (before : ℤ → ℤ → Bool) where
  unfoldable pub add_at : ℤ → ℤ → List (ℤ × ℤ) → List (ℤ × ℤ)
  add_at p q [] = (p, q) ∷ []
  add_at p q ((k, v) ∷ m) =
      let rest = add_at p q m in
      if before p k
      then (p, q) ∷ (k, v) ∷ m
      else if before k p
      then (k, v) ∷ rest
      else (k, v +ℤ q) ∷ m

  unfoldable pub release_at : ℤ → ℤ → List (ℤ × ℤ) → List (ℤ × ℤ)
  release_at p q [] = []
  release_at p q ((k, v) ∷ m) =
      let rest = release_at p q m in
      if before p k
      then (k, v) ∷ m
      else if before k p
      then (k, v) ∷ rest
      else if leb_ℤ (v -ℤ q) (pos 0)
      then m
      else (k, v -ℤ q) ∷ m

abbrev pub empty_book : ClientWorkingBook
empty_book = record { buy_qty_by_price = []; sell_qty_by_price = [] }

abbrev pub book_or_new : Option ClientWorkingBook → ClientWorkingBook
book_or_new none = empty_book
book_or_new (some b) = b

unfoldable pub book_add : Side → ℤ → ℤ → ClientWorkingBook → ClientWorkingBook
unfolding add_at
book_add buy p q b = record b { buy_qty_by_price = add_at bid_before p q b.buy_qty_by_price }
book_add sell p q b = record b { sell_qty_by_price = add_at ask_before p q b.sell_qty_by_price }
book_add Side.none p q b = b

unfoldable pub book_release : Side → ℤ → ℤ → ClientWorkingBook → ClientWorkingBook
unfolding release_at
book_release buy p q b = record b {
  buy_qty_by_price = release_at bid_before p q b.buy_qty_by_price;
}
book_release sell p q b = record b {
  sell_qty_by_price = release_at ask_before p q b.sell_qty_by_price;
}
book_release Side.none p q b = b

abbrev pub book_key : WorkingOrder → ℕ
book_key o = client_symbol_key o.client_id o.symbol_id

unfoldable pub add_working_order_quantity : WorkingOrder → ℤ → RiskGateway → RiskGateway
unfolding book_add
add_working_order_quantity o q g = if leb_ℤ q (pos 0) then g else record g {
  working_quantities =
      put o.symbol_id (value_or_zero (find o.symbol_id g.working_quantities) +ℤ q)
        g.working_quantities;
  client_books =
      if g.limits.enable_self_trade_prevention
      then put (book_key o)
          (book_add o.side o.price_ticks q (book_or_new (find (book_key o) g.client_books)))
          g.client_books
      else g.client_books;
}

-- The entry of a symbol after a quantity is taken off: dropped when nothing is left.
unfoldable pub lower_quantity : ℕ → ℤ → List (ℕ × ℤ) → List (ℕ × ℤ)
lower_quantity symbol_id q m = elim (find symbol_id m) [
  | none ↦ m
  | some v ↦ if leb_ℤ (v -ℤ q) (pos 0) then erase symbol_id m else put symbol_id (v -ℤ q) m
]

unfoldable pub release_from_books :
    WorkingOrder → ℤ → List (ℕ × ClientWorkingBook) → List (ℕ × ClientWorkingBook)
unfolding book_release
release_from_books o q books = elim (find (book_key o) books) [
  | none ↦ books
  | some b ↦
      let b' = book_release o.side o.price_ticks q b in
      if is_empty b'.buy_qty_by_price && is_empty b'.sell_qty_by_price
      then erase (book_key o) books
      else put (book_key o) b' books
]

unfoldable pub release_working_order_quantity : WorkingOrder → ℤ → RiskGateway → RiskGateway
unfolding lower_quantity release_from_books
release_working_order_quantity o release_quantity g =
    if leb_ℤ release_quantity (pos 0) || leb_ℤ o.quantity (pos 0)
    then g
    else let quantity = min_ℤ release_quantity o.quantity in
      record g {
        working_quantities = lower_quantity o.symbol_id quantity g.working_quantities;
        client_books = release_from_books o quantity g.client_books;
      }

abbrev pub is_limit : OrderType → Bool
is_limit limit = true
is_limit _ = false

abbrev pub is_gtc : TimeInForce → Bool
is_gtc gtc = true
is_gtc _ = false

unfoldable pub register_working_order : NewOrderRequest → RiskGateway → RiskGateway
register_working_order r g =
    let o : WorkingOrder = record {
      client_id = r.client_id;
      symbol_id = r.symbol_id;
      side = r.side;
      price_ticks = r.price_ticks;
      quantity = r.quantity;
      exchange_order_id = 0;
    } in
    if not (is_limit r.order_type) || not (is_gtc r.time_in_force)
    then g
    else add_working_order_quantity o o.quantity
        (record g { working_orders = put r.client_order_id o g.working_orders })

unfoldable pub release_order : ℕ → RiskGateway → RiskGateway
release_order client_order_id g = elim (find client_order_id g.working_orders) [
  | none ↦ g
  | some o ↦
      let g' = release_working_order_quantity o o.quantity g in
      record g' {
        exchange_to_client_order_ids =
            if o.exchange_order_id == 0
            then g'.exchange_to_client_order_ids
            else erase o.exchange_order_id g'.exchange_to_client_order_ids;
        working_orders = erase client_order_id g'.working_orders;
      }
]

abbrev pub with_exchange_id : ℕ → WorkingOrder → WorkingOrder
with_exchange_id id o = record o { exchange_order_id = id }

-- `order` is the working order of `client_order_id`.
unfoldable pub bind_exchange_order_id : WorkingOrder → ℕ → ℕ → RiskGateway → RiskGateway
bind_exchange_order_id order client_order_id exchange_order_id g =
    if (exchange_order_id == 0) || (order.exchange_order_id == exchange_order_id)
    then g
    else let ids =
        if order.exchange_order_id == 0
        then g.exchange_to_client_order_ids
        else erase order.exchange_order_id g.exchange_to_client_order_ids in
      record g {
        working_orders =
            modify client_order_id (with_exchange_id exchange_order_id) g.working_orders;
        exchange_to_client_order_ids = put exchange_order_id client_order_id ids;
      }

-- The writes of a changed price and quantity to a working order.
abbrev pub with_terms : ℤ → ℤ → WorkingOrder → WorkingOrder
with_terms price quantity o = record o { price_ticks = price; quantity = quantity }

-- Release of the old terms, and addition of the new ones.
unfoldable pub change_terms : ℕ → WorkingOrder → ℤ → ℤ → RiskGateway → RiskGateway
change_terms key o price quantity g =
    let released = release_working_order_quantity o o.quantity g in
    add_working_order_quantity (with_terms price quantity o) quantity (record released {
      working_orders = modify key (with_terms price quantity) released.working_orders;
    })
