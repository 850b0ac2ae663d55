-- ===== src/Gateway/Exposure/Tracked.antt =====
-- The invariant of the working orders, and the writes to them.
use asterion.Prelude.{
  ℕ, ◌==◌, ◌≡◌, ◌∙◌, sym, ap, inl, inr, refl, true, ◌||◌, some, Bool-cases, Option-cases, arith,
}
use asterion.Prelude.Int.{ℤ, pos, ◌+ℤ◌, ◌-ℤ◌, ◌≤ℤ◌, ◌<ℤ◌, leb_ℤ, int_laws}
use asterion.Prelude.Assoc.{
  find, modify, find-erase, find-modify, IsUnique, AllValues, erase-IsUnique, modify-IsUnique,
  AllValues-erase, AllValues-modify, AllValues-find,
}
use asterion.Gateway.ClientOrderIds.{contains}
use asterion.Gateway.ClientOrderIds.Members.{IsHashed}
use asterion.Gateway.{RiskGateway, WorkingOrder, working_quantity}
use asterion.Gateway.Working.{
  add_working_order_quantity, release_working_order_quantity, release_order, bind_exchange_order_id,
  with_exchange_id, change_terms, with_terms,
}
use asterion.Gateway.Exposure.Open.{
  share_of, open_quantity, IsPositive, open_quantity-erase, open_quantity-modify, share_of-le,
}
use asterion.Gateway.Exposure.Quantities.{working_quantity-add, working_quantity-release}

pub record IsTracked (g : RiskGateway) : Type 0 where
  pub unique : IsUnique g.working_orders
  pub positive : AllValues IsPositive g.working_orders
  pub tracked : (s : ℕ) → working_quantity s g ≡ open_quantity s g.working_orders
  pub known :
      (id : ℕ) (o : WorkingOrder)
      → find id g.working_orders ≡ some o
      → contains id g.accepted_client_order_ids ≡ true
  pub hashed : IsHashed g.accepted_client_order_ids

-- A call that leaves the working orders, their quantities and the accepted ids alone.
pub IsTracked-same :
    (g h : RiskGateway)
    → h.working_orders ≡ g.working_orders
    → h.working_quantities ≡ g.working_quantities
    → h.accepted_client_order_ids ≡ g.accepted_client_order_ids
    → IsTracked g
    → IsTracked h
unfolding working_quantity
IsTracked-same g h a b c t = record {
  unique = rw a t.unique;
  positive = rw a t.positive;
  tracked = λ s. rw (a, b) (t.tracked s);
  known = λ id o. rw (a, c) (t.known id o);
  hashed = rw c t.hashed;
}

pub release_frame :
    (o : WorkingOrder) (q : ℤ) (g : RiskGateway)
    → ((release_working_order_quantity o q g).working_orders ≡ g.working_orders)
      × ((release_working_order_quantity o q g).accepted_client_order_ids
          ≡ g.accepted_client_order_ids)
unfolding release_working_order_quantity
release_frame o q g = elim (Bool-cases (leb_ℤ q (pos 0) || leb_ℤ o.quantity (pos 0))) [
  | inl e ↦ rw e (refl, refl)
  | inr e ↦ rw e (refl, refl)
]

pub add_frame :
    (o : WorkingOrder) (q : ℤ) (g : RiskGateway)
    → ((add_working_order_quantity o q g).working_orders ≡ g.working_orders)
      × ((add_working_order_quantity o q g).accepted_client_order_ids ≡ g.accepted_client_order_ids)
unfolding add_working_order_quantity
add_frame o q g = elim (Bool-cases (leb_ℤ q (pos 0))) [
  | inl e ↦ rw e (refl, refl)
  | inr e ↦ rw e (refl, refl)
]

bound_share : (a b : ℤ) → a ≡ a -ℤ b +ℤ b
bound_share a b = omega int_laws

module _ (g : RiskGateway) (t : IsTracked g) where
  -- The quantity of a working order is part of what is tracked for its symbol.
  pub covered :
      (k : ℕ) (o : WorkingOrder)
      → find k g.working_orders ≡ some o
      → o.quantity ≤ℤ working_quantity o.symbol_id g
  covered k o h =
      ground (arith, share_of-le o.symbol_id k o g.working_orders t.positive, t.tracked o.symbol_id)

  pub release_order-IsTracked : (id : ℕ) → IsTracked (release_order id g)
  unfolding release_order working_quantity
  release_order-IsTracked id = elim (Option-cases (find id g.working_orders)) [
    | inl e ↦ rw (e, release_order) t
    | inr (o, e) ↦
        let (orders, ids) = release_frame o o.quantity g in
        let quantity = AllValues-find IsPositive id o g.working_orders t.positive e in
        rw (e, release_order)
          (record {
            unique = rw orders (erase-IsUnique id g.working_orders t.unique);
            positive = rw orders (AllValues-erase IsPositive id g.working_orders t.positive);
            tracked = λ s.
                rw
                  (
                    orders,
                    open_quantity-erase s id o g.working_orders t.unique e,
                    sym (t.tracked s),
                  )
                  (working_quantity-release o g s quantity (covered id o e));
            known = λ k w.
                rw (orders, ids, find-erase id k g.working_orders)
                  (λ there. t.known k w (ground arith));
            hashed = rw ids t.hashed;
          })
  ]

  -- The id of a working order is known, also after a write to one of them.
  known-modify :
      (key : ℕ) (f : WorkingOrder → WorkingOrder) (k : ℕ) (w : WorkingOrder)
      → find k (modify key f g.working_orders) ≡ some w
      → contains k g.accepted_client_order_ids ≡ true
  known-modify key f k w there = elim (Option-cases (find k g.working_orders)) [
    | inl e ↦ absurd (ground (arith, find-modify key k f g.working_orders, e))
    | inr (v, e) ↦ t.known k v e
  ]

  -- New terms of a positive quantity for a working order.
  module _ (key : ℕ) (o : WorkingOrder) (price quantity : ℤ)
      (e : find key g.working_orders ≡ some o) (h : pos 0 <ℤ quantity) where
    abbrev new_terms : WorkingOrder → WorkingOrder
    new_terms = with_terms price quantity

    abbrev released : RiskGateway
    released = release_working_order_quantity o o.quantity g

    abbrev written : RiskGateway
    written = record released { working_orders = modify key new_terms released.working_orders }

    changed_orders :
        (change_terms key o price quantity g).working_orders ≡ modify key new_terms g.working_orders
    unfolding change_terms
    changed_orders =
        (add_frame (new_terms o) quantity written).0
        ∙ ap (modify key new_terms) (release_frame o o.quantity g).0

    pub change_terms-ids :
        (change_terms key o price quantity g).accepted_client_order_ids
        ≡ g.accepted_client_order_ids
    unfolding change_terms
    change_terms-ids =
        (add_frame (new_terms o) quantity written).1 ∙ (release_frame o o.quantity g).1

    changed_quantity :
        (s : ℕ)
        → working_quantity s (change_terms key o price quantity g)
          ≡ open_quantity s (modify key new_terms g.working_orders)
    unfolding change_terms working_quantity
    changed_quantity s =
        let old = AllValues-find IsPositive key o g.working_orders t.positive e in
        working_quantity-add (new_terms o) written s h
        ∙ ap (λ v. v +ℤ share_of s (new_terms o))
            (working_quantity-release o g s old (covered key o e)
              ∙ ap (λ v. v -ℤ share_of s o) (t.tracked s))
        ∙ sym (open_quantity-modify s key new_terms o g.working_orders e)

    pub change_terms-IsTracked : IsTracked (change_terms key o price quantity g)
    change_terms-IsTracked = record {
      unique = rw changed_orders (modify-IsUnique key new_terms g.working_orders t.unique);
      positive =
          rw changed_orders
            (AllValues-modify IsPositive key new_terms g.working_orders (λ v p. h) t.positive);
      tracked = λ s. changed_quantity s ∙ sym (ap (open_quantity s) changed_orders);
      known = λ k w. rw (changed_orders, change_terms-ids) (known-modify key new_terms k w);
      hashed = rw change_terms-ids t.hashed;
    }

  pub bind_exchange_order_id-IsTracked :
      (o : WorkingOrder) (key exchange_order_id : ℕ)
      → find key g.working_orders ≡ some o
      → IsTracked (bind_exchange_order_id o key exchange_order_id g)
  unfolding bind_exchange_order_id working_quantity
  bind_exchange_order_id-IsTracked o key x e =
      elim (Bool-cases ((x == 0) || (o.exchange_order_id == x))) [
        | inl same ↦ rw same t
        | inr other ↦ rw other (record {
          unique = modify-IsUnique key (with_exchange_id x) g.working_orders t.unique;
          positive =
              AllValues-modify IsPositive key (with_exchange_id x) g.working_orders (λ v p. p)
                t.positive;
          tracked = λ s.
              t.tracked s
              ∙ bound_share (open_quantity s g.working_orders) (share_of s o)
              ∙ sym (open_quantity-modify s key (with_exchange_id x) o g.working_orders e);
          known = λ k w. known-modify key (with_exchange_id x) k w;
          hashed = t.hashed;
        })
      ]
