-- ===== src/Gateway/Exposure/Quantities.antt =====
-- The working quantity of a symbol after an addition and after a release.
use asterion.Prelude.{
  ℕ, ◌==◌, ◌≡◌, inl, inr, List, if◌then◌else◌, Bool-cases, Option-cases, arith, ==-eq,
}
use asterion.Prelude.Int.{
  ℤ, pos, ◌+ℤ◌, ◌-ℤ◌, ◌≤ℤ◌, ◌<ℤ◌, leb_ℤ, min_ℤ, -ℤ_parts, eq_of_parts, int_laws, +ℤ_zero,
}
use asterion.Prelude.Assoc.{find, find-put, find-erase}
use asterion.Gateway.{RiskGateway, WorkingOrder, working_quantity, value_or_zero}
use asterion.Gateway.Working.{
  add_working_order_quantity, release_working_order_quantity, lower_quantity,
}
use asterion.Gateway.Exposure.Open.{share_of}

lower_quantity_lem :
    (k s : ℕ) (q : ℤ) (m : List (ℕ × ℤ))
    → pos 0 <ℤ q
    → q ≤ℤ value_or_zero (find k m)
    → value_or_zero (find s (lower_quantity k q m))
      ≡ (if k == s then value_or_zero (find k m) -ℤ q else value_or_zero (find s m))
unfolding lower_quantity
lower_quantity_lem k s q m h l = elim (Option-cases (find k m)) [
  | inl e ↦ absurd (ground (arith, e))
  | inr (v, e) ↦ elim (Bool-cases (leb_ℤ (v -ℤ q) (pos 0))) [
    | inl gone ↦
        rw (e, lower_quantity, gone)
          (ground (arith, find-erase k s m, gone, e, l, eq_of_parts (v -ℤ q) (pos 0), -ℤ_parts v q))
    | inr left ↦ rw (e, lower_quantity, left) (ground (arith, find-put k s (v -ℤ q) m))
  ]
]

-ℤ_zero : (a : ℤ) → a -ℤ pos 0 ≡ a
-ℤ_zero a = omega int_laws

min_self : (q : ℤ) → min_ℤ q q ≡ q
unfolding min_ℤ
min_self q = ground arith

module _ (o : WorkingOrder) (g : RiskGateway) (s : ℕ) (h : pos 0 <ℤ o.quantity) where
  pub working_quantity-add :
      working_quantity s (add_working_order_quantity o o.quantity g)
      ≡ working_quantity s g +ℤ share_of s o
  unfolding add_working_order_quantity working_quantity
  working_quantity-add = ground (
    arith,
    +ℤ_zero (value_or_zero (find s g.working_quantities)),
    ==-eq o.symbol_id s,
    find-put o.symbol_id s (value_or_zero (find o.symbol_id g.working_quantities) +ℤ o.quantity)
        g.working_quantities,
  )

  pub working_quantity-release :
      o.quantity ≤ℤ working_quantity o.symbol_id g
      → working_quantity s (release_working_order_quantity o o.quantity g)
        ≡ working_quantity s g -ℤ share_of s o
  unfolding release_working_order_quantity working_quantity
  working_quantity-release l = ground (
    arith,
    min_self o.quantity,
    -ℤ_zero (value_or_zero (find s g.working_quantities)),
    ==-eq o.symbol_id s,
    lower_quantity_lem o.symbol_id s o.quantity g.working_quantities,
  )
