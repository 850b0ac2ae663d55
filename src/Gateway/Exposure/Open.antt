-- ===== src/Gateway/Exposure/Open.antt =====
-- The open quantity of a symbol, read off the working orders.
use asterion.Prelude.{
  ℕ, ◌==◌, ◌≡◌, inl, inr, refl, none, some, List, [], ◌∷◌, if◌then◌else◌, Bool-cases, arith, subst,
  ==-eq,
}
use asterion.Prelude.Int.{ℤ, pos, ◌+ℤ◌, ◌-ℤ◌, ◌≤ℤ◌, ◌<ℤ◌, +ℤ_parts, int_laws}
use asterion.Prelude.Assoc.{find, put, erase, modify, IsUnique, AllValues}
use asterion.Gateway.{WorkingOrder}

-- What one order adds to the open quantity of a symbol.
abbrev pub share_of : ℕ → WorkingOrder → ℤ
share_of symbol_id o = if o.symbol_id == symbol_id then o.quantity else pos 0

unfoldable pub open_quantity : ℕ → List (ℕ × WorkingOrder) → ℤ
open_quantity symbol_id [] = pos 0
open_quantity symbol_id ((id, o) ∷ os) = share_of symbol_id o +ℤ open_quantity symbol_id os

abbrev pub IsPositive : WorkingOrder → Type 0
IsPositive o = pos 0 <ℤ o.quantity

module _ (s : ℕ) where
  pub open_quantity-put :
      (k : ℕ) (o : WorkingOrder) (m : List (ℕ × WorkingOrder))
      → find k m ≡ none
      → open_quantity s (put k o m) ≡ open_quantity s m +ℤ share_of s o
  unfolding open_quantity put find
  open_quantity-put k o [] h = omega int_laws
  open_quantity-put k o ((j, w) ∷ m) h = elim (Bool-cases (j == k)) [
    | inl e ↦ absurd (ground (arith, e))
    | inr e ↦ rw (e, open_quantity-put k o m (ground (arith, e))) (omega int_laws)
  ]

  open_quantity-erase_none :
      (k : ℕ) (m : List (ℕ × WorkingOrder))
      → find k m ≡ none
      → open_quantity s (erase k m) ≡ open_quantity s m
  unfolding open_quantity erase find
  open_quantity-erase_none k [] h = refl
  open_quantity-erase_none k ((j, w) ∷ m) h = elim (Bool-cases (j == k)) [
    | inl e ↦ absurd (ground (arith, e))
    | inr e ↦ rw (e, open_quantity-erase_none k m (ground (arith, e))) refl
  ]

  pub open_quantity-erase :
      (k : ℕ) (o : WorkingOrder) (m : List (ℕ × WorkingOrder))
      → IsUnique m
      → find k m ≡ some o
      → open_quantity s (erase k m) ≡ open_quantity s m -ℤ share_of s o
  unfolding open_quantity erase find
  open_quantity-erase k o [] u h = cc
  open_quantity-erase k o ((j, w) ∷ m) u h = elim (Bool-cases (j == k)) [
    | inl e ↦
        let same : w ≡ o = ground (arith, e) in
        let gone : find k m ≡ none = subst (λ t. find t m ≡ none) (==-eq j k e) u.0 in
        rw (e, same, open_quantity-erase_none k m gone) (omega int_laws)
    | inr e ↦ rw (e, open_quantity-erase k o m u.1 (ground (arith, e))) (omega int_laws)
  ]

  pub open_quantity-modify :
      (k : ℕ) (f : WorkingOrder → WorkingOrder) (o : WorkingOrder) (m : List (ℕ × WorkingOrder))
      → find k m ≡ some o
      → open_quantity s (modify k f m) ≡ open_quantity s m -ℤ share_of s o +ℤ share_of s (f o)
  unfolding open_quantity modify find
  open_quantity-modify k f o [] h = cc
  open_quantity-modify k f o ((j, w) ∷ m) h = elim (Bool-cases (j == k)) [
    | inl e ↦ let same : w ≡ o = ground (arith, e) in rw (e, same) (omega int_laws)
    | inr e ↦ rw (e, open_quantity-modify k f o m (ground (arith, e))) (omega int_laws)
  ]

  pub open_quantity-nonneg :
      (m : List (ℕ × WorkingOrder)) → AllValues IsPositive m → pos 0 ≤ℤ open_quantity s m
  unfolding open_quantity
  open_quantity-nonneg [] p = omega arith
  open_quantity-nonneg ((j, w) ∷ m) p =
      ground (arith, open_quantity-nonneg m p.1, +ℤ_parts (share_of s w) (open_quantity s m))

  pub share_of-le :
      (k : ℕ) (o : WorkingOrder) (m : List (ℕ × WorkingOrder))
      → AllValues IsPositive m
      → find k m ≡ some o
      → share_of s o ≤ℤ open_quantity s m
  unfolding open_quantity find
  share_of-le k o [] p h = cc
  share_of-le k o ((j, w) ∷ m) p h = elim (Bool-cases (j == k)) [
    | inl e ↦
        let same : w ≡ o = ground (arith, e) in
        rw same
          (omega (arith, +ℤ_parts (share_of s o) (open_quantity s m), open_quantity-nonneg m p.1))
    | inr e ↦
        ground (arith, share_of-le k o m p.1, +ℤ_parts (share_of s w) (open_quantity s m), e, p.0)
  ]
