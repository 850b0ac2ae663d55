-- ===== src/Portfolio/Position.antt =====
-- `apply_fill`: what a fill does to the positions.
use asterion.Prelude.{
  ℕ, ◌==◌, ltb, ◌<◌, ◌≡◌, refl, inl, inr, ◌&&◌, none, some, [], ◌∷◌, if◌then◌else◌, arith,
  Bool-cases, All, All-mono, ==-eq,
}
use asterion.Prelude.Int.{ℤ, pos, ◌+ℤ◌, ltb_ℤ}
use asterion.Prelude.Assoc.{find}
use asterion.Core.Types.{Side, is_valid_side}
use asterion.Portfolio.{
  SymbolPosition, Positions, PortfolioRiskMonitor, position_or_new, with_position, signed, extend,
  reduce, is_extending, apply_fill_to, apply_fill, position,
}

-- The keys ascend, as in a `std::map`.
abbrev pub IsAscending : Positions → Type 0
IsAscending [] = Unit
IsAscending ((k, p) ∷ m) = All (λ (e : ℕ × SymbolPosition). k < e.0) m × IsAscending m

module _ (k : ℕ) (f : SymbolPosition → SymbolPosition) where
  find-below : (m : Positions) → All (λ (e : ℕ × SymbolPosition). k < e.0) m → find k m ≡ none
  unfolding find
  find-below [] a = refl
  find-below ((j, p) ∷ m) a = ground (arith, find-below m a.1)

  with_position-All :
      (i : ℕ) (m : Positions)
      → i < k
      → All (λ (e : ℕ × SymbolPosition). i < e.0) m
      → All (λ (e : ℕ × SymbolPosition). i < e.0) (with_position k f m)
  unfolding with_position
  with_position-All i [] h a = (h, tt)
  with_position-All i ((j, p) ∷ m) h a = elim (Bool-cases (ltb k j)) [
    | inl lt ↦ rw lt (h, a)
    | inr ge ↦ elim (Bool-cases (ltb j k)) [
      | inl lt ↦ rw (ge, lt) (a.0, with_position-All i m h a.1)
      | inr eq ↦ rw (ge, eq) a
    ]
  ]

  pub with_position-IsAscending :
      (m : Positions) → IsAscending m → IsAscending (with_position k f m)
  unfolding with_position
  with_position-IsAscending [] s = (tt, tt)
  with_position-IsAscending ((j, p) ∷ m) s = elim (Bool-cases (ltb k j)) [
    | inl lt ↦ rw lt (
      (
        ground arith,
        All-mono (λ (e : ℕ × SymbolPosition). j < e.0) (λ (e : ℕ × SymbolPosition). k < e.0) m
            (λ e h. ground arith) s.0,
      ),
      s,
    )
    | inr ge ↦ elim (Bool-cases (ltb j k)) [
      | inl lt ↦
          rw (ge, lt) (with_position-All j m (ground arith) s.0, with_position-IsAscending m s.1)
      | inr eq ↦ rw (ge, eq) s
    ]
  ]

  pub find-with_position :
      (i : ℕ) (m : Positions)
      → IsAscending m
      → find i (with_position k f m)
        ≡ (if k == i then some (f (position_or_new (find k m))) else find i m)
  unfolding with_position find
  find-with_position i [] s = ground arith
  find-with_position i ((j, p) ∷ m) s = elim (Bool-cases (ltb k j)) [
    | inl lt ↦
        let above =
          All-mono (λ (e : ℕ × SymbolPosition). j < e.0) (λ (e : ℕ × SymbolPosition). k < e.0) m
            (λ e h. ground arith) s.0 in
        ground (arith, find-below m above)
    | inr ge ↦ ground (arith, find-with_position i m s.1)
  ]

quantity-apply_fill_to :
    (side : Side) (quantity price : ℤ) (p : SymbolPosition)
    → (apply_fill_to side quantity price p).0.quantity ≡ (
        if is_valid_side side && ltb_ℤ (pos 0) quantity
        then p.quantity +ℤ signed side quantity
        else p.quantity)
unfolding apply_fill_to extend reduce
quantity-apply_fill_to side quantity price p = elim (Bool-cases (is_valid_side side)) [
  | inr bad ↦ ground arith
  | inl good ↦ elim (Bool-cases (ltb_ℤ (pos 0) quantity)) [
    | inr none_left ↦ ground arith
    | inl some_left ↦ elim (Bool-cases (is_extending side quantity p)) [
      | inl same ↦ ground arith
      | inr against ↦ ground arith
    ]
  ]
]

-- A fill of a valid side and a positive quantity moves the position of its symbol by the signed quantity,
-- and no other position; any other fill moves none.
pub position-apply_fill :
    (symbol_id : ℕ) (side : Side) (quantity price : ℤ) (m : PortfolioRiskMonitor) (i : ℕ)
    → IsAscending m.positions
    → position i (apply_fill symbol_id side quantity price m) ≡ (
        if (symbol_id == i) && (is_valid_side side && ltb_ℤ (pos 0) quantity)
        then position i m +ℤ signed side quantity
        else position i m)
unfolding apply_fill position
position-apply_fill symbol_id side quantity price m i s = ground (
  arith,
  find-with_position symbol_id (λ p. (apply_fill_to side quantity price p).0) i m.positions s,
  quantity-apply_fill_to side quantity price (position_or_new (find symbol_id m.positions)),
  ==-eq symbol_id i,
)
