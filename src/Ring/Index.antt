-- ===== src/Ring/Index.antt =====
-- Arithmetic of the ring's indices.
use asterion.Prelude.{
  ℕ, ◌+◌, ◌%◌, ◌<◌, ◌≡◌, arith, ◌==◌, if◌then◌else◌, Bool-cases, inl, inr, ==-eq, ap, ◌∙◌, sym,
  if_true, if_false, false,
}
use native.Mathlib.Nat.{mod_self, mod-eq_of_lt}

index_below : (i size : ℕ) → i < size → i + 1 == size ≡ false → i + 1 < size
index_below i size h e = ground arith

-- An index below the size moves on by one, and back to 0 at the end.
pub step_index : (i size : ℕ) → i < size → (i + 1) % size ≡ (if i + 1 == size then 0 else i + 1)
step_index i size h = elim (Bool-cases (i + 1 == size)) [
  | inl e ↦ ap (λ x. x % size) (==-eq (i + 1) size e) ∙ mod_self size ∙ sym (if_true 0 (i + 1) e)
  | inr e ↦ mod-eq_of_lt (index_below i size h e) ∙ sym (if_false 0 (i + 1) e)
]
