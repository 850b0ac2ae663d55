-- ===== src/Prelude/Cyclic.antt =====
-- Indices that go round a table of `n` slots.
use Prim.Native.Nat.{ℕ, suc, ◌+◌, ◌-◌, ◌%◌, ◌<◌}
use mathlib.Core.Path.{◌≡◌, ap, ◌∙◌}
use mathlib.Core.Logic.{inl, inr}
use native.Mathlib.Omega.{arith}
use native.Mathlib.Nat.{mod-eq_of_lt, mod-add-mod}
use asterion.Prelude.Tests.{leb, Bool-cases}

pub next-lt : (n i : ℕ) → i < n → (i + 1) % n < n
next-lt n i h = grind arith

mod-add_self : (e n : ℕ) → (e + n) % n ≡ e % n
mod-add_self e n = grind arith

pub step_ahead : (n d i : ℕ) → ((i + 1) % n + d) % n ≡ (i + suc d) % n
step_ahead n d i = rw mod-add-mod (ap (λ k. k % n) (omega arith))

-- Every slot is fewer than `n` steps ahead of every other.
pub around : (n i e : ℕ) → i < n → e < n → (d : ℕ) × (d < n) × ((i + d) % n ≡ e)
around n i e l m = elim (Bool-cases (leb i e)) [
  | inl below ↦ (e - i, ground arith, ap (λ k. k % n) (ground arith) ∙ mod-eq_of_lt m)
  | inr above ↦
      (e + n - i, ground arith, ap (λ k. k % n) (ground arith) ∙ mod-add_self e n ∙ mod-eq_of_lt m)
]
