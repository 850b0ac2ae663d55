-- ===== src/Prelude/Text.antt =====
-- Text as a list of bytes, for `std::string` and `std::string_view`, and the searches on it.
use Prim.Native.Nat.{ℕ}
use Prim.Native.Char.{code}
use Prim.Native.String.{String}
use mathlib.Core.Path.{◌≡◌, refl, ap}
use mathlib.Core.Bool.{Bool, true, false, ◌&&◌, ◌||◌}
use mathlib.Core.Option.{Option, none, some}
use mathlib.Core.List.{List, [], ◌∷◌, ◌++◌}
use mathlib.Core.Logic.{inl, inr}
use native.Mathlib.Omega.{arith}
use asterion.Prelude.Tests.{◌==◌, if◌then◌else◌, Bool-cases}

abbrev pub Text : Type 0
Text = List ℕ

-- The bytes of an ASCII literal.
abbrev pub codes : String → Text
codes String.[] = []
codes (String.◌∷◌ c s) = code c ∷ codes s

unfoldable pub eq_text : Text → Text → Bool
eq_text [] [] = true
eq_text [] (d ∷ t) = false
eq_text (c ∷ s) [] = false
eq_text (c ∷ s) (d ∷ t) = (c == d) && eq_text s t

-- Whether a byte stands in a text.
unfoldable pub has : ℕ → Text → Bool
has c [] = false
has c (d ∷ s) = (d == c) || has c s

-- What follows a prefix, if the text starts with it.
unfoldable pub strip_prefix : Text → Text → Option Text
strip_prefix [] s = some s
strip_prefix (c ∷ p) [] = none
strip_prefix (c ∷ p) (d ∷ s) = if c == d then strip_prefix p s else none

-- What stands before the first byte that stops.
unfoldable pub take_until : (ℕ → Bool) → Text → Text
take_until stops [] = []
take_until stops (c ∷ s) = if stops c then [] else c ∷ take_until stops s

pub has-append : (c : ℕ) (s t : Text) → has c (s ++ t) ≡ (has c s || has c t)
unfolding has
has-append c [] t = refl
has-append c (d ∷ s) t = ground (arith, has-append c s t)

pub eq_text-eq : (s t : Text) → eq_text s t ≡ true → s ≡ t
unfolding eq_text
eq_text-eq [] [] h = refl
eq_text-eq [] (d ∷ t) h = cc
eq_text-eq (c ∷ s) [] h = cc
eq_text-eq (c ∷ s) (d ∷ t) h = ground (arith, eq_text-eq s t)

pub eq_text_self : (s : Text) → eq_text s s ≡ true
unfolding eq_text
eq_text_self [] = refl
eq_text_self (c ∷ s) = ground (arith, eq_text_self s)

-- A name that ends at a byte which stands in neither name: the prefix matches exactly where the names
-- are the same.
pub strip_prefix-name :
    (m : ℕ) (s t rest : Text)
    → has m s ≡ false
    → has m t ≡ false
    → strip_prefix (s ++ m ∷ []) (t ++ m ∷ rest) ≡ (if eq_text s t then some rest else none)
unfolding strip_prefix eq_text has
strip_prefix-name m [] [] rest h k = ground arith
strip_prefix-name m [] (d ∷ t) rest h k = ground arith
strip_prefix-name m (c ∷ s) [] rest h k = ground arith
strip_prefix-name m (c ∷ s) (d ∷ t) rest h k = ground (arith, strip_prefix-name m s t rest)

-- A text with no byte that stops, and one that does behind it.
pub take_until-append :
    (stops : ℕ → Bool) (s : Text) (m : ℕ) (rest : Text)
    → take_until stops s ≡ s
    → stops m ≡ true
    → take_until stops (s ++ m ∷ rest) ≡ s
unfolding take_until
take_until-append stops [] m rest h k = ground arith
take_until-append stops (c ∷ s) m rest h k = elim (Bool-cases (stops c)) [
  | inl e ↦ absurd (ground (arith, e))
  | inr e ↦ rw e (ap (λ t. c ∷ t) (take_until-append stops s m rest (ground (arith, e)) k))
]

pub take_until-has : (m : ℕ) (s : Text) → has m s ≡ false → take_until (λ c. c == m) s ≡ s
unfolding take_until has
take_until-has m [] h = refl
take_until-has m (c ∷ s) h = elim (Bool-cases (c == m)) [
  | inl e ↦ absurd (ground (arith, e))
  | inr e ↦ rw e (ap (λ t. c ∷ t) (take_until-has m s (ground (arith, e))))
]
