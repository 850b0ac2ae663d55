-- ===== src/Prelude/Decimal.antt =====
-- Decimal integers: `operator<<` of a `std::ostream`, and `std::from_chars` on a whole text.
use Prim.Native.Nat.{ℕ, zero, suc, ◌+◌, ◌-◌, ◌*◌, ◌/◌, ◌%◌, ◌^◌, ◌≤◌, ◌<◌}
use mathlib.Core.Path.{◌≡◌, refl, ap, ◌∙◌}
use mathlib.Core.Logic.{◌≢◌, inl, inr}
use mathlib.Core.Bool.{Bool, false, ◌&&◌}
use mathlib.Core.Option.{Option, none, some}
use mathlib.Core.List.{[], ◌∷◌}
use native.Mathlib.Omega.{arith}
use asterion.Prelude.Tests.{ltb, leb, ◌==◌, if◌then◌else◌, Bool-cases}
use asterion.Prelude.Int.{ℤ, pos, negsuc}
use asterion.Prelude.Text.{Text, has}

-- The digits of `n` before `out`; each round divides `n` by ten.
unfoldable pub digits : ℕ → ℕ → Text → Text
digits zero n out = out
digits (suc fuel) n out =
    let more = digits fuel (n / 10) ((b'0' + n % 10) ∷ out) in if n == 0 then out else more

unfoldable pub format_nat : ℕ → Text
unfolding digits
format_nat n = if n == 0 then b'0' ∷ [] else digits n n []

unfoldable pub format_int : ℤ → Text
unfolding format_nat
format_int (pos n) = format_nat n
format_int (negsuc n) = b'-' ∷ format_nat (suc n)

abbrev pub is_digit : ℕ → Bool
is_digit c = leb b'0' c && leb c b'9'

unfoldable pub scan_digits : Text → ℕ → Option ℕ
scan_digits [] n = some n
scan_digits (c ∷ s) n = if is_digit c then scan_digits s (n * 10 + (c - b'0')) else none

-- The digits of a whole text, of which there is one at least.
unfoldable pub parse_digits : Text → Option ℕ
unfolding scan_digits
parse_digits [] = none
parse_digits (c ∷ s) = scan_digits (c ∷ s) 0

abbrev bounded : ℕ → Option ℕ → Option ℕ
bounded bound none = none
bounded bound (some n) = if ltb n bound then some n else none

abbrev negative : Option ℕ → Option ℤ
negative none = none
negative (some zero) = some (pos 0)
negative (some (suc n)) = some (negsuc n)

abbrev positive : Option ℕ → Option ℤ
positive none = none
positive (some n) = some (pos n)

-- `from_chars` into an unsigned type of the numbers below `bound`.
unfoldable pub parse_nat : ℕ → Text → Option ℕ
unfolding parse_digits
parse_nat bound s = bounded bound (parse_digits s)

-- `from_chars` into `std::int64_t`.
unfoldable pub parse_int : Text → Option ℤ
unfolding parse_digits
parse_int [] = none
parse_int (c ∷ s) =
    if c == b'-'
    then negative (bounded (2 ^ 63 + 1) (parse_digits s))
    else positive (bounded (2 ^ 63) (parse_digits (c ∷ s)))

-- What a signed 64-bit integer holds.
abbrev pub IsInt64 : ℤ → Type 0
IsInt64 (pos n) = n < 2 ^ 63
IsInt64 (negsuc n) = n < 2 ^ 63

-- The last digit, behind the others.
scan_last : (n : ℕ) (out : Text) → scan_digits ((b'0' + n % 10) ∷ out) (n / 10) ≡ scan_digits out n
unfolding scan_digits
scan_last n out = ground arith

scan_digits-digits :
    (fuel n : ℕ) (out : Text) → n ≤ fuel → scan_digits (digits fuel n out) 0 ≡ scan_digits out n
unfolding digits
scan_digits-digits zero n out h = ap (scan_digits out) (omega arith)
scan_digits-digits (suc f) n out h = elim (Bool-cases (n == 0)) [
  | inl e ↦ rw e (ap (scan_digits out) (ground (arith, e)))
  | inr e ↦
      rw e (
        scan_digits-digits f (n / 10) ((b'0' + n % 10) ∷ out) (ground (arith, e)) ∙ scan_last n out)
]

digits-ne-nil : (fuel n c : ℕ) (out : Text) → digits fuel n (c ∷ out) ≢ []
unfolding digits
digits-ne-nil zero n c out h = cc
digits-ne-nil (suc f) n c out h = elim (Bool-cases (n == 0)) [
  | inl e ↦ ground (arith, e)
  | inr e ↦ digits-ne-nil f (n / 10) (b'0' + n % 10) (c ∷ out) (ground (arith, e))
]

format_nat-ne-nil : (n : ℕ) → format_nat n ≢ []
unfolding format_nat digits
format_nat-ne-nil zero h = cc
format_nat-ne-nil (suc n) h =
    digits-ne-nil n (suc n / 10) (b'0' + suc n % 10) [] (ground (arith, h))

parse_digits-scan : (s : Text) → s ≢ [] → parse_digits s ≡ scan_digits s 0
unfolding parse_digits
parse_digits-scan [] h = absurd (h refl)
parse_digits-scan (c ∷ s) h = refl

scan_digits-format : (n : ℕ) → scan_digits (format_nat n) 0 ≡ some n
unfolding format_nat scan_digits
scan_digits-format n = elim (Bool-cases (n == 0)) [
  | inl e ↦ rw e (ground (arith, e))
  | inr e ↦ rw e (scan_digits-digits n n [] (omega arith))
]

parse_digits-format : (n : ℕ) → parse_digits (format_nat n) ≡ some n
parse_digits-format n = parse_digits-scan _ (format_nat-ne-nil n) ∙ scan_digits-format n

-- A number that fits is read back from its digits.
pub parse_nat-format : (bound n : ℕ) → n < bound → parse_nat bound (format_nat n) ≡ some n
unfolding parse_nat
parse_nat-format bound n h = ap (bounded bound) (parse_digits-format n) ∙ ground arith

digits-has :
    (c fuel n : ℕ) (out : Text)
    → is_digit c ≡ false
    → has c out ≡ false
    → has c (digits fuel n out) ≡ false
unfolding digits has
digits-has c zero n out h k = k
digits-has c (suc f) n out h k = elim (Bool-cases (n == 0)) [
  | inl e ↦ rw e k
  | inr e ↦ rw e (digits-has c f (n / 10) ((b'0' + n % 10) ∷ out) h (ground (arith, h, k)))
]

pub format_nat-has : (c n : ℕ) → is_digit c ≡ false → has c (format_nat n) ≡ false
unfolding format_nat has
format_nat-has c n h = elim (Bool-cases (n == 0)) [
  | inl e ↦ rw e (ground (arith, h))
  | inr e ↦ rw e (digits-has c n n [] h refl)
]

pub format_int-has :
    (c : ℕ) (n : ℤ) → is_digit c ≡ false → (b'-' == c) ≡ false → has c (format_int n) ≡ false
unfolding format_int has
format_int-has c (pos n) h k = format_nat-has c n h
format_int-has c (negsuc n) h k = ground (arith, format_nat-has c (suc n) h, k)

parse_int-positive :
    (s : Text)
    → has b'-' s ≡ false
    → s ≢ []
    → parse_int s ≡ positive (bounded (2 ^ 63) (parse_digits s))
unfolding parse_int has
parse_int-positive [] h k = absurd (k refl)
parse_int-positive (c ∷ s) h k = ground (arith, h)

parse_int-negative :
    (s : Text) → parse_int (b'-' ∷ s) ≡ negative (bounded (2 ^ 63 + 1) (parse_digits s))
unfolding parse_int
parse_int-negative s = refl

pub parse_int-format : (n : ℤ) → IsInt64 n → parse_int (format_int n) ≡ some n
unfolding format_int
parse_int-format (pos n) h =
    parse_int-positive (format_nat n) (format_nat-has b'-' n refl) (format_nat-ne-nil n)
    ∙ ap (λ t. positive (bounded (2 ^ 63) t)) (parse_digits-format n)
    ∙ ground arith
parse_int-format (negsuc n) h =
    parse_int-negative (format_nat (suc n))
    ∙ ap (λ t. negative (bounded (2 ^ 63 + 1) t)) (parse_digits-format (suc n))
    ∙ ground arith
