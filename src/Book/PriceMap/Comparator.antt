-- ===== src/Book/PriceMap/Comparator.antt =====
-- The comparators of the two price maps are strict total orders.
use asterion.Prelude.{◌≡◌, Bool, true, false, arith}
use asterion.Prelude.Int.{ℤ, eq_of_parts}
use asterion.Book.PriceMap.{bid_before, ask_before}

pub record IsStrictOrder (before : ℤ → ℤ → Bool) : Type 0 where
  pub irrefl : (p : ℤ) → before p p ≡ false
  pub asymm : (p q : ℤ) → before p q ≡ true → before q p ≡ false
  pub trans : (p q r : ℤ) → before p q ≡ true → before q r ≡ true → before p r ≡ true
  pub connected : (p q : ℤ) → before p q ≡ false → before q p ≡ false → p ≡ q

pub bid_order : IsStrictOrder bid_before
bid_order = record {
  irrefl = λ p. ground arith;
  asymm = λ p q h. ground arith;
  trans = λ p q r h k. ground arith;
  connected = λ p q h k. ground (arith, eq_of_parts p q);
}

pub ask_order : IsStrictOrder ask_before
ask_order = record {
  irrefl = λ p. ground arith;
  asymm = λ p q h. ground arith;
  trans = λ p q r h k. ground arith;
  connected = λ p q h k. ground (arith, eq_of_parts p q);
}
