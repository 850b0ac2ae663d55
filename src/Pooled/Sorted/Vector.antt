-- ===== src/Pooled/Sorted/Vector.antt =====
-- One side's vector of levels: its prices in order.
use asterion.Prelude.{
  ℕ, zero, suc, ◌≡◌, refl, ap, Bool, true, false, inl, inr, List, [], ◌∷◌, ◌==◌, get_or, set, All,
  All-mono, Bool-cases, arith,
}
use asterion.Prelude.Int.{ℤ, pos, eqb_ℤ}
use asterion.Book.PriceMap.{bid_before, ask_before}
use asterion.Pooled.State.{
  LevelNode, level_node, mutable_in, bid_stops, ask_stops, mutable_bid_level, mutable_ask_level,
  erase_if_empty,
}

abbrev pub prices : List LevelNode → List ℤ
prices [] = []
prices (l ∷ ls) = l.price_ticks ∷ prices ls

-- Each element comes before all that follow.
abbrev pub IsSorted : (ℤ → ℤ → Bool) → List ℤ → Type 0
IsSorted before [] = Unit
IsSorted before (p ∷ ps) = All (λ q. before p q ≡ true) ps × IsSorted before ps

pub prices-set :
    (ls : List LevelNode) (i : ℕ) (l : LevelNode)
    → l.price_ticks ≡ (get_or ls i (level_node (pos 0))).price_ticks
    → prices (set ls i l) ≡ prices ls
unfolding set get_or
prices-set [] i l h = refl
prices-set (x ∷ xs) zero l h = ap (λ p. p ∷ prices xs) h
prices-set (x ∷ xs) (suc i) l h = ap (λ ps. x.price_ticks ∷ ps) (prices-set xs i l h)

-- `stops` holds from the first level on that is not before the price.
record IsSearch (before stops : ℤ → ℤ → Bool) : Type 0 where
  passed : (q p : ℤ) → stops q p ≡ false → before q p ≡ true
  stopped : (q p : ℤ) → stops q p ≡ true → eqb_ℤ q p ≡ false → before p q ≡ true
  trans : (p q r : ℤ) → before p q ≡ true → before q r ≡ true → before p r ≡ true

module _ (before stops : ℤ → ℤ → Bool) (s : IsSearch before stops) (p : ℤ) where
  mutable_in-All :
      (q : ℤ) (ls : List LevelNode)
      → before q p ≡ true
      → All (λ r. before q r ≡ true) (prices ls)
      → All (λ r. before q r ≡ true) (prices (mutable_in stops p ls).0)
  unfolding mutable_in
  mutable_in-All q [] h a = (h, tt)
  mutable_in-All q (l ∷ ls) h a = elim (Bool-cases (stops l.price_ticks p)) [
    | inr e ↦ rw e (a.0, mutable_in-All q ls h a.1)
    | inl e ↦ elim (Bool-cases (eqb_ℤ l.price_ticks p)) [
      | inl m ↦ rw (e, m) a
      | inr m ↦ rw (e, m) (h, a)
    ]
  ]

  mutable_in-IsSorted :
      (ls : List LevelNode)
      → IsSorted before (prices ls)
      → IsSorted before (prices (mutable_in stops p ls).0)
  unfolding mutable_in
  mutable_in-IsSorted [] h = (tt, tt)
  mutable_in-IsSorted (l ∷ ls) h = elim (Bool-cases (stops l.price_ticks p)) [
    | inr e ↦ rw e (
      mutable_in-All l.price_ticks ls (s.passed l.price_ticks p e) h.0,
      mutable_in-IsSorted ls h.1,
    )
    | inl e ↦ elim (Bool-cases (eqb_ℤ l.price_ticks p)) [
      | inl m ↦ rw (e, m) h
      | inr m ↦
          let first = s.stopped l.price_ticks p e m in
          rw (e, m)
            (
              (
                first,
                All-mono (λ r. before l.price_ticks r ≡ true) (λ r. before p r ≡ true) (prices ls)
                    (λ r k. s.trans p l.price_ticks r first k) h.0,
              ),
              h,
            )
    ]
  ]

bid-IsSearch : IsSearch bid_before bid_stops
bid-IsSearch = record {
  passed = λ q p h. ground arith;
  stopped = λ q p h k. ground arith;
  trans = λ p q r h k. ground arith;
}

ask-IsSearch : IsSearch ask_before ask_stops
ask-IsSearch = record {
  passed = λ q p h. ground arith;
  stopped = λ q p h k. ground arith;
  trans = λ p q r h k. ground arith;
}

pub mutable_bid_level-IsSorted :
    (p : ℤ) (ls : List LevelNode)
    → IsSorted bid_before (prices ls)
    → IsSorted bid_before (prices (mutable_bid_level p ls).0)
unfolding mutable_bid_level
mutable_bid_level-IsSorted p ls h = mutable_in-IsSorted bid_before bid_stops bid-IsSearch p ls h

pub mutable_ask_level-IsSorted :
    (p : ℤ) (ls : List LevelNode)
    → IsSorted ask_before (prices ls)
    → IsSorted ask_before (prices (mutable_ask_level p ls).0)
unfolding mutable_ask_level
mutable_ask_level-IsSorted p ls h = mutable_in-IsSorted ask_before ask_stops ask-IsSearch p ls h

module _ (before : ℤ → ℤ → Bool) (p : ℤ) where
  erase_if_empty-All :
      (q : ℤ) (ls : List LevelNode)
      → All (λ r. before q r ≡ true) (prices ls)
      → All (λ r. before q r ≡ true) (prices (erase_if_empty p ls))
  unfolding erase_if_empty
  erase_if_empty-All q [] a = tt
  erase_if_empty-All q (l ∷ ls) a = elim (Bool-cases (eqb_ℤ l.price_ticks p)) [
    | inr e ↦ rw e (a.0, erase_if_empty-All q ls a.1)
    | inl e ↦ elim (Bool-cases (l.order_count == 0)) [ inl m ↦ rw (e, m) a.1 | inr m ↦ rw (e, m) a ]
  ]

  pub erase_if_empty-IsSorted :
      (ls : List LevelNode)
      → IsSorted before (prices ls)
      → IsSorted before (prices (erase_if_empty p ls))
  unfolding erase_if_empty
  erase_if_empty-IsSorted [] h = tt
  erase_if_empty-IsSorted (l ∷ ls) h = elim (Bool-cases (eqb_ℤ l.price_ticks p)) [
    | inr e ↦ rw e (erase_if_empty-All l.price_ticks ls h.0, erase_if_empty-IsSorted ls h.1)
    | inl e ↦ elim (Bool-cases (l.order_count == 0)) [ inl m ↦ rw (e, m) h.1 | inr m ↦ rw (e, m) h ]
  ]
