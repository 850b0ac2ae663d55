-- ===== src/Book/PriceMap/Laws.antt =====
-- What `with_level` and `drop_level_if_empty` do to a sorted price map.
use mathlib.Core.Path.{subst₂}
use asterion.Prelude.{
  ℕ, ◌+◌, ◌≡◌, refl, sym, Bool, true, false, Option, none, some, [], ◌∷◌, arith, inl, inr, subst,
  ◌⊎◌, if◌then◌else◌, is_empty, All, Bool-cases,
}
use asterion.Prelude.Int.{ℤ}
use asterion.Book.Queue.{occurs}
use asterion.Book.PriceMap.{
  PriceLevel, new_level, Levels, find_level, with_level, drop_level_if_empty, occurs_levels,
}
use asterion.Book.PriceMap.Comparator.{IsStrictOrder}

abbrev pub level_or_new : Option PriceLevel → PriceLevel
level_or_new none = new_level
level_or_new (some l) = l

-- What is left of a looked-up level once an empty one is dropped.
abbrev pub unless_empty : Option PriceLevel → Option PriceLevel
unless_empty none = none
unless_empty (some l) = if is_empty l.orders then none else some l

abbrev pub AllLevels {κ} : (ℤ → PriceLevel → Type κ) → Levels → Type κ
AllLevels P ls = All (λ e. P e.0 e.1) ls

module _ (before : ℤ → ℤ → Bool) (ord : IsStrictOrder before) where
  abbrev pub Above : ℤ → Levels → Type 0
  Above p ls = AllLevels (λ q l. before p q ≡ true) ls

  abbrev pub IsSorted : Levels → Type 0
  IsSorted [] = Unit
  IsSorted ((q, l) ∷ ls) = Above q ls × IsSorted ls

  Above-trans : (p q : ℤ) (ls : Levels) → before p q ≡ true → Above q ls → Above p ls
  Above-trans p q [] h a = tt
  Above-trans p q ((r, l) ∷ ls) h a = (ord.trans p q r h a.0, Above-trans p q ls h a.1)

  pub All-with_level {κ} :
      (P : ℤ → PriceLevel → Type κ) (p : ℤ) (f : PriceLevel → PriceLevel) (ls : Levels)
      → P p (f (level_or_new (find_level before p ls)))
      → AllLevels P ls
      → AllLevels P (with_level before p f ls)
  unfolding with_level find_level
  All-with_level P p f [] h a = (h, tt)
  All-with_level P p f ((q, l) ∷ ls) h a = elim (Bool-cases (before p q)) [
    | inl x ↦ rw x (rw x at h, a)
    | inr x ↦ elim (Bool-cases (before q p)) [
      | inl y ↦ rw (x, y) (a.0, All-with_level P p f ls (rw (x, y) at h) a.1)
      | inr y ↦ rw (x, y) (subst (λ r. P r (f l)) (ord.connected p q x y) (rw (x, y) at h), a.1)
    ]
  ]

  pub occurs-with_level :
      (id : ℕ) (p : ℤ) (f : PriceLevel → PriceLevel) (ls : Levels)
      → let l = level_or_new (find_level before p ls) in
        occurs_levels id (with_level before p f ls) + occurs id l.orders
        ≡ occurs_levels id ls + occurs id (f l).orders
  unfolding with_level find_level occurs_levels occurs
  occurs-with_level id p f [] = ground arith
  occurs-with_level id p f ((q, l) ∷ ls) = ground (arith, occurs-with_level id p f ls)

  pub occurs-drop_level_if_empty :
      (id : ℕ) (p : ℤ) (ls : Levels)
      → occurs_levels id (drop_level_if_empty before p ls) ≡ occurs_levels id ls
  unfolding drop_level_if_empty occurs_levels occurs
  occurs-drop_level_if_empty id p [] = refl
  occurs-drop_level_if_empty id p ((q, l) ∷ ls) = ground (arith, occurs-drop_level_if_empty id p ls)

  pub find-with_level_self :
      (p : ℤ) (f : PriceLevel → PriceLevel) (ls : Levels)
      → find_level before p (with_level before p f ls)
        ≡ some (f (level_or_new (find_level before p ls)))
  unfolding with_level find_level
  find-with_level_self p f [] = ground (arith, ord.irrefl p)
  find-with_level_self p f ((q, l) ∷ ls) =
      ground (arith, ord.irrefl p, ord.asymm q p, find-with_level_self p f ls)

  pub find-with_level_ne :
      (p j : ℤ) (f : PriceLevel → PriceLevel) (ls : Levels)
      → (before p j ≡ true) ⊎ (before j p ≡ true)
      → find_level before j (with_level before p f ls) ≡ find_level before j ls
  unfolding with_level find_level
  find-with_level_ne p j f [] s = ground (arith, ord.asymm p j)
  find-with_level_ne p j f ((q, l) ∷ ls) s = ground (
    arith,
    ord.asymm p j,
    ord.trans j p q,
    ord.trans q p j,
    ord.connected p q,
    find-with_level_ne p j f ls s,
  )

  pub with_level-IsSorted :
      (p : ℤ) (f : PriceLevel → PriceLevel) (ls : Levels)
      → IsSorted ls
      → IsSorted (with_level before p f ls)
  unfolding with_level
  with_level-IsSorted p f [] s = (tt, tt)
  with_level-IsSorted p f ((q, l) ∷ ls) s = elim (Bool-cases (before p q)) [
    | inl x ↦ rw x ((x, Above-trans p q ls x s.0), s)
    | inr x ↦ elim (Bool-cases (before q p)) [
      | inl y ↦
          rw (x, y)
            (All-with_level (λ r _. before q r ≡ true) p f ls y s.0, with_level-IsSorted p f ls s.1)
      | inr y ↦ rw (x, y) s
    ]
  ]

  pub All-drop_level_if_empty {κ} :
      (P : ℤ → PriceLevel → Type κ) (p : ℤ) (ls : Levels)
      → AllLevels P ls
      → AllLevels P (drop_level_if_empty before p ls)
  unfolding drop_level_if_empty
  All-drop_level_if_empty P p [] a = tt
  All-drop_level_if_empty P p ((q, l) ∷ ls) a = elim (Bool-cases (before p q)) [
    | inl x ↦ rw x a
    | inr x ↦ elim (Bool-cases (before q p)) [
      | inl y ↦ rw (x, y) (a.0, All-drop_level_if_empty P p ls a.1)
      | inr y ↦ elim (Bool-cases (is_empty l.orders)) [
        | inl z ↦ rw (x, y, z) a.1
        | inr z ↦ rw (x, y, z) a
      ]
    ]
  ]

  pub drop_level_if_empty-IsSorted :
      (p : ℤ) (ls : Levels) → IsSorted ls → IsSorted (drop_level_if_empty before p ls)
  unfolding drop_level_if_empty
  drop_level_if_empty-IsSorted p [] s = tt
  drop_level_if_empty-IsSorted p ((q, l) ∷ ls) s = elim (Bool-cases (before p q)) [
    | inl x ↦ rw x s
    | inr x ↦ elim (Bool-cases (before q p)) [
      | inl y ↦
          rw (x, y)
            (
              All-drop_level_if_empty (λ r _. before q r ≡ true) p ls s.0,
              drop_level_if_empty-IsSorted p ls s.1,
            )
      | inr y ↦ elim (Bool-cases (is_empty l.orders)) [
        | inl z ↦ rw (x, y, z) s.1
        | inr z ↦ rw (x, y, z) s
      ]
    ]
  ]

  find_before :
      (j q : ℤ) (ls : Levels) → Above q ls → before j q ≡ true → find_level before j ls ≡ none
  unfolding find_level
  find_before j q [] a h = refl
  find_before j q ((r, l) ∷ ls) a h = rw (ord.trans j q r h a.0)

  pub find-Above : (p : ℤ) (ls : Levels) → Above p ls → find_level before p ls ≡ none
  unfolding find_level
  find-Above p [] a = refl
  find-Above p ((q, l) ∷ ls) a = rw a.0

  pub find-drop_level_if_empty_self :
      (p : ℤ) (ls : Levels)
      → IsSorted ls
      → find_level before p (drop_level_if_empty before p ls)
        ≡ unless_empty (find_level before p ls)
  unfolding find_level drop_level_if_empty
  find-drop_level_if_empty_self p [] s = refl
  find-drop_level_if_empty_self p ((q, l) ∷ ls) s =
      ground (arith, ord.connected p q, find-Above q ls s.0, find-drop_level_if_empty_self p ls s.1)

  pub find-drop_level_if_empty_ne :
      (p j : ℤ) (ls : Levels)
      → IsSorted ls
      → (before p j ≡ true) ⊎ (before j p ≡ true)
      → find_level before j (drop_level_if_empty before p ls) ≡ find_level before j ls
  unfolding find_level drop_level_if_empty
  find-drop_level_if_empty_ne p j [] s ne = refl
  find-drop_level_if_empty_ne p j ((q, l) ∷ ls) s ne = ground (
    arith,
    ord.connected p q,
    ord.asymm p j,
    find_before j q ls s.0,
    find-drop_level_if_empty_ne p j ls s.1 ne,
  )

  pub find_level_All {κ} :
      (P : ℤ → PriceLevel → Type κ) (p : ℤ) (ls : Levels) {l : PriceLevel}
      → AllLevels P ls
      → find_level before p ls ≡ some l
      → P p l
  unfolding find_level
  find_level_All P p [] a e = absurd (cc e)
  find_level_All P p ((q, l) ∷ ls) {l = m} a e = elim (Bool-cases (before p q)) [
    | inl x ↦ absurd (cc (rw x at e))
    | inr x ↦ elim (Bool-cases (before q p)) [
      | inl y ↦ find_level_All P p ls a.1 (rw (x, y) at e)
      | inr y ↦ subst₂ P (sym (ord.connected p q x y)) (same x y) a.0
    ]
  ]
    where
      same : before p q ≡ false → before q p ≡ false → l ≡ m
      same x y = ground arith

  -- A level that the writes left empty does not stay.
  pub drop-with_level_nonempty :
      (p : ℤ) (f : PriceLevel → PriceLevel) (ls : Levels)
      → AllLevels (λ _ l. is_empty l.orders ≡ false) ls
      → AllLevels
          (λ _ l. is_empty l.orders ≡ false)
          (drop_level_if_empty before p (with_level before p f ls))
  unfolding with_level drop_level_if_empty
  drop-with_level_nonempty p f [] a = elim (Bool-cases (is_empty (f new_level).orders)) [
    | inl z ↦ rw (ord.irrefl p, z) tt
    | inr z ↦ rw (ord.irrefl p, z) (z, tt)
  ]
  drop-with_level_nonempty p f ((q, l) ∷ ls) a = elim (Bool-cases (before p q)) [
    | inl x ↦ elim (Bool-cases (is_empty (f new_level).orders)) [
      | inl z ↦ rw (x, ord.irrefl p, z) a
      | inr z ↦ rw (x, ord.irrefl p, z) (z, a)
    ]
    | inr x ↦ elim (Bool-cases (before q p)) [
      | inl y ↦ rw (x, y, drop_level_if_empty, x, y) (a.0, drop-with_level_nonempty p f ls a.1)
      | inr y ↦ elim (Bool-cases (is_empty (f l).orders)) [
        | inl z ↦ rw (x, y, drop_level_if_empty, x, y, z) a.1
        | inr z ↦ rw (x, y, drop_level_if_empty, x, y, z) (z, a.1)
      ]
    ]
  ]
