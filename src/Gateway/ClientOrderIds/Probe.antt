-- ===== src/Gateway/ClientOrderIds/Probe.antt =====
-- The loops over the buckets: where they end, that they end, and what a write to an empty bucket
-- changes for them.
use asterion.Prelude.{
  ℕ, zero, suc, ◌+◌, ◌%◌, ◌≡◌, ◌≢◌, ◌<◌, refl, ap, sym, ◌∙◌, Bool, true, inl, inr, some, List,
  length, get_or, set, if_true, if_false, get_or-set_self, get_or-set_ne, length-set, Bool-cases,
  arith,
}
use native.Mathlib.Nat.{mod-eq_of_lt, add-zero}
use asterion.Prelude.Cyclic.{next-lt, step_ahead, around}
use asterion.Gateway.ClientOrderIds.{probe, at_id}

pub probe-stops :
    (stop : ℕ → Bool) (b : List ℕ) (fuel i j : ℕ)
    → probe stop b fuel i ≡ some j
    → stop (get_or b j 0) ≡ true
unfolding probe
probe-stops stop b zero i j h = cc
probe-stops stop b (suc fuel) i j h = elim (Bool-cases (stop (get_or b i 0))) [
  | inl e ↦ ground (arith, e)
  | inr e ↦ probe-stops stop b fuel ((i + 1) % length b) j (ground (arith, e))
]

pub probe-lt :
    (stop : ℕ → Bool) (b : List ℕ) (fuel i j : ℕ)
    → i < length b
    → probe stop b fuel i ≡ some j
    → j < length b
unfolding probe
probe-lt stop b zero i j l h = cc
probe-lt stop b (suc fuel) i j l h = elim (Bool-cases (stop (get_or b i 0))) [
  | inl e ↦ ground (arith, e)
  | inr e ↦ probe-lt stop b fuel ((i + 1) % length b) j (next-lt (length b) i l) (ground (arith, e))
]

-- A bucket where the loop ends, `d` steps ahead, ends it.
probe-ahead :
    (stop : ℕ → Bool) (b : List ℕ) (fuel d i : ℕ)
    → i < length b
    → d < fuel
    → stop (get_or b ((i + d) % length b) 0) ≡ true
    → (j : ℕ) × (probe stop b fuel i ≡ some j)
unfolding probe
probe-ahead stop b zero d i l h e = absurd (omega arith)
probe-ahead stop b (suc fuel) zero i l h e =
    let here : (i + 0) % length b ≡ i = rw add-zero (mod-eq_of_lt l) in
    let ends : stop (get_or b i 0) ≡ true = ap (λ k. stop (get_or b k 0)) (sym here) ∙ e in
    (i, if_true _ _ ends)
probe-ahead stop b (suc fuel) (suc d) i l h e = elim (Bool-cases (stop (get_or b i 0))) [
  | inl ends ↦ (i, if_true _ _ ends)
  | inr on ↦
      let (j, found) =
        probe-ahead stop b fuel d ((i + 1) % length b) (next-lt (length b) i l) (omega arith)
          (ap (λ k. stop (get_or b k 0)) (step_ahead (length b) d i) ∙ e) in
      (j, if_false _ _ on ∙ found)
]

-- So one empty bucket, anywhere, is enough: the loop visits every bucket.
pub probe-ends :
    (stop : ℕ → Bool) (b : List ℕ) (i e : ℕ)
    → i < length b
    → e < length b
    → stop (get_or b e 0) ≡ true
    → (j : ℕ) × (probe stop b (length b) i ≡ some j)
probe-ends stop b i e l m h =
    let (d, near, there) = around (length b) i e l m in
    probe-ahead stop b (length b) d i l near (ap (λ k. stop (get_or b k 0)) there ∙ h)

module _ (b : List ℕ) (j x : ℕ) (free : get_or b j 0 ≡ 0) where
  -- An id that was found is found at the same bucket.
  pub probe-set :
      (y : ℕ) (fuel i k : ℕ)
      → y ≢ 0
      → probe (at_id y) b fuel i ≡ some k
      → get_or b k 0 ≡ y
      → probe (at_id y) (set b j x) fuel i ≡ some k
  unfolding probe
  probe-set y zero i k nz h e = cc
  probe-set y (suc fuel) i k nz h e = elim (Bool-cases (at_id y (get_or b i 0))) [
    | inl ends ↦
        let here : i ≡ k = ground (arith, ends) in
        let same : get_or (set b j x) i 0 ≡ get_or b i 0 =
          get_or-set_ne b j i x 0
            (λ q. nz (sym e ∙ ap (λ t. get_or b t 0) (sym here ∙ sym q) ∙ free)) in
        ground (arith, ends, same)
    | inr on ↦
        let same : get_or (set b j x) i 0 ≡ get_or b i 0 =
          get_or-set_ne b j i x 0 (λ q. ground (arith, on, ap (λ t. get_or b t 0) q)) in
        rw (same, on, length-set b j x)
          (probe-set y fuel ((i + 1) % length b) k nz (ground (arith, on)) e)
  ]

  -- Where a loop with any end at empty buckets came to the bucket, the id that is written there is
  -- found.
  pub probe-set_self :
      (stop : ℕ → Bool) (fuel i : ℕ)
      → stop 0 ≡ true
      → x ≢ 0
      → j < length b
      → probe stop b fuel i ≡ some j
      → (k : ℕ) × (probe (at_id x) (set b j x) fuel i ≡ some k) × (get_or (set b j x) k 0 ≡ x)
  unfolding probe
  probe-set_self stop zero i st nz l h = cc
  probe-set_self stop (suc fuel) i st nz l h = elim (Bool-cases (stop (get_or b i 0))) [
    | inl ends ↦
        let here : i ≡ j = ground (arith, ends) in
        let written : get_or (set b j x) i 0 ≡ x =
          ap (λ t. get_or (set b j x) t 0) here ∙ get_or-set_self b j x 0 l in
        (i, ground (arith, written), written)
    | inr on ↦
        let same : get_or (set b j x) i 0 ≡ get_or b i 0 =
          get_or-set_ne b j i x 0 (λ q. ground (arith, on, st, free, ap (λ t. get_or b t 0) q)) in
        let (k, found, holds) =
          probe-set_self stop fuel ((i + 1) % length b) st nz l (ground (arith, on)) in
        elim (Bool-cases (at_id x (get_or b i 0))) [
          | inl met ↦ (i, rw (same, met) refl, ground (arith, same, met, on, st, ap stop {x = 0}))
          | inr past ↦ (k, rw (same, past, length-set b j x) found, holds)
        ]
  ]
