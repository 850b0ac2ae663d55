-- ===== src/Gateway/ClientOrderIds/Buckets.antt =====
-- What the buckets hold, and that a write to the bucket where a loop ended keeps every id findable.
use asterion.Prelude.{
  ℕ, zero, suc, ◌==◌, ◌≡◌, ◌≢◌, ◌<◌, ◌⊎◌, inl, inr, refl, ap, sym, ◌∙◌, subst, Bool, true, some,
  List, [], ◌∷◌, if◌then◌else◌, length, get_or, set, get_or-set_self, get_or-set_ne, length-set,
  Bool-cases, arith, ==-eq,
}
use native.Mathlib.Nat.{mod-lt}
use asterion.Gateway.ClientOrderIds.{at_id, search_id, probe, mix, bucket_index}
use asterion.Gateway.ClientOrderIds.Probe.{probe-lt, probe-ends, probe-set, probe-set_self}

-- How many buckets are taken.
unfoldable pub occupied : List ℕ → ℕ
occupied [] = 0
occupied (x ∷ xs) = let rest = occupied xs in if x == 0 then rest else suc rest

-- An id stands in some bucket.
abbrev pub Stored : ℕ → List ℕ → Type 0
Stored x b = (k : ℕ) × (get_or b k 0 ≡ x)

-- The loop for an id ends at a bucket that holds it.
abbrev pub Filed : ℕ → List ℕ → Type 0
Filed x b = (k : ℕ) × (search_id (at_id x) x b ≡ some k) × (get_or b k 0 ≡ x)

abbrev pub AllFiled : List ℕ → Type 0
AllFiled b = (x : ℕ) → x ≢ 0 → Stored x b → Filed x b

pub occupied-set :
    (b : List ℕ) (j x : ℕ)
    → j < length b
    → get_or b j 0 ≡ 0
    → x ≢ 0
    → occupied (set b j x) ≡ suc (occupied b)
unfolding occupied set get_or
occupied-set [] j x l h nz = absurd (omega arith)
occupied-set (y ∷ ys) zero x l h nz = ground arith
occupied-set (y ∷ ys) (suc j) x l h nz = ground (arith, occupied-set ys j x)

-- Fewer ids than buckets: one bucket is free.
free_bucket : (b : List ℕ) → occupied b < length b → (e : ℕ) × (e < length b) × (get_or b e 0 ≡ 0)
unfolding occupied get_or
free_bucket [] h = absurd (omega arith)
free_bucket (y ∷ ys) h = elim (Bool-cases (y == 0)) [
  | inl e ↦ (0, omega arith, ==-eq y 0 e)
  | inr e ↦ let (k, l, f) = free_bucket ys (ground (arith, e)) in (suc k, omega arith, f)
]

bucket_index-lt : (x : ℕ) (b : List ℕ) → 0 < length b → bucket_index x b < length b
unfolding bucket_index
bucket_index-lt x b h = mod-lt (mix x) h

-- A loop that ends at empty buckets finds its end.
pub search_ends :
    (stop : ℕ → Bool) (x : ℕ) (b : List ℕ)
    → stop 0 ≡ true
    → occupied b < length b
    → (j : ℕ) × (search_id stop x b ≡ some j)
search_ends stop x b st h =
    let (e, l, f) = free_bucket b h in
    probe-ends stop b (bucket_index x b) e (bucket_index-lt x b (omega arith)) l (ap stop f ∙ st)

pub search_lt :
    (stop : ℕ → Bool) (x j : ℕ) (b : List ℕ)
    → search_id stop x b ≡ some j
    → occupied b < length b
    → j < length b
search_lt stop x j b h room =
    probe-lt stop b (length b) (bucket_index x b) j (bucket_index-lt x b (omega arith)) h

module _ (b : List ℕ) (j x : ℕ) (free : get_or b j 0 ≡ 0) (l : j < length b) where
  pub Stored-set : (y : ℕ) → y ≢ 0 → Stored y (set b j x) → (x ≡ y) ⊎ Stored y b
  Stored-set y nz (k, e) = elim (Bool-cases (j == k)) [
    | inl q ↦
        inl (sym (get_or-set_self b j x 0 l) ∙ ap (λ t. get_or (set b j x) t 0) (==-eq j k q) ∙ e)
    | inr q ↦ inr (k, sym (get_or-set_ne b j k x 0 (ground (arith, q))) ∙ e)
  ]

  pub Stored-set_old : (y : ℕ) → y ≢ 0 → Stored y b → Stored y (set b j x)
  Stored-set_old y nz (k, e) =
      (k, get_or-set_ne b j k x 0 (λ q. nz (sym e ∙ ap (λ t. get_or b t 0) (sym q) ∙ free)) ∙ e)

  search-set :
      (stop : ℕ → Bool) (y : ℕ)
      → search_id stop y (set b j x) ≡ probe stop (set b j x) (length b) (bucket_index y b)
  unfolding bucket_index
  search-set stop y = rw (length-set b j x) refl

  -- A write where the loop for the id ended keeps every id findable.
  pub set-AllFiled :
      (stop : ℕ → Bool)
      → stop 0 ≡ true
      → x ≢ 0
      → search_id stop x b ≡ some j
      → AllFiled b
      → AllFiled (set b j x)
  set-AllFiled stop st nz h filed y ny stored = elim (Stored-set y ny stored) [
    | inl e ↦
        let (k, found, holds) =
          probe-set_self b j x free stop (length b) (bucket_index x b) st nz l h in
        subst (λ t. Filed t (set b j x)) e (k, search-set (at_id x) x ∙ found, holds)
    | inr old ↦
        let (k, found, holds) = filed y ny old in
        (
          k,
          search-set (at_id y) y
              ∙ probe-set b j x free y (length b) (bucket_index y b) k ny found holds,
          get_or-set_ne b j k x 0 (λ q. ny (sym holds ∙ ap (λ t. get_or b t 0) (sym q) ∙ free))
              ∙ holds,
        )
  ]
