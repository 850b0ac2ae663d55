-- ===== src/Gateway/ClientOrderIds/Reinsert.antt =====
-- The loop of `rehash`: what it moves into the new buckets.
use asterion.Prelude.{
  ℕ, zero, suc, ◌+◌, ◌==◌, ◌≡◌, ◌≢◌, ◌<◌, ◌⊎◌, inl, inr, refl, sym, ◌∙◌, Bool, true, some, List, [],
  ◌∷◌, length, get_or, set, get_or-set_self, length-set, Bool-cases, arith, ==-eq,
}
use asterion.Gateway.ClientOrderIds.{ClientOrderIdSet, at_empty, search_id, reinsert, reinsert_all}
use asterion.Gateway.ClientOrderIds.Probe.{probe-stops}
use asterion.Gateway.ClientOrderIds.Buckets.{
  occupied, Stored, AllFiled, occupied-set, search_ends, search_lt, Stored-set, Stored-set_old,
  set-AllFiled,
}

pub not_stored : (x k : ℕ) → x ≢ 0 → get_or [] k 0 ≢ x
unfolding get_or
not_stored x k nz e = nz (sym e)

-- The effect of putting ids into buckets with room for them.
pub record Reinserted (ids : List ℕ) (s t : ClientOrderIdSet) : Type 0 where
  pub filed : AllFiled t.buckets
  pub taken : occupied t.buckets ≡ occupied s.buckets + occupied ids
  pub as_long : length t.buckets ≡ length s.buckets
  pub sized : t.size ≡ s.size + occupied ids
  pub as_flagged : t.contains_zero ≡ s.contains_zero
  pub from : (y : ℕ) → y ≢ 0 → Stored y t.buckets → Stored y ids ⊎ Stored y s.buckets
  pub kept : (y : ℕ) → y ≢ 0 → Stored y s.buckets → Stored y t.buckets
  pub added : (y : ℕ) → y ≢ 0 → Stored y ids → Stored y t.buckets

Stored-cons : (x y : ℕ) (ids : List ℕ) → Stored y ids → Stored y (x ∷ ids)
unfolding get_or
Stored-cons x y ids (k, e) = (suc k, e)

pub Stored-head : (x y : ℕ) (ids : List ℕ) → x ≡ y → Stored y (x ∷ ids)
unfolding get_or
Stored-head x y ids e = (0, e)

pub Stored-cons_cases : (x y : ℕ) (ids : List ℕ) → Stored y (x ∷ ids) → (x ≡ y) ⊎ Stored y ids
unfolding get_or
Stored-cons_cases x y ids (zero, e) = inl e
Stored-cons_cases x y ids (suc k, e) = inr (k, e)

get_or-unoccupied : (ids : List ℕ) (k : ℕ) → occupied ids ≡ 0 → get_or ids k 0 ≡ 0
unfolding occupied get_or
get_or-unoccupied [] k h = refl
get_or-unoccupied (x ∷ ids) zero h = ground arith
get_or-unoccupied (x ∷ ids) (suc k) h = get_or-unoccupied ids k (ground arith)

Reinserted-none :
    (ids : List ℕ) (s : ClientOrderIdSet)
    → occupied ids ≡ 0
    → AllFiled s.buckets
    → Reinserted ids s s
Reinserted-none ids s nothing filed = record {
  filed = filed;
  taken = omega arith;
  as_long = refl;
  sized = omega arith;
  as_flagged = refl;
  from = λ y ny e. inr e;
  kept = λ y ny e. e;
  added = λ y ny e. absurd (ny (sym e.1 ∙ get_or-unoccupied ids e.0 nothing));
}

-- A write of an id to the bucket where a loop for it ended.
pub Reinserted-write :
    (stop : ℕ → Bool) (x j : ℕ) (s : ClientOrderIdSet)
    → stop 0 ≡ true
    → x ≢ 0
    → get_or s.buckets j 0 ≡ 0
    → search_id stop x s.buckets ≡ some j
    → occupied s.buckets < length s.buckets
    → AllFiled s.buckets
    → Reinserted (x ∷ []) s (record s { buckets = set s.buckets j x; size = suc s.size })
unfolding occupied
Reinserted-write stop x j s st nz free h room filed =
    let l = search_lt stop x j s.buckets h room in
    record {
      filed = set-AllFiled s.buckets j x free l stop st nz h filed;
      taken = ground (arith, occupied-set s.buckets j x l free nz);
      as_long = length-set s.buckets j x;
      sized = ground arith;
      as_flagged = refl;
      from = λ y ny e. elim (Stored-set s.buckets j x free l y ny e) [
        | inl q ↦ inl (Stored-head x y [] q)
        | inr old ↦ inr old
      ];
      kept = λ y ny e. Stored-set_old s.buckets j x free l y ny e;
      added = λ y ny e. elim (Stored-cons_cases x y [] e) [
        | inl q ↦ (j, get_or-set_self s.buckets j x 0 l ∙ q)
        | inr (k, none_left) ↦ absurd (not_stored y k ny none_left)
      ];
    }

-- One turn of the loop of `rehash`, and the whole loop, with room for all the ids.
reinsert_lem :
    (x : ℕ) (s : ClientOrderIdSet)
    → occupied s.buckets + occupied (x ∷ []) < length s.buckets
    → AllFiled s.buckets
    → Reinserted (x ∷ []) s (reinsert x s)
unfolding reinsert occupied
reinsert_lem x s room filed = elim (Bool-cases (x == 0)) [
  | inl zero_id ↦ rw zero_id (Reinserted-none (x ∷ []) s (ground (arith, zero_id)) filed)
  | inr nz ↦
      let (j, found) = search_ends at_empty x s.buckets refl (ground (arith, nz)) in
      let write =
        Reinserted-write at_empty x j s refl (ground (arith, nz))
          (==-eq _ 0 (probe-stops at_empty s.buckets (length s.buckets) _ j found)) found
          (ground (arith, nz)) filed in
      rw (nz, found) write
]

Reinserted-cons :
    (x : ℕ) (ids : List ℕ) (s t u : ClientOrderIdSet)
    → Reinserted (x ∷ []) s t
    → Reinserted ids t u
    → Reinserted (x ∷ ids) s u
unfolding occupied
Reinserted-cons x ids s t u a b = record {
  filed = b.filed;
  taken = ground (arith, a.taken, b.taken);
  as_long = b.as_long ∙ a.as_long;
  sized = ground (arith, a.sized, b.sized);
  as_flagged = b.as_flagged ∙ a.as_flagged;
  from = λ y ny e. elim (b.from y ny e) [
    | inl late ↦ inl (Stored-cons x y ids late)
    | inr old ↦ elim (a.from y ny old) [
      | inl first ↦ elim (Stored-cons_cases x y [] first) [
        | inl q ↦ inl (Stored-head x y ids q)
        | inr nowhere ↦ absurd (not_stored y nowhere.0 ny nowhere.1)
      ]
      | inr before ↦ inr before
    ]
  ];
  kept = λ y ny e. b.kept y ny (a.kept y ny e);
  added = λ y ny e. elim (Stored-cons_cases x y ids e) [
    | inl q ↦ b.kept y ny (a.added y ny (Stored-head x y [] q))
    | inr later ↦ b.added y ny later
  ];
}

pub reinsert_all_lem :
    (ids : List ℕ) (s : ClientOrderIdSet)
    → occupied s.buckets + occupied ids < length s.buckets
    → AllFiled s.buckets
    → Reinserted ids s (reinsert_all ids s)
unfolding reinsert_all occupied
reinsert_all_lem [] s room filed = Reinserted-none [] s refl filed
reinsert_all_lem (x ∷ ids) s room filed =
    let first = reinsert_lem x s (ground arith) filed in
    let more =
      reinsert_all_lem ids (reinsert x s) (ground (arith, first.taken, first.as_long))
        first.filed in
    Reinserted-cons x ids s (reinsert x s) (reinsert_all ids (reinsert x s)) first more
