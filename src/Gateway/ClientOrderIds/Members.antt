-- ===== src/Gateway/ClientOrderIds/Members.antt =====
-- The set of ids: its invariant, and what it holds after each call.
use asterion.Prelude.{
  ℕ, zero, suc, ◌+◌, ◌*◌, ◌==◌, ◌≡◌, ◌≢◌, ◌≤◌, ◌<◌, ◌↔◌, ◌⊎◌, inl, inr, refl, sym, ◌∙◌, subst, Bool,
  true, false, ◌||◌, List, [], ◌∷◌, if◌then◌else◌, length, is_empty, replicate, get_or,
  get_or-replicate, length-replicate, Bool-cases, Option-cases, leb, ltb, arith, ==-eq,
}
use asterion.Gateway.ClientOrderIds.{
  ClientOrderIdSet, empty_ids, at_id, search_id, contains, rehash, reserve, insert_at, with_room,
  insert, bucket_count_for, double_until,
}
use asterion.Gateway.ClientOrderIds.Probe.{probe-stops}
use asterion.Gateway.ClientOrderIds.Reinsert.{
  Reinserted-write, reinsert_all_lem, not_stored, Stored-head, Stored-cons_cases,
}
use asterion.Gateway.ClientOrderIds.Buckets.{occupied, Stored, AllFiled, search_ends}

abbrev pub flag : Bool → ℕ
flag true = 1
flag false = 0

-- Every id stands where the loop for it looks, and a bucket is free.
pub record IsHashed (s : ClientOrderIdSet) : Type 0 where
  pub filed : AllFiled s.buckets
  pub sized : s.size ≡ occupied s.buckets + flag s.contains_zero
  pub loaded : is_empty s.buckets ≡ false → occupied s.buckets < length s.buckets

get_or-is_empty : (b : List ℕ) (k : ℕ) → is_empty b ≡ true → get_or b k 0 ≡ 0
unfolding get_or
get_or-is_empty [] k h = refl
get_or-is_empty (x ∷ b) k h = cc

-- What `contains` finds is what some bucket holds.
pub contains-Stored :
    (x : ℕ) (s : ClientOrderIdSet) → x ≢ 0 → IsHashed s → (contains x s ≡ true) ↔ Stored x s.buckets
unfolding contains
contains-Stored x s nz h = (there, back)
  where
    there : contains x s ≡ true → Stored x s.buckets
    there e = elim (Option-cases (search_id (at_id x) x s.buckets)) [
      | inl lost ↦ absurd (ground (arith, lost))
      | inr (k, found) ↦ (k, ground (arith, found))
    ]

    back : Stored x s.buckets → contains x s ≡ true
    back (k, e) = elim (Bool-cases (is_empty s.buckets)) [
      | inl none_left ↦ absurd (nz (sym e ∙ get_or-is_empty s.buckets k none_left))
      | inr some_left ↦
          let (m, found, holds) = h.filed x nz (k, e) in ground (arith, some_left, found, holds)
    ]

double_until-ge :
    (fuel target c : ℕ) → target ≤ c + fuel → 1 ≤ c → target ≤ double_until fuel target c
unfolding double_until
double_until-ge zero target c h one = omega arith
double_until-ge (suc fuel) target c h one = ground (arith, double_until-ge fuel target (c * 2))

-- There are at least twice as many buckets as ids are expected.
pub bucket_count_for-ge : (n : ℕ) → n * 2 ≤ bucket_count_for n
unfolding bucket_count_for
bucket_count_for-ge n =
    let target = if ltb n 8 then 16 else n * 2 in ground (arith, double_until-ge target target 16)

occupied-replicate : (n : ℕ) → occupied (replicate n 0) ≡ 0
unfolding occupied replicate
occupied-replicate zero = refl
occupied-replicate (suc n) = occupied-replicate n

-- The effect of a call that adds no id.
pub record SameIds (s t : ClientOrderIdSet) : Type 0 where
  pub hashed : IsHashed t
  pub as_big : t.size ≡ s.size
  pub as_flagged : t.contains_zero ≡ s.contains_zero
  pub from : (y : ℕ) → y ≢ 0 → Stored y t.buckets → Stored y s.buckets
  pub kept : (y : ℕ) → y ≢ 0 → Stored y s.buckets → Stored y t.buckets

SameIds-refl : (s : ClientOrderIdSet) → IsHashed s → SameIds s s
SameIds-refl s h = record {
  hashed = h;
  as_big = refl;
  as_flagged = refl;
  from = λ y ny e. e;
  kept = λ y ny e. e;
}

rehash_lem :
    (n : ℕ) (s : ClientOrderIdSet)
    → IsHashed s
    → occupied s.buckets < n
    → SameIds s (rehash n s) × (length (rehash n s).buckets ≡ n)
unfolding rehash
rehash_lem n s h room =
    let fresh : ClientOrderIdSet = record s {
      buckets = replicate n 0;
      size = if s.contains_zero then 1 else 0;
    } in
    let none_filed : AllFiled (replicate n 0) =
      λ y ny e. absurd (ny (sym e.1 ∙ get_or-replicate n e.0 0)) in
    let moved =
      reinsert_all_lem s.buckets fresh
        (omega (arith, occupied-replicate n, length-replicate {A = ℕ} n 0)) none_filed in
    (
      record {
        hashed = record {
          filed = moved.filed;
          sized = ground (arith, moved.sized, moved.taken, moved.as_flagged, occupied-replicate n);
          loaded = λ _. omega (
            arith,
            moved.taken,
            moved.as_long,
            occupied-replicate n,
            length-replicate {A = ℕ} n 0,
          );
        };
        as_big = ground (arith, moved.sized, h.sized);
        as_flagged = moved.as_flagged;
        from = λ y ny e. elim (moved.from y ny e) [
          | inl old ↦ old
          | inr fresh_one ↦ absurd (ny (sym fresh_one.1 ∙ get_or-replicate n fresh_one.0 0))
        ];
        kept = moved.added;
      },
      moved.as_long ∙ length-replicate {A = ℕ} n 0,
    )

with_room_lem :
    (s : ClientOrderIdSet)
    → IsHashed s
    → SameIds s (with_room s) × (occupied (with_room s).buckets + 1 < length (with_room s).buckets)
unfolding with_room
with_room_lem s h =
    elim (Bool-cases (is_empty s.buckets || leb (length s.buckets) ((s.size + 1) * 2))) [
      | inl full ↦
          let n = bucket_count_for (s.size + 1) in
          let (same, size) =
            rehash_lem n s h (omega (arith, h.sized, bucket_count_for-ge (s.size + 1))) in
          rw full (
            same,
            omega (arith, size, same.as_big, same.hashed.sized, bucket_count_for-ge (s.size + 1)),
          )
      | inr room ↦ rw room (SameIds-refl s h, ground (arith, room, h.sized))
    ]

-- The effect of a call that adds one id.
record Inserted (x : ℕ) (s t : ClientOrderIdSet) : Type 0 where
  hashed : IsHashed t
  from : (y : ℕ) → y ≢ 0 → Stored y t.buckets → (x ≡ y) ⊎ Stored y s.buckets
  kept : (y : ℕ) → y ≢ 0 → Stored y s.buckets → Stored y t.buckets
  added : Stored x t.buckets
  as_flagged : t.contains_zero ≡ s.contains_zero

insert_at_lem :
    (x : ℕ) (s : ClientOrderIdSet)
    → x ≢ 0
    → IsHashed s
    → occupied s.buckets + 1 < length s.buckets
    → Inserted x s (insert_at x s)
unfolding insert_at
insert_at_lem x s nz h room =
    let (j, found) = search_ends (at_id x) x s.buckets (ground arith) (omega arith) in
    let ends = probe-stops (at_id x) s.buckets (length s.buckets) _ j found in
    elim (Bool-cases (get_or s.buckets j 0 == x)) [
      | inl there ↦
          rw (found, insert_at, there)
            (record {
              hashed = h;
              from = λ y ny e. inr e;
              kept = λ y ny e. e;
              added = (j, ==-eq _ x there);
              as_flagged = refl;
            })
      | inr fresh ↦
          let w =
            Reinserted-write (at_id x) x j s (ground arith) nz (ground (arith, ends, fresh)) found
              (omega arith) h.filed in
          rw (found, insert_at, fresh)
            (record {
              hashed = record {
                filed = w.filed;
                sized = ground (arith, w.sized, w.taken, h.sized);
                loaded = λ _. ground (arith, w.taken, w.as_long, nz);
              };
              from = λ y ny e. elim (w.from y ny e) [
                | inl new ↦ elim (Stored-cons_cases x y [] new) [
                  | inl q ↦ inl q
                  | inr nowhere ↦ absurd (not_stored y nowhere.0 ny nowhere.1)
                ]
                | inr old ↦ inr old
              ];
              kept = w.kept;
              added = w.added x nz (Stored-head x x [] refl);
              as_flagged = refl;
            })
    ]

iff_eq : (a b : Bool) → (a ≡ true → b ≡ true) → (b ≡ true → a ≡ true) → a ≡ b
iff_eq a b f g = ground arith

insert_lem : (x : ℕ) (s : ClientOrderIdSet) → x ≢ 0 → IsHashed s → Inserted x s (insert x s)
unfolding insert
insert_lem x s nz h =
    let (same, room) = with_room_lem s h in
    let i = insert_at_lem x (with_room s) nz same.hashed room in
    let fresh : x == 0 ≡ false = ground arith in
    rw fresh (record {
      hashed = i.hashed;
      from = λ y ny e. elim (i.from y ny e) [ inl q ↦ inl q | inr old ↦ inr (same.from y ny old) ];
      kept = λ y ny e. i.kept y ny (same.kept y ny e);
      added = i.added;
      as_flagged = i.as_flagged ∙ same.as_flagged;
    })

pub empty_ids-IsHashed : IsHashed empty_ids
unfolding occupied
empty_ids-IsHashed = record {
  filed = λ y ny e. absurd (not_stored y e.0 ny e.1);
  sized = refl;
  loaded = λ h. absurd (ground arith);
}

pub insert-IsHashed : (x : ℕ) (s : ClientOrderIdSet) → IsHashed s → IsHashed (insert x s)
unfolding insert
insert-IsHashed x s h = elim (Bool-cases (x == 0)) [
  | inl zero_id ↦ elim (Bool-cases s.contains_zero) [
    | inl there ↦
        rw (zero_id, there)
          (record { filed = h.filed; sized = ground (arith, h.sized, there); loaded = h.loaded })
    | inr fresh ↦
        rw (zero_id, fresh)
          (record { filed = h.filed; sized = ground (arith, h.sized, fresh); loaded = h.loaded })
  ]
  | inr nz ↦ (insert_lem x s (ground (arith, nz)) h).hashed
]

contains_zero_lem : (s : ClientOrderIdSet) → contains 0 s ≡ s.contains_zero
unfolding contains
contains_zero_lem s = refl

insert_zero : (y : ℕ) (s : ClientOrderIdSet) → contains y (insert 0 s) ≡ ((0 == y) || contains y s)
unfolding insert contains
insert_zero y s = ground arith

-- In a set where every id stands where it is looked for, an id is held after an insert exactly if it is
-- the one that was inserted or was held before.
pub contains-insert :
    (x y : ℕ) (s : ClientOrderIdSet)
    → IsHashed s
    → contains y (insert x s) ≡ ((x == y) || contains y s)
contains-insert x y s h = elim (Bool-cases (x == 0)) [
  | inl zero_id ↦ rw (==-eq x 0 zero_id) (insert_zero y s)
  | inr nz ↦
      let i = insert_lem x s (ground (arith, nz)) h in
      elim (Bool-cases (y == 0)) [
        | inl zero_id ↦
            rw
              (==-eq y 0 zero_id, contains_zero_lem (insert x s), i.as_flagged, contains_zero_lem s)
              (ground (arith, nz))
        | inr ny ↦
            let (found, back) = contains-Stored y (insert x s) (ground (arith, ny)) i.hashed in
            let (found', back') = contains-Stored y s (ground (arith, ny)) h in
            iff_eq (contains y (insert x s)) ((x == y) || contains y s)
              (λ e. elim (i.from y (ground (arith, ny)) (found e)) [
                | inl q ↦ ground (arith, q)
                | inr old ↦ ground (arith, back' old)
              ])
              (λ e. elim (Bool-cases (x == y)) [
                | inl q ↦ back (subst (λ t. Stored t (insert x s).buckets) (==-eq x y q) i.added)
                | inr other ↦ back (i.kept y (ground (arith, ny)) (found' (ground (arith, other))))
              ])
      ]
]

occupied-le : (b : List ℕ) → occupied b ≤ length b
unfolding occupied
occupied-le [] = omega arith
occupied-le (x ∷ b) = ground (arith, occupied-le b)

-- Room for more ids changes none of them.
module _ (n : ℕ) (s : ClientOrderIdSet) (h : IsHashed s) where
  reserve_lem : SameIds s (reserve n s)
  unfolding reserve
  reserve_lem = elim (Bool-cases (ltb (length s.buckets) (bucket_count_for n))) [
    | inl e ↦
        rw e (rehash_lem (bucket_count_for n) s h (ground (arith, e, occupied-le s.buckets))).0
    | inr e ↦ rw e (SameIds-refl s h)
  ]

  pub reserve-IsHashed : IsHashed (reserve n s)
  reserve-IsHashed = reserve_lem.hashed

  pub contains-reserve : (y : ℕ) → contains y (reserve n s) ≡ contains y s
  contains-reserve y = elim (Bool-cases (y == 0)) [
    | inl e ↦
        rw (==-eq y 0 e, contains_zero_lem (reserve n s), contains_zero_lem s)
          reserve_lem.as_flagged
    | inr e ↦
        let ny : y ≢ 0 = ground (arith, e) in
        let (found, back) = contains-Stored y (reserve n s) ny reserve-IsHashed in
        let (found', back') = contains-Stored y s ny h in
        iff_eq (contains y (reserve n s)) (contains y s)
          (λ i. back' (reserve_lem.from y ny (found i)))
          (λ i. back (reserve_lem.kept y ny (found' i)))
  ]
