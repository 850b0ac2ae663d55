-- ===== src/Pooled/FlatIndex/Map.antt =====
-- The index as a map from order ids to node indices: what `find` gives in
-- terms of what the slots hold, and the room that `insert` makes first.
use asterion.Prelude.{
  ℕ, zero, suc, ◌+◌, ◌*◌, ◌==◌, ◌≡◌, ◌≤◌, ◌<◌, refl, sym, ◌∙◌, Bool, true, false, ◌||◌, inl, inr,
  Option, none, some, length, is_empty, max, ltb, Bool-cases, Option-cases, arith,
}
use asterion.Pooled.FlatIndex.{
  FlatOrderIndex, slot_of, find, double_capacity, next_capacity, with_room,
}
use asterion.Pooled.FlatIndex.Path.{locate-holds}
use asterion.Pooled.FlatIndex.Slots.{Holds, AllFiled, occupied_count, find-Holds, find-not-Holds}
use asterion.Pooled.FlatIndex.Rehash.{SameEntries, rehash_lem}

pub record IsIndex (x : FlatOrderIndex) : Type 0 where
  pub filed : AllFiled x.entries
  pub sized : x.size ≡ occupied_count x.entries

abbrev pub is_none : Option ℕ → Bool
is_none none = true
is_none (some _) = false

-- An id that `find` finds is held with that index.
pub find-found : (x : FlatOrderIndex) (k v : ℕ) → find k x ≡ some v → Holds k v x.entries
unfolding find
find-found x k v h = elim (Bool-cases (is_empty x.entries || (k == 0))) [
  | inl e ↦ absurd (ground (arith, e))
  | inr e ↦ elim (Option-cases (slot_of k x.entries)) [
    | inl lost ↦ absurd (ground (arith, e, lost))
    | inr (i, there) ↦
        (i, locate-holds k x.entries (length x.entries) _ i there, ground (arith, e, there))
  ]
]

pub find-apart :
    (x : FlatOrderIndex) → IsIndex x → (k u : ℕ) → find k x ≡ none → Holds k u x.entries → ⊥
find-apart x w k u h m = ground (arith, find-Holds x w.filed k u m)

-- Two indices whose slots hold an id alike find it alike.
pub find-same :
    (x t : FlatOrderIndex) (y : ℕ)
    → IsIndex x
    → IsIndex t
    → ((u : ℕ) → Holds y u t.entries → Holds y u x.entries)
    → ((u : ℕ) → Holds y u x.entries → Holds y u t.entries)
    → find y t ≡ find y x
find-same x t y w z from kept = elim (Option-cases (find y x)) [
  | inr (v, h) ↦ find-Holds t z.filed y v (kept v (find-found x y v h)) ∙ sym h
  | inl h ↦ find-not-Holds t z.filed y (λ u m. find-apart x w y u h (from u m)) ∙ sym h
]

double_capacity-ge : (fuel n c : ℕ) → 0 < c → n ≤ fuel + c → n ≤ double_capacity fuel n c
unfolding double_capacity
double_capacity-ge zero n c p h = omega arith
double_capacity-ge (suc f) n c p h =
    ground (arith, double_capacity-ge f n (c * 2) (omega arith) (omega arith))

pub next_capacity-ge : (n : ℕ) → n * 4 ≤ next_capacity n
unfolding next_capacity
next_capacity-ge n =
    let target = max 8 (n * 4) in ground (arith, double_capacity-ge target target 8)

pub SameEntries-refl : (x : FlatOrderIndex) → IsIndex x → SameEntries x x
SameEntries-refl x w = record {
  filed = w.filed;
  sized = w.sized;
  as_many = refl;
  from = λ y u h. h;
  kept = λ y u h. h;
}

pub SameEntries-IsIndex : (x t : FlatOrderIndex) → SameEntries x t → IsIndex t
SameEntries-IsIndex x t s = record { filed = s.filed; sized = s.sized }

pub find-SameEntries :
    (x t : FlatOrderIndex) → IsIndex x → SameEntries x t → (y : ℕ) → find y t ≡ find y x
find-SameEntries x t w s y = find-same x t y w (SameEntries-IsIndex x t s) (s.from y) (s.kept y)

-- After it the index is at most half full, one more entry included.
pub with_room_lem :
    (x : FlatOrderIndex)
    → IsIndex x
    → SameEntries x (with_room x) × ((x.size + 1) * 2 ≤ length (with_room x).entries)
unfolding with_room
with_room_lem x w =
    elim (Bool-cases (is_empty x.entries || ltb (length x.entries) ((x.size + 1) * 2))) [
      | inl e ↦
          let n = next_capacity (x.size + 1) in
          let (same, long) =
            rehash_lem n x w.filed (omega (arith, w.sized, next_capacity-ge (x.size + 1))) in
          rw e (same, omega (arith, long, next_capacity-ge (x.size + 1)))
      | inr e ↦ rw e (SameEntries-refl x w, ground (arith, e))
    ]
