-- ===== src/Pooled/FlatIndex/Insert.antt =====
-- `insert`: it adds one id, or finds it there.
use asterion.Prelude.{
  ℕ, ◌==◌, ◌≡◌, ◌≢◌, ◌<◌, refl, ap, sym, ◌∙◌, true, false, ◌&&◌, ◌⊎◌, inl, inr, none, some,
  if◌then◌else◌, length, Bool-cases, arith, ==-eq,
}
use asterion.Pooled.FlatIndex.{
  slot_at, entry, FlatOrderIndex, bucket, find, find_room, Room, taken, full, free, with_room,
  insert_with, insert, write_entry,
}
use asterion.Pooled.FlatIndex.Path.{
  locate-holds, find_room-IsFree, find_room-taken, find_room-located, find_room-ends,
}
use asterion.Pooled.FlatIndex.Slots.{
  Holds, bucket-lt, IsFree-slot, occupied_count-set, find-Holds, find-not-Holds, Holds-set,
  Holds-set_old, Holds-set_new, set-AllFiled,
}
use asterion.Pooled.FlatIndex.Rehash.{SameEntries, not-Holds}
use asterion.Pooled.FlatIndex.Map.{
  IsIndex, is_none, find-same, SameEntries-IsIndex, find-SameEntries, with_room_lem,
}

-- What an insert of an id that is not held does.
record Inserted (k v : ℕ) (x t : FlatOrderIndex) : Type 0 where
  index : IsIndex t
  from : (y u : ℕ) → Holds y u t.entries → ((k ≡ y) × (v ≡ u)) ⊎ Holds y u x.entries
  kept : (y u : ℕ) → Holds y u x.entries → Holds y u t.entries
  added : Holds k v t.entries

write_entry-Inserted :
    (k v i : ℕ) (x : FlatOrderIndex)
    → k ≢ 0
    → IsIndex x
    → ((u : ℕ) → Holds k u x.entries → ⊥)
    → 0 < length x.entries
    → find_room k x.entries none (length x.entries) (bucket k x.entries) ≡ free i
    → Inserted k v x (write_entry i k v x)
write_entry-Inserted k v i x nz w absent long h =
    let b = x.entries in
    let (can_write, in_range, at) =
      find_room-IsFree k b v (length b) (bucket k b) i (bucket-lt k b long) h in
    record {
      index = record {
        filed = set-AllFiled b i k v can_write in_range nz (not-Holds k b absent) at w.filed;
        sized = ground (arith, w.sized, occupied_count-set b i (entry k v) in_range can_write);
      };
      from = Holds-set b i k v can_write in_range;
      kept = Holds-set_old b i k v can_write in_range;
      added = Holds-set_new b i k v can_write in_range;
    }

pub Room-cases : (r : Room) → (r ≡ taken) ⊎ ((r ≡ full) ⊎ ((i : ℕ) × (r ≡ free i)))
Room-cases taken = inl refl
Room-cases full = inr (inl refl)
Room-cases (free i) = inr (inr (i, refl))

-- Once `insert` made room, its search meets a slot that is free.
pub with_room-not_full :
    (k : ℕ) (x : FlatOrderIndex)
    → IsIndex x
    → let b = (with_room x).entries in find_room k b none (length b) (bucket k b) ≢ full
with_room-not_full k x w h =
    let (same, roomy) = with_room_lem x w in
    let b = (with_room x).entries in
    let (s, l, f) = IsFree-slot b (omega (arith, same.as_many, w.sized, roomy)) in
    find_room-ends k b (bucket k b) s (bucket-lt k b (omega arith)) l f h

-- The outcomes of an insert: the id is held and the slots hold what they held, or it is added.
insert_lem :
    (k v : ℕ) (x : FlatOrderIndex)
    → k ≢ 0
    → IsIndex x
    → (((u : ℕ) × Holds k u x.entries)
        × ((insert k v x).1 ≡ false)
        × SameEntries x (insert k v x).0)
      ⊎ (((u : ℕ) → Holds k u x.entries → ⊥)
          × ((insert k v x).1 ≡ true)
          × ((t : FlatOrderIndex) × SameEntries x t × Inserted k v t (insert k v x).0))
unfolding insert insert_with
insert_lem k v x nz w =
    let (same, roomy) = with_room_lem x w in
    let t = with_room x in
    let b = t.entries in
    let named : k == 0 ≡ false = ground arith in
    elim (Room-cases (find_room k b none (length b) (bucket k b))) [
      | inr (inl stuck) ↦ absurd (with_room-not_full k x w stuck)
      | inl there ↦
          let (j, found) = find_room-taken k b none (length b) (bucket k b) there in
          let held : Holds k (slot_at b j).node_index b =
            (j, locate-holds k b (length b) (bucket k b) j found, refl) in
          rw (named, there, insert_with)
            (inl (((slot_at b j).node_index, same.from k _ held), refl, same))
      | inr (inr (i, new)) ↦
          let absent : (u : ℕ) → Holds k u b → ⊥ = λ u m. ground (
            arith,
            new,
            find_room-located k b none (length b) (bucket k b) m.0 (same.filed k m.0 m.1).1,
          ) in
          rw (named, new, insert_with)
            (inr (
              λ u m. absent u (same.kept k u m),
              refl,
              (
                t,
                same,
                write_entry-Inserted k v i t nz (SameEntries-IsIndex x t same) absent (omega arith)
                    new,
              ),
            ))
    ]

pub insert-IsIndex : (k v : ℕ) (x : FlatOrderIndex) → IsIndex x → IsIndex (insert k v x).0
unfolding insert insert_with
insert-IsIndex k v x w = elim (Bool-cases (k == 0)) [
  | inl e ↦ rw e w
  | inr e ↦ elim (insert_lem k v x (ground (arith, e)) w) [
    | inl (_, _, same) ↦ SameEntries-IsIndex x _ same
    | inr (_, _, (t, _, m)) ↦ m.index
  ]
]

find-Inserted :
    (k v : ℕ) (x t : FlatOrderIndex)
    → IsIndex x
    → Inserted k v x t
    → ((u : ℕ) → Holds k u x.entries → ⊥)
    → (y : ℕ) → find y t ≡ (if k == y then some v else find y x)
find-Inserted k v x t w m absent y = elim (Bool-cases (k == y)) [
  | inl e ↦ rw e (ap (λ z. find z t) (sym (==-eq k y e)) ∙ find-Holds t m.index.filed k v m.added)
  | inr e ↦ rw e (
      find-same x t y w m.index
        (λ u h. elim (m.from y u h) [
          | inl (same, _) ↦ absurd (ground (arith, e, same))
          | inr old ↦ old
        ])
        (m.kept y))
]

-- In an index whose entries are all where the loop for their id ends and whose size is their number, an
-- insert of an id other than 0 succeeds exactly if the id is not found; afterwards the id is found with
-- the new node index if it was not found before, and every other id as before, whether or not the
-- entries were moved to a larger table.
pub find-insert :
    (k v : ℕ) (x : FlatOrderIndex)
    → k ≢ 0
    → IsIndex x
    → ((insert k v x).1 ≡ is_none (find k x))
      × ((y : ℕ)
          → find y (insert k v x).0 ≡ (if is_none (find k x) && (k == y) then some v else find y x))
find-insert k v x nz w = elim (insert_lem k v x nz w) [
  | inl ((u, held), failed, same) ↦
      let known : find k x ≡ some u = find-Holds x w.filed k u held in
      (rw known failed, λ y. rw known (find-SameEntries x _ w same y))
  | inr (absent, done, (t, same, m)) ↦
      let unknown : find k x ≡ none = find-not-Holds x w.filed k absent in
      (
        rw unknown done,
        λ y.
            rw (unknown, sym (find-SameEntries x t w same y))
              (find-Inserted k v t _ (SameEntries-IsIndex x t same) m
                (λ u h. absent u (same.from k u h)) y),
      )
]
