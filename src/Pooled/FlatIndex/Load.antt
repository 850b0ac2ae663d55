-- ===== src/Pooled/FlatIndex/Load.antt =====
-- The load of the index: how many of its entries are in use.
use asterion.Prelude.{
  ℕ, ◌*◌, ◌==◌, ◌≡◌, ◌≤◌, ◌<◌, ◌||◌, inl, inr, none, List, [], ◌∷◌, length, is_empty, ltb,
  length-set, Bool-cases, Option-cases, arith,
}
use asterion.Pooled.FlatIndex.{
  FlatOrderIndex, deleted_entry, entry, bucket, slot_of, find_room, next_capacity, with_room,
  reserve, insert_with, insert, erase, clear, new_index,
}
use asterion.Pooled.FlatIndex.Rehash.{rehash_lem}
use asterion.Pooled.FlatIndex.Map.{IsIndex, with_room_lem}
use asterion.Pooled.FlatIndex.Insert.{Room-cases, with_room-not_full, insert-IsIndex}
use asterion.Pooled.FlatIndex.Erase.{erase-IsIndex}
use asterion.Pooled.FlatIndex.Run.{
  Call, call_insert, call_erase, call_reserve, call_clear, after, run, clear_lem, new_index_lem,
  reserve-IsIndex,
}

abbrev pub IsLoaded : FlatOrderIndex → Type 0
IsLoaded x = x.size * 2 ≤ length x.entries

insert-IsLoaded :
    (k v : ℕ) (x : FlatOrderIndex) → IsIndex x → IsLoaded x → IsLoaded (insert k v x).0
unfolding insert insert_with
insert-IsLoaded k v x w h = elim (Bool-cases (k == 0)) [
  | inl e ↦ rw e h
  | inr e ↦
      let (same, roomy) = with_room_lem x w in
      let b = (with_room x).entries in
      let as_big : (with_room x).size ≡ x.size = omega (arith, same.sized, same.as_many, w.sized) in
      elim (Room-cases (find_room k b none (length b) (bucket k b))) [
        | inr (inl stuck) ↦ absurd (with_room-not_full k x w stuck)
        | inl there ↦ rw (e, there, insert_with) (omega (arith, as_big, roomy))
        | inr (inr (i, new)) ↦
            rw (e, new, insert_with) (omega (arith, as_big, roomy, length-set b i (entry k v)))
      ]
]

erase-IsLoaded : (k : ℕ) (x : FlatOrderIndex) → IsLoaded x → IsLoaded (erase k x).0
unfolding erase
erase-IsLoaded k x h = elim (Bool-cases (is_empty x.entries || (k == 0))) [
  | inl e ↦ rw e h
  | inr e ↦ elim (Option-cases (slot_of k x.entries)) [
    | inl lost ↦ rw (e, lost, erase) h
    | inr (i, there) ↦ rw (e, there, erase) (omega (arith, length-set x.entries i deleted_entry))
  ]
]

reserve-IsLoaded : (n : ℕ) (x : FlatOrderIndex) → IsIndex x → IsLoaded x → IsLoaded (reserve n x)
unfolding reserve
reserve-IsLoaded n x w h = elim (Bool-cases (ltb (length x.entries) (next_capacity n))) [
  | inr e ↦ rw e h
  | inl e ↦
      let longer : length x.entries < next_capacity n = ground (arith, e) in
      let (same, long) = rehash_lem (next_capacity n) x w.filed (omega (arith, w.sized, longer)) in
      rw e (omega (arith, same.sized, same.as_many, w.sized, long, longer))
]

after-IsLoaded : (c : Call) (x : FlatOrderIndex) → IsIndex x → IsLoaded x → IsLoaded (after c x)
unfolding clear
after-IsLoaded (call_insert k v) x w h = insert-IsLoaded k v x w h
after-IsLoaded (call_erase k) x w h = erase-IsLoaded k x h
after-IsLoaded (call_reserve n) x w h = reserve-IsLoaded n x w h
after-IsLoaded call_clear x w h = omega arith

after-IsIndex : (c : Call) (x : FlatOrderIndex) → IsIndex x → IsIndex (after c x)
after-IsIndex (call_insert k v) x w = insert-IsIndex k v x w
after-IsIndex (call_erase k) x w = erase-IsIndex k x w
after-IsIndex (call_reserve n) x w = reserve-IsIndex n x w
after-IsIndex call_clear x w = (clear_lem x).0

calls-IsLoaded :
    (cs : List Call) (x : FlatOrderIndex) → IsIndex x → IsLoaded x → IsLoaded (run cs x)
unfolding run
calls-IsLoaded [] x w h = h
calls-IsLoaded (c ∷ cs) x w h =
    calls-IsLoaded cs (after c x) (after-IsIndex c x w) (after-IsLoaded c x w h)

-- After any sequence of inserts, erases, reserves and clears from a new index, each with any arguments,
-- twice the size of the index is at most the number of its entries.
pub run-IsLoaded :
    (cs : List Call) → (run cs new_index).size * 2 ≤ length (run cs new_index).entries
run-IsLoaded cs = calls-IsLoaded cs new_index new_index_lem.0 (omega arith)
