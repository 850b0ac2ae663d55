-- ===== src/Pooled/FlatIndex/Erase.antt =====
-- `erase`: it takes one id away.
use asterion.Prelude.{
  ℕ, ◌-◌, ◌==◌, ◌≡◌, refl, ap, sym, ◌∙◌, true, false, not, ◌||◌, inl, inr, none, if◌then◌else◌,
  length, is_empty, set, Bool-cases, Option-cases, arith, ==-eq,
}
use asterion.Pooled.FlatIndex.{slot_at, holds, deleted_entry, FlatOrderIndex, slot_of, find, erase}
use asterion.Pooled.FlatIndex.Path.{locate-holds}
use asterion.Pooled.FlatIndex.Slots.{
  occupied_count-delete, find-Holds, find-not-Holds, Holds-delete, Holds-delete_old,
  delete-AllFiled,
}
use asterion.Pooled.FlatIndex.Map.{IsIndex, is_none, find-same}

nothing : (k : ℕ) (x : FlatOrderIndex) → is_empty x.entries || (k == 0) ≡ true → find k x ≡ none
unfolding find
nothing k x e = rw e refl

not_located :
    (k : ℕ) (x : FlatOrderIndex)
    → is_empty x.entries || (k == 0) ≡ false
    → slot_of k x.entries ≡ none
    → find k x ≡ none
unfolding find
not_located k x e lost = rw (e, lost, find) refl

still_missing :
    (k : ℕ) (x : FlatOrderIndex)
    → find k x ≡ none
    → (y : ℕ) → find y x ≡ (if k == y then none else find y x)
still_missing k x h y = elim (Bool-cases (k == y)) [
  | inl e ↦ rw e (ap (λ z. find z x) (sym (==-eq k y e)) ∙ h)
  | inr e ↦ rw e refl
]

-- The mark on a slot that holds the id.
deleted_lem :
    (k i : ℕ) (x : FlatOrderIndex)
    → IsIndex x
    → holds k (slot_at x.entries i) ≡ true
    → let t : FlatOrderIndex = record {
      entries = set x.entries i deleted_entry;
      size = x.size - 1;
    } in
      IsIndex t × ((y : ℕ) → find y t ≡ (if k == y then none else find y x))
deleted_lem k i x w h =
    let b = x.entries in
    let t : FlatOrderIndex = record { entries = set b i deleted_entry; size = x.size - 1 } in
    let z : IsIndex t = record {
      filed = delete-AllFiled b i k h w.filed;
      sized = ground (arith, w.sized, occupied_count-delete b i deleted_entry, h);
    } in
    (
      z,
      λ y. elim (Bool-cases (k == y)) [
        | inl e ↦ rw e (
            find-not-Holds t z.filed y
              (λ u m. (Holds-delete b i k h w.filed y u m).0 (sym (==-eq k y e))))
        | inr e ↦ rw e (
            find-same x t y w z (λ u m. (Holds-delete b i k h w.filed y u m).1)
              (λ u m. Holds-delete_old b i k h w.filed y u (ground (arith, e)) m))
      ],
    )

erase_lem :
    (k : ℕ) (x : FlatOrderIndex)
    → IsIndex x
    → IsIndex (erase k x).0
      × ((erase k x).1 ≡ not (is_none (find k x)))
      × ((y : ℕ) → find y (erase k x).0 ≡ (if k == y then none else find y x))
unfolding erase
erase_lem k x w = elim (Bool-cases (is_empty x.entries || (k == 0))) [
  | inl e ↦
      let gone : find k x ≡ none = nothing k x e in rw (e, gone) (w, refl, still_missing k x gone)
  | inr e ↦ elim (Option-cases (slot_of k x.entries)) [
    | inl lost ↦
        let gone : find k x ≡ none = not_located k x e lost in
        rw (e, lost, gone) (w, refl, still_missing k x gone)
    | inr (i, there) ↦
        let held = locate-holds k x.entries (length x.entries) _ i there in
        let (index, found) = deleted_lem k i x w held in
        let known = find-Holds x w.filed k _ (i, held, refl) in
        rw (e, there, known) (index, refl, found)
  ]
]

pub erase-IsIndex : (k : ℕ) (x : FlatOrderIndex) → IsIndex x → IsIndex (erase k x).0
erase-IsIndex k x w = (erase_lem k x w).0

-- In an index whose entries are all where the loop for their id ends and whose size is their number, an
-- erase succeeds exactly if the id is found; afterwards the id is not found, and every other id as
-- before.
pub find-erase :
    (k : ℕ) (x : FlatOrderIndex)
    → IsIndex x
    → ((erase k x).1 ≡ not (is_none (find k x)))
      × ((y : ℕ) → find y (erase k x).0 ≡ (if k == y then none else find y x))
find-erase k x w = let r = erase_lem k x w in (r.1, r.2)
