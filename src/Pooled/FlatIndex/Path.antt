-- ===== src/Pooled/FlatIndex/Path.antt =====
-- The loops over the entries: what they find, and what a write to one entry changes for them.
use asterion.Prelude.{
  ℕ, zero, suc, ◌+◌, ◌%◌, ◌==◌, ◌≡◌, ◌≢◌, ◌<◌, refl, ap, sym, ◌∙◌, true, false, ◌⊎◌, inl, inr,
  Option, none, some, List, length, set, get_or-set_self, get_or-set_ne, length-set, Bool-cases,
  arith, ==-eq, ==_self, subst, Option-cases,
}
use native.Mathlib.Nat.{mod-eq_of_lt, add-zero}
use asterion.Prelude.Cyclic.{next-lt, step_ahead, around}
use asterion.Pooled.FlatIndex.{
  Entry, SlotState, empty, occupied, deleted, slot_at, holds, is_empty_slot, is_occupied,
  empty_entry, entry, locate, find_room, first_free, taken, full, free, or_index,
}

-- What `locate` finds holds the id, and is a slot.
pub locate-holds :
    (k : ℕ) (b : List Entry) (probes i j : ℕ)
    → locate k b probes i ≡ some j
    → holds k (slot_at b j) ≡ true
unfolding locate
locate-holds k b zero i j h = cc
locate-holds k b (suc p) i j h = elim (Bool-cases (is_empty_slot (slot_at b i).state)) [
  | inl e ↦ absurd (ground (arith, e))
  | inr e ↦ elim (Bool-cases (holds k (slot_at b i))) [
    | inl m ↦
        let here : i ≡ j = ground (arith, e, m) in ap (λ t. holds k (slot_at b t)) (sym here) ∙ m
    | inr m ↦ locate-holds k b p ((i + 1) % length b) j (ground (arith, e, m))
  ]
]

-- A write of an entry that is not empty, for another id, to a slot that does not hold the id: the loop
-- finds what it found.
pub locate-set :
    (k : ℕ) (b : List Entry) (j : ℕ) (w : Entry) (probes i t : ℕ)
    → holds k (slot_at b j) ≡ false
    → holds k w ≡ false
    → is_empty_slot w.state ≡ false
    → j < length b
    → locate k b probes i ≡ some t
    → locate k (set b j w) probes i ≡ some t
unfolding locate
locate-set k b j w zero i t old new solid l h = cc
locate-set k b j w (suc p) i t old new solid l h = elim (Bool-cases (j == i)) [
  | inl q ↦
      let here : j ≡ i = ==-eq j i q in
      let written : slot_at (set b j w) i ≡ w =
        ap (λ x. slot_at (set b j w) x) (sym here) ∙ get_or-set_self b j w empty_entry l in
      let passed : holds k (slot_at b i) ≡ false =
        ap (λ x. holds k (slot_at b x)) (sym here) ∙ old in
      rw (written, solid, new, length-set b j w)
        (locate-set k b j w p ((i + 1) % length b) t old new solid l (ground (arith, passed)))
  | inr q ↦
      let same : slot_at (set b j w) i ≡ slot_at b i =
        get_or-set_ne b j i w empty_entry (ground (arith, q)) in
      elim (Bool-cases (is_empty_slot (slot_at b i).state)) [
        | inl e ↦ absurd (ground (arith, e))
        | inr e ↦ elim (Bool-cases (holds k (slot_at b i))) [
          | inl m ↦ rw (same, e, m) (ground (arith, e, m))
          | inr m ↦
              rw (same, e, m, length-set b j w)
                (locate-set k b j w p ((i + 1) % length b) t old new solid l (ground (arith, e, m)))
        ]
      ]
]

SlotState-cases : (s : SlotState) → (s ≡ empty) ⊎ ((s ≡ occupied) ⊎ (s ≡ deleted))
SlotState-cases empty = inl refl
SlotState-cases occupied = inr (inl refl)
SlotState-cases deleted = inr (inr refl)

-- A slot that an insert may write: empty or deleted.
abbrev pub IsFree : Entry → Type 0
IsFree e = is_occupied e.state ≡ false

module _ (k : ℕ) (b : List Entry) where
  -- With a deleted slot in hand the search for room keeps it.
  find_room-first : (f probes i j : ℕ) → find_room k b (some f) probes i ≡ free j → f ≡ j
  unfolding find_room
  find_room-first f zero i j h = cc
  find_room-first f (suc p) i j h = elim (SlotState-cases (slot_at b i).state) [
    | inl e ↦ ground (arith, e)
    | inr (inr e) ↦ find_room-first f p ((i + 1) % length b) j (ground (arith, e))
    | inr (inl e) ↦ elim (Bool-cases ((slot_at b i).order_id == k)) [
      | inl m ↦ absurd (ground (arith, e, m))
      | inr m ↦ find_room-first f p ((i + 1) % length b) j (ground (arith, e, m))
    ]
  ]

  found_here :
      (v probes i j : ℕ)
      → i < length b
      → i ≡ j
      → IsFree (slot_at b i)
      → IsFree (slot_at b j)
        × (j < length b)
        × (locate k (set b j (entry k v)) (suc probes) i ≡ some j)
  unfolding locate
  found_here v p i j l here f =
      let written : slot_at (set b j (entry k v)) i ≡ entry k v =
        ap (λ t. slot_at (set b t (entry k v)) i) (sym here)
        ∙ get_or-set_self b i (entry k v) empty_entry l in
      (
        subst (λ t. IsFree (slot_at b t)) here f,
        subst (λ t. t < length b) here l,
        rw (written, ==_self k) (ap some here),
      )

  -- The slot that is free for the id: it can be written, and a loop for the id then finds it there.
  pub find_room-IsFree :
      (v : ℕ) (probes i j : ℕ)
      → i < length b
      → find_room k b none probes i ≡ free j
      → IsFree (slot_at b j) × (j < length b) × (locate k (set b j (entry k v)) probes i ≡ some j)
  unfolding find_room locate
  find_room-IsFree v zero i j l h = cc
  find_room-IsFree v (suc p) i j l h = elim (SlotState-cases (slot_at b i).state) [
    | inl e ↦ let here : i ≡ j = ground (arith, e) in found_here v p i j l here (ground (arith, e))
    | inr (inr e) ↦
        let here : i ≡ j = find_room-first i p ((i + 1) % length b) j (ground (arith, e)) in
        found_here v p i j l here (ground (arith, e))
    | inr (inl e) ↦ elim (Bool-cases ((slot_at b i).order_id == k)) [
      | inl m ↦ absurd (ground (arith, e, m))
      | inr m ↦
          let (can_write, in_range, found) =
            find_room-IsFree v p ((i + 1) % length b) j (next-lt (length b) i l)
              (ground (arith, e, m)) in
          let apart : j ≢ i = λ q. ground (arith, e, can_write, ap (λ t. slot_at b t) q) in
          let same : slot_at (set b j (entry k v)) i ≡ slot_at b i =
            get_or-set_ne b j i (entry k v) empty_entry apart in
          (can_write, in_range, rw (same, e, m, length-set b j (entry k v)) found)
    ]
  ]

  -- The search for room says that the id is taken where the loop finds it.
  pub find_room-taken :
      (o : Option ℕ) (probes i : ℕ)
      → find_room k b o probes i ≡ taken
      → (j : ℕ) × (locate k b probes i ≡ some j)
  unfolding find_room locate
  find_room-taken o zero i h = absurd (ground (arith, Option-cases o))
  find_room-taken o (suc p) i h = elim (SlotState-cases (slot_at b i).state) [
    | inl e ↦ absurd (ground (arith, e))
    | inr (inr e) ↦
        let (j, found) =
          find_room-taken (or_index o i) p ((i + 1) % length b) (ground (arith, e)) in
        (j, rw e found)
    | inr (inl e) ↦ elim (Bool-cases ((slot_at b i).order_id == k)) [
      | inl m ↦ (i, rw (e, m) refl)
      | inr m ↦
          let (j, found) = find_room-taken o p ((i + 1) % length b) (ground (arith, e, m)) in
          (j, rw (e, m) found)
    ]
  ]

  -- An id that the loop finds is taken.
  pub find_room-located :
      (o : Option ℕ) (probes i j : ℕ)
      → locate k b probes i ≡ some j
      → find_room k b o probes i ≡ taken
  unfolding find_room locate
  find_room-located o zero i j h = cc
  find_room-located o (suc p) i j h = elim (SlotState-cases (slot_at b i).state) [
    | inl e ↦ absurd (ground (arith, e))
    | inr (inr e) ↦
        rw (e, find_room)
          (find_room-located (or_index o i) p ((i + 1) % length b) j (ground (arith, e)))
    | inr (inl e) ↦ elim (Bool-cases ((slot_at b i).order_id == k)) [
      | inl m ↦ rw (e, find_room, m) refl
      | inr m ↦
          rw (e, find_room, m) (find_room-located o p ((i + 1) % length b) j (ground (arith, e, m)))
    ]
  ]

  -- With a deleted slot in hand there is room.
  find_room-not_full : (f probes i : ℕ) → find_room k b (some f) probes i ≢ full
  unfolding find_room
  find_room-not_full f zero i h = cc
  find_room-not_full f (suc p) i h = elim (SlotState-cases (slot_at b i).state) [
    | inl e ↦ ground (arith, e)
    | inr (inr e) ↦ find_room-not_full f p ((i + 1) % length b) (ground (arith, e))
    | inr (inl e) ↦ elim (Bool-cases ((slot_at b i).order_id == k)) [
      | inl m ↦ ground (arith, e, m)
      | inr m ↦ find_room-not_full f p ((i + 1) % length b) (ground (arith, e, m))
    ]
  ]

  -- There is no room only where the slot and those ahead are occupied.
  full_step :
      (p i : ℕ)
      → find_room k b none (suc p) i ≡ full
      → (is_occupied (slot_at b i).state ≡ true)
        × (find_room k b none p ((i + 1) % length b) ≡ full)
  unfolding find_room
  full_step p i h = elim (SlotState-cases (slot_at b i).state) [
    | inl e ↦ absurd (ground (arith, e))
    | inr (inr e) ↦ absurd (find_room-not_full i p ((i + 1) % length b) (ground (arith, e)))
    | inr (inl e) ↦ elim (Bool-cases ((slot_at b i).order_id == k)) [
      | inl m ↦ absurd (ground (arith, e, m))
      | inr m ↦ (ground (arith, e), ground (arith, e, m))
    ]
  ]

  pub find_room-full :
      (probes i d : ℕ)
      → i < length b
      → d < probes
      → find_room k b none probes i ≡ full
      → is_occupied (slot_at b ((i + d) % length b)).state ≡ true
  find_room-full zero i d l m h = absurd (omega arith)
  find_room-full (suc p) i zero l m h =
      let here : (i + 0) % length b ≡ i = rw add-zero (mod-eq_of_lt l) in
      ap (λ t. is_occupied (slot_at b t).state) here ∙ (full_step p i h).0
  find_room-full (suc p) i (suc d) l m h =
      ap (λ t. is_occupied (slot_at b t).state) (sym (step_ahead (length b) d i))
      ∙ find_room-full p ((i + 1) % length b) d (next-lt (length b) i l) (omega arith)
          (full_step p i h).1

  -- The loop of a rehash ends at a slot that is free, and an id that is in no slot is found there.
  pub first_free-IsFree :
      (v probes i j : ℕ)
      → i < length b
      → ((t : ℕ) → is_empty_slot (slot_at b t).state ≡ true ⊎ (holds k (slot_at b t) ≡ false))
      → ((t : ℕ) → (slot_at b t).state ≢ deleted)
      → first_free b probes i ≡ some j
      → IsFree (slot_at b j) × (j < length b) × (locate k (set b j (entry k v)) probes i ≡ some j)
  unfolding first_free locate
  first_free-IsFree v zero i j l none_holds clean h = cc
  first_free-IsFree v (suc p) i j l none_holds clean h =
      elim (Bool-cases (is_occupied (slot_at b i).state)) [
        | inr e ↦ let here : i ≡ j = ground (arith, e) in found_here v p i j l here e
        | inl e ↦
            let (can_write, in_range, found) =
              first_free-IsFree v p ((i + 1) % length b) j (next-lt (length b) i l) none_holds clean
                (ground (arith, e)) in
            let apart : j ≢ i = λ q. ground (arith, e, can_write, ap (λ t. slot_at b t) q) in
            let same : slot_at (set b j (entry k v)) i ≡ slot_at b i =
              get_or-set_ne b j i (entry k v) empty_entry apart in
            let other : holds k (slot_at b i) ≡ false = ground (arith, none_holds i, e) in
            let solid : is_empty_slot (slot_at b i).state ≡ false = ground (arith, e) in
            (can_write, in_range, rw (same, solid, other, length-set b j (entry k v)) found)
      ]

  first_free-none :
      (probes i d : ℕ)
      → i < length b
      → d < probes
      → first_free b probes i ≡ none
      → is_occupied (slot_at b ((i + d) % length b)).state ≡ true
  unfolding first_free
  first_free-none zero i d l m h = absurd (omega arith)
  first_free-none (suc p) i zero l m h =
      let here : (i + 0) % length b ≡ i = rw add-zero (mod-eq_of_lt l) in
      ap (λ t. is_occupied (slot_at b t).state) here ∙ ground arith
  first_free-none (suc p) i (suc d) l m h =
      ap (λ t. is_occupied (slot_at b t).state) (sym (step_ahead (length b) d i))
      ∙ first_free-none p ((i + 1) % length b) d (next-lt (length b) i l) (omega arith)
          (ground arith)

-- One slot that is free is enough for both.
pub find_room-ends :
    (k : ℕ) (b : List Entry) (i e : ℕ)
    → i < length b
    → e < length b
    → IsFree (slot_at b e)
    → find_room k b none (length b) i ≢ full
find_room-ends k b i e l m f h =
    let (d, near, there) = around (length b) i e l m in
    ground (
      arith,
      find_room-full k b (length b) i d l near h,
      ap (λ t. is_occupied (slot_at b t).state) there,
      f,
    )

pub first_free-ends :
    (b : List Entry) (i e : ℕ)
    → i < length b
    → e < length b
    → IsFree (slot_at b e)
    → (j : ℕ) × (first_free b (length b) i ≡ some j)
first_free-ends b i e l m f = elim (Option-cases (first_free b (length b) i)) [
  | inr found ↦ found
  | inl h ↦
      let (d, near, there) = around (length b) i e l m in
      absurd (
        ground (
          arith,
          first_free-none 0 b (length b) i d l near h,
          ap (λ t. is_occupied (slot_at b t).state) there,
          f,
        ))
]
