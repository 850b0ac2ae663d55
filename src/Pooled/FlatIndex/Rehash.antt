-- ===== src/Pooled/FlatIndex/Rehash.antt =====
-- `rehash`: the entries that are in use move, and the marks of deleted ones go.
use asterion.Prelude.{
  ℕ, zero, suc, ◌+◌, ◌==◌, ◌≡◌, ◌≢◌, ◌<◌, refl, ap, sym, subst, ◌∙◌, true, false, ◌⊎◌, inl, inr,
  List, [], ◌∷◌, length, get_or, set, replicate, get_or-set_self, get_or-set_ne, length-set,
  length-replicate, get_or-replicate, Bool-cases, arith, ==-eq,
}
use asterion.Pooled.FlatIndex.{
  Entry, deleted, slot_at, holds, is_occupied, empty_entry, entry, FlatOrderIndex, bucket,
  insert_rehashed, rehash_entries, rehash,
}
use asterion.Pooled.FlatIndex.Path.{first_free-IsFree, first_free-ends}
use asterion.Pooled.FlatIndex.Slots.{
  Holds, AllFiled, occupied_count, bucket-lt, IsFree-slot, occupied_count-set, Holds-set,
  Holds-set_old, Holds-set_new, set-AllFiled,
}

abbrev pub IsClean : List Entry → Type 0
IsClean b = (i : ℕ) → (slot_at b i).state ≢ deleted

pub record Moved (es : List Entry) (x t : FlatOrderIndex) : Type 0 where
  pub filed : AllFiled t.entries
  pub clean : IsClean t.entries
  pub taken : occupied_count t.entries ≡ occupied_count x.entries + occupied_count es
  pub as_long : length t.entries ≡ length x.entries
  pub sized : t.size ≡ x.size + occupied_count es
  pub from : (y u : ℕ) → Holds y u t.entries → Holds y u es ⊎ Holds y u x.entries
  pub kept : (y u : ℕ) → Holds y u x.entries → Holds y u t.entries
  pub added : (y u : ℕ) → Holds y u es → Holds y u t.entries

set-IsClean :
    (b : List Entry) (j k v : ℕ) → j < length b → IsClean b → IsClean (set b j (entry k v))
set-IsClean b j k v l c i d = elim (Bool-cases (j == i)) [
  | inl q ↦
      let written : slot_at (set b j (entry k v)) i ≡ entry k v =
        ap (λ t. slot_at (set b j (entry k v)) t) (sym (==-eq j i q))
        ∙ get_or-set_self b j (entry k v) empty_entry l in
      ground (arith, written, d)
  | inr q ↦
      let same : slot_at (set b j (entry k v)) i ≡ slot_at b i =
        get_or-set_ne b j i (entry k v) empty_entry (ground (arith, q)) in
      c i (ap (λ (t : Entry). t.state) (sym same) ∙ d)
]

pub not-Holds :
    (k : ℕ) (b : List Entry) → ((u : ℕ) → Holds k u b → ⊥) → (i : ℕ) → holds k (slot_at b i) ≡ false
not-Holds k b absent i = elim (Bool-cases (holds k (slot_at b i))) [
  | inr e ↦ e
  | inl e ↦ absurd (absent (slot_at b i).node_index (i, e, refl))
]

Holds-head :
    (e : Entry) (es : List Entry) (y u : ℕ)
    → holds y e ≡ true
    → e.node_index ≡ u
    → Holds y u (e ∷ es)
unfolding get_or
Holds-head e es y u h v = (0, h, v)

Holds-cons : (e : Entry) (es : List Entry) (y u : ℕ) → Holds y u es → Holds y u (e ∷ es)
unfolding get_or
Holds-cons e es y u (i, h, v) = (suc i, h, v)

Holds-cons_cases :
    (e : Entry) (es : List Entry) (y u : ℕ)
    → Holds y u (e ∷ es)
    → ((holds y e ≡ true) × (e.node_index ≡ u)) ⊎ Holds y u es
unfolding get_or
Holds-cons_cases e es y u (zero, h, v) = inl (h, v)
Holds-cons_cases e es y u (suc i, h, v) = inr (i, h, v)

Holds-nil : (y u : ℕ) → Holds y u [] → ⊥
unfolding get_or
Holds-nil y u (i, h, v) = ground arith

-- One entry that is in use.
insert_rehashed-Moved :
    (e : Entry) (x : FlatOrderIndex)
    → is_occupied e.state ≡ true
    → e.order_id ≢ 0
    → ((u : ℕ) → Holds e.order_id u x.entries → ⊥)
    → occupied_count x.entries < length x.entries
    → IsClean x.entries
    → AllFiled x.entries
    → Moved (e ∷ []) x (insert_rehashed e.order_id e.node_index x)
unfolding insert_rehashed occupied_count
insert_rehashed-Moved e x used nz absent room clean filed =
    let b = x.entries in
    let k = e.order_id in
    let v = e.node_index in
    let start = bucket-lt k b (omega arith) in
    let (s, l, f) = IsFree-slot b room in
    let (j, found) = first_free-ends b (bucket k b) s start l f in
    let none_holds = not-Holds k b absent in
    let (can_write, in_range, at) =
      first_free-IsFree k b v (length b) (bucket k b) j start (λ t. inr (none_holds t)) clean
        found in
    rw (found, insert_rehashed)
      (record {
        filed = set-AllFiled b j k v can_write in_range nz none_holds at filed;
        clean = set-IsClean b j k v in_range clean;
        taken = ground (arith, occupied_count-set b j (entry k v) in_range can_write, used);
        as_long = length-set b j (entry k v);
        sized = ground (arith, used);
        from = λ y u h. elim (Holds-set b j k v can_write in_range y u h) [
          | inl (same, value) ↦ inl (Holds-head e [] y u (ground (arith, used, same)) value)
          | inr old ↦ inr old
        ];
        kept = Holds-set_old b j k v can_write in_range;
        added = λ y u h. elim (Holds-cons_cases e [] y u h) [
          | inl (m, value) ↦
              let same : k ≡ y = ground (arith, m) in
              subst (λ t. Holds t u (set b j (entry k v))) same
                (subst (λ t. Holds k t (set b j (entry k v))) value
                  (Holds-set_new b j k v can_write in_range))
          | inr nowhere ↦ absurd (Holds-nil y u nowhere)
        ];
      })

-- An entry that is not in use moves nothing.
unused-Moved :
    (e : Entry) (x : FlatOrderIndex)
    → is_occupied e.state ≡ false
    → IsClean x.entries
    → AllFiled x.entries
    → Moved (e ∷ []) x x
unfolding occupied_count
unused-Moved e x unused clean filed = record {
  filed = filed;
  clean = clean;
  taken = ground (arith, unused);
  as_long = refl;
  sized = ground (arith, unused);
  from = λ y u h. inr h;
  kept = λ y u h. h;
  added = λ y u h. elim (Holds-cons_cases e [] y u h) [
    | inl (m, value) ↦ absurd (ground (arith, unused, m))
    | inr nowhere ↦ absurd (Holds-nil y u nowhere)
  ];
}

Moved-cons :
    (e : Entry) (es : List Entry) (x t w : FlatOrderIndex)
    → Moved (e ∷ []) x t
    → Moved es t w
    → Moved (e ∷ es) x w
unfolding occupied_count
Moved-cons e es x t w a b = record {
  filed = b.filed;
  clean = b.clean;
  taken = ground (arith, a.taken, b.taken);
  as_long = b.as_long ∙ a.as_long;
  sized = ground (arith, a.sized, b.sized);
  from = λ y u h. elim (b.from y u h) [
    | inl late ↦ inl (Holds-cons e es y u late)
    | inr old ↦ elim (a.from y u old) [
      | inr before ↦ inr before
      | inl first ↦ elim (Holds-cons_cases e [] y u first) [
        | inl (m, value) ↦ inl (Holds-head e es y u m value)
        | inr nowhere ↦ absurd (Holds-nil y u nowhere)
      ]
    ]
  ];
  kept = λ y u h. b.kept y u (a.kept y u h);
  added = λ y u h. elim (Holds-cons_cases e es y u h) [
    | inl (m, value) ↦ b.kept y u (a.added y u (Holds-head e [] y u m value))
    | inr later ↦ b.added y u later
  ];
}

-- The entries of a table: no id is 0 and none stands twice.
record IsTable (es : List Entry) : Type 0 where
  nonzero : (k i : ℕ) → holds k (slot_at es i) ≡ true → k ≢ 0
  once : (k i j : ℕ) → holds k (slot_at es i) ≡ true → holds k (slot_at es j) ≡ true → i ≡ j

AllFiled-IsTable : (b : List Entry) → AllFiled b → IsTable b
AllFiled-IsTable b filed = record {
  nonzero = λ k i h. (filed k i h).0;
  once = λ k i j h m. let a = (filed k i h).1 in let c = (filed k j m).1 in cc;
}

IsTable-tail : (e : Entry) (es : List Entry) → IsTable (e ∷ es) → IsTable es
unfolding get_or
IsTable-tail e es t = record {
  nonzero = λ k i h. t.nonzero k (suc i) h;
  once = λ k i j h m. omega (arith, t.once k (suc i) (suc j) h m);
}

-- The id of the first entry is in no later one.
once_head :
    (e : Entry) (es : List Entry) (k u : ℕ) → IsTable (e ∷ es) → holds k e ≡ true → Holds k u es → ⊥
unfolding get_or
once_head e es k u t h (i, m, _) = absurd (omega (arith, t.once k 0 (suc i) h m))

head_at :
    (e : Entry) (es : List Entry) (k : ℕ) → holds k e ≡ true → holds k (slot_at (e ∷ es) 0) ≡ true
unfolding get_or
head_at e es k h = h

rehash_entries-Moved :
    (es : List Entry) (x : FlatOrderIndex)
    → IsTable es
    → ((y u u' : ℕ) → Holds y u es → Holds y u' x.entries → ⊥)
    → occupied_count x.entries + occupied_count es < length x.entries
    → IsClean x.entries
    → AllFiled x.entries
    → Moved es x (rehash_entries es x)
unfolding rehash_entries occupied_count
rehash_entries-Moved [] x t apart room clean filed = record {
  filed = filed;
  clean = clean;
  taken = omega arith;
  as_long = refl;
  sized = omega arith;
  from = λ y u h. inr h;
  kept = λ y u h. h;
  added = λ y u h. absurd (Holds-nil y u h);
}
rehash_entries-Moved (e ∷ es) x t apart room clean filed = elim (Bool-cases (is_occupied e.state)) [
  | inr unused ↦ rw unused (
      Moved-cons e es x x (rehash_entries es x) (unused-Moved e x unused clean filed) (
        rehash_entries-Moved es x (IsTable-tail e es t)
          (λ y u u' h. apart y u u' (Holds-cons e es y u h)) (ground (arith, unused)) clean filed))
  | inl used ↦
      let k = e.order_id in
      let own : holds k e ≡ true = ground (arith, used) in
      let first =
        insert_rehashed-Moved e x used (t.nonzero k 0 (head_at e es k own))
          (λ u. apart k e.node_index u (Holds-head e es k e.node_index own refl))
          (ground (arith, used)) clean filed in
      let next = insert_rehashed k e.node_index x in
      let more =
        rehash_entries-Moved es next (IsTable-tail e es t)
          (λ y u u' h m. elim (first.from y u' m) [
            | inr old ↦ apart y u u' (Holds-cons e es y u h) old
            | inl it ↦ elim (Holds-cons_cases e [] y u' it) [
              | inl (mine, _) ↦ once_head e es y u t mine h
              | inr nowhere ↦ Holds-nil y u' nowhere
            ]
          ])
          (ground (arith, used, first.taken, first.as_long)) first.clean first.filed in
      rw used (Moved-cons e es x next (rehash_entries es next) first more)
]

occupied_count-replicate : (n : ℕ) → occupied_count (replicate n empty_entry) ≡ 0
unfolding occupied_count replicate
occupied_count-replicate zero = refl
occupied_count-replicate (suc n) = occupied_count-replicate n

-- What a rehash keeps.
pub record SameEntries (x t : FlatOrderIndex) : Type 0 where
  pub filed : AllFiled t.entries
  pub sized : t.size ≡ occupied_count t.entries
  pub as_many : occupied_count t.entries ≡ occupied_count x.entries
  pub from : (y u : ℕ) → Holds y u t.entries → Holds y u x.entries
  pub kept : (y u : ℕ) → Holds y u x.entries → Holds y u t.entries

pub rehash_lem :
    (n : ℕ) (x : FlatOrderIndex)
    → AllFiled x.entries
    → occupied_count x.entries < n
    → SameEntries x (rehash n x) × (length (rehash n x).entries ≡ n)
unfolding rehash
rehash_lem n x filed room =
    let fresh : FlatOrderIndex = record { entries = replicate n empty_entry; size = 0 } in
    let blank = λ (i : ℕ). get_or-replicate n i empty_entry in
    let none_there : (y u : ℕ) → Holds y u fresh.entries → ⊥ =
      λ y u h. ground (arith, blank h.0, h.1) in
    let m =
      rehash_entries-Moved x.entries fresh (AllFiled-IsTable x.entries filed)
        (λ y u u' h k. none_there y u' k)
        (omega (arith, occupied_count-replicate n, length-replicate n empty_entry))
        (λ i d. ground (arith, blank i, d)) (λ k i h. absurd (none_there k _ (i, h, refl))) in
    (
      record {
        filed = m.filed;
        sized = omega (arith, m.sized, m.taken, occupied_count-replicate n);
        as_many = omega (arith, m.taken, occupied_count-replicate n);
        from = λ y u h. elim (m.from y u h) [
          | inl old ↦ old
          | inr no_one ↦ absurd (none_there y u no_one)
        ];
        kept = m.added;
      },
      m.as_long ∙ length-replicate n empty_entry,
    )
