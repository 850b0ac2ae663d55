-- ===== src/Pooled/FlatIndex/Slots.antt =====
-- What the slots hold, before and after a write to one of them.
use asterion.Prelude.{
  ℕ, zero, suc, ◌==◌, ◌≡◌, ◌≢◌, ◌<◌, refl, ap, sym, subst, ◌∙◌, true, false, ◌||◌, ◌⊎◌, inl, inr,
  none, some, List, [], ◌∷◌, if◌then◌else◌, length, is_empty, get_or, set, get_or-set_self,
  get_or-set_ne, length-set, Bool-cases, Option-cases, arith, ==-eq,
}
use native.Mathlib.Nat.{mod-lt}
use asterion.Gateway.ClientOrderIds.{mix}
use asterion.Pooled.FlatIndex.{
  Entry, slot_at, holds, is_occupied, empty_entry, deleted_entry, entry, FlatOrderIndex, bucket,
  slot_of, locate, find,
}
use asterion.Pooled.FlatIndex.Path.{IsFree, locate-holds, locate-set}

-- Some slot holds the id with a node index.
abbrev pub Holds : ℕ → ℕ → List Entry → Type 0
Holds k v b = (i : ℕ) × (holds k (slot_at b i) ≡ true) × ((slot_at b i).node_index ≡ v)

-- Every id that a slot holds is not 0, and the loop for it ends at that slot.
abbrev pub AllFiled : List Entry → Type 0
AllFiled b = (k i : ℕ) → holds k (slot_at b i) ≡ true → (k ≢ 0) × (slot_of k b ≡ some i)

unfoldable pub occupied_count : List Entry → ℕ
occupied_count [] = 0
occupied_count (e ∷ es) =
    let rest = occupied_count es in if is_occupied e.state then suc rest else rest

pub bucket-lt : (k : ℕ) (b : List Entry) → 0 < length b → bucket k b < length b
unfolding bucket
bucket-lt k b h = mod-lt (mix k) h

-- Where no slot is occupied there is a free one.
pub IsFree-slot :
    (b : List Entry) → occupied_count b < length b → (e : ℕ) × (e < length b) × IsFree (slot_at b e)
unfolding occupied_count get_or
IsFree-slot [] h = absurd (omega arith)
IsFree-slot (x ∷ xs) h = elim (Bool-cases (is_occupied x.state)) [
  | inr e ↦ (0, omega arith, e)
  | inl e ↦ let (k, l, f) = IsFree-slot xs (ground (arith, e)) in (suc k, omega arith, f)
]

pub occupied_count-set :
    (b : List Entry) (j : ℕ) (w : Entry)
    → j < length b
    → IsFree (slot_at b j)
    → is_occupied w.state ≡ true
    → occupied_count (set b j w) ≡ suc (occupied_count b)
unfolding occupied_count set get_or
occupied_count-set [] j w l f o = absurd (omega arith)
occupied_count-set (x ∷ xs) zero w l f o = ground arith
occupied_count-set (x ∷ xs) (suc j) w l f o = ground (arith, occupied_count-set xs j w)

pub occupied_count-delete :
    (b : List Entry) (j : ℕ) (w : Entry)
    → is_occupied (slot_at b j).state ≡ true
    → is_occupied w.state ≡ false
    → suc (occupied_count (set b j w)) ≡ occupied_count b
unfolding occupied_count set get_or
occupied_count-delete [] j w f o = absurd (ground arith)
occupied_count-delete (x ∷ xs) zero w f o = ground arith
occupied_count-delete (x ∷ xs) (suc j) w f o = ground (arith, occupied_count-delete xs j w)

slot_in_range : (b : List Entry) (i k : ℕ) → holds k (slot_at b i) ≡ true → i < length b
unfolding get_or
slot_in_range [] i k h = absurd (ground arith)
slot_in_range (x ∷ xs) zero k h = omega arith
slot_in_range (x ∷ xs) (suc i) k h = omega (arith, slot_in_range xs i k h)

is_empty-lt : (b : List Entry) {i : ℕ} → i < length b → is_empty b ≡ false
is_empty-lt [] l = absurd (omega arith)
is_empty-lt (x ∷ xs) l = refl

module _ (x : FlatOrderIndex) (filed : AllFiled x.entries) (k : ℕ) where
  -- `find` gives what a slot holds for the id.
  pub find-Holds : (v : ℕ) → Holds k v x.entries → find k x ≡ some v
  unfolding find
  find-Holds v (i, h, e) =
      let (nz, at) = filed k i h in
      let some_left : is_empty x.entries ≡ false =
        is_empty-lt x.entries (slot_in_range x.entries i k h) in
      let named : k == 0 ≡ false = ground arith in rw (some_left, named, at, find) (ap some e)

  pub find-not-Holds : ((v : ℕ) → Holds k v x.entries → ⊥) → find k x ≡ none
  unfolding find
  find-not-Holds absent = elim (Bool-cases (is_empty x.entries || (k == 0))) [
    | inl e ↦ rw e refl
    | inr e ↦ elim (Option-cases (slot_of k x.entries)) [
      | inl lost ↦ rw (e, lost, find) refl
      | inr (i, there) ↦ absurd (
          absent (slot_at x.entries i).node_index
            (i, locate-holds k x.entries (length x.entries) _ i there, refl))
    ]
  ]

free-holds : (k : ℕ) (e : Entry) → IsFree e → holds k e ≡ false
free-holds k e f = ground (arith, f)

-- A new entry in a free slot.
module _ (b : List Entry) (j k v : ℕ) (f : IsFree (slot_at b j)) (l : j < length b) where
  pub Holds-set : (y u : ℕ) → Holds y u (set b j (entry k v)) → ((k ≡ y) × (v ≡ u)) ⊎ Holds y u b
  Holds-set y u (i, h, e) = elim (Bool-cases (j == i)) [
    | inl q ↦
        let written : slot_at (set b j (entry k v)) i ≡ entry k v =
          ap (λ t. slot_at (set b j (entry k v)) t) (sym (==-eq j i q))
          ∙ get_or-set_self b j (entry k v) empty_entry l in
        inl (ground (arith, written, h), ground (arith, written, e))
    | inr q ↦
        let same = get_or-set_ne b j i (entry k v) empty_entry (ground (arith, q)) in
        inr (i, ap (holds y) (sym same) ∙ h, ap (λ (t : Entry). t.node_index) (sym same) ∙ e)
  ]

  pub Holds-set_old : (y u : ℕ) → Holds y u b → Holds y u (set b j (entry k v))
  Holds-set_old y u (i, h, e) =
      let apart : j ≢ i =
        λ q. ground (arith, h, free-holds y (slot_at b j) f, ap (λ t. slot_at b t) q) in
      let same = get_or-set_ne b j i (entry k v) empty_entry apart in
      (i, ap (holds y) same ∙ h, ap (λ (t : Entry). t.node_index) same ∙ e)

  pub Holds-set_new : Holds k v (set b j (entry k v))
  Holds-set_new =
      let written = get_or-set_self b j (entry k v) empty_entry l in
      (j, ap (holds k) written ∙ ground arith, ap (λ (t : Entry). t.node_index) written)

  pub set-AllFiled :
      k ≢ 0
      → ((i : ℕ) → holds k (slot_at b i) ≡ false)
      → locate k (set b j (entry k v)) (length b) (bucket k b) ≡ some j
      → AllFiled b
      → AllFiled (set b j (entry k v))
  unfolding bucket
  set-AllFiled nz new found filed y i h = elim (Bool-cases (j == i)) [
    | inl q ↦
        let written : slot_at (set b j (entry k v)) i ≡ entry k v =
          ap (λ t. slot_at (set b j (entry k v)) t) (sym (==-eq j i q))
          ∙ get_or-set_self b j (entry k v) empty_entry l in
        let same : k ≡ y = ground (arith, written, h) in
        (
          λ z. nz (same ∙ z),
          rw (length-set b j (entry k v)) (
              subst (λ t. locate t (set b j (entry k v)) (length b) (bucket t b) ≡ some i) same
                (found ∙ ap some (==-eq j i q))),
        )
    | inr q ↦
        let same = get_or-set_ne b j i (entry k v) empty_entry (ground (arith, q)) in
        let old : holds y (slot_at b i) ≡ true = ap (holds y) (sym same) ∙ h in
        let (ny, at) = filed y i old in
        let other : holds y (entry k v) ≡ false = ground (arith, new i, old) in
        (
          ny,
          rw (length-set b j (entry k v)) (
              locate-set y b j (entry k v) (length b) (bucket y b) i (free-holds y (slot_at b j) f)
                other refl l at),
        )
  ]

-- A slot that is marked as deleted.
module _ (b : List Entry) (j k : ℕ) (h : holds k (slot_at b j) ≡ true) (filed : AllFiled b) where
  -- Where an id is held after the mark: at another slot, unchanged, and by another id.
  kept_slot :
      (y i : ℕ)
      → holds y (slot_at (set b j deleted_entry) i) ≡ true
      → (slot_at (set b j deleted_entry) i ≡ slot_at b i) × (y ≢ k)
  kept_slot y i m = elim (Bool-cases (j == i)) [
    | inl q ↦
        let l = slot_in_range b j k h in
        let written : slot_at (set b j deleted_entry) i ≡ deleted_entry =
          ap (λ t. slot_at (set b j deleted_entry) t) (sym (==-eq j i q))
          ∙ get_or-set_self b j deleted_entry empty_entry l in
        absurd (ground (arith, written, m))
    | inr q ↦
        let same : slot_at (set b j deleted_entry) i ≡ slot_at b i =
          get_or-set_ne b j i deleted_entry empty_entry (ground (arith, q)) in
        let old : holds y (slot_at b i) ≡ true = ap (holds y) (sym same) ∙ m in
        (same, λ e. one_slot y i e old q)
  ]
    where
      one_slot : (y i : ℕ) → y ≡ k → holds y (slot_at b i) ≡ true → j == i ≡ false → ⊥
      one_slot y i e old q =
          let there = (filed k j h).1 in
          let also = (filed y i old).1 in
          let also_k : slot_of k b ≡ some i = subst (λ t. slot_of t b ≡ some i) e also in
          ground (arith, there, also_k, q)

  pub Holds-delete : (y u : ℕ) → Holds y u (set b j deleted_entry) → (y ≢ k) × Holds y u b
  Holds-delete y u (i, m, e) =
      let (same, ne) = kept_slot y i m in
      (ne, (i, ap (holds y) (sym same) ∙ m, ap (λ (t : Entry). t.node_index) (sym same) ∙ e))

  pub Holds-delete_old : (y u : ℕ) → y ≢ k → Holds y u b → Holds y u (set b j deleted_entry)
  Holds-delete_old y u ne (i, m, e) =
      let apart : j ≢ i = λ q. ground (arith, h, m, ne, ap (λ t. slot_at b t) q) in
      let same = get_or-set_ne b j i deleted_entry empty_entry apart in
      (i, ap (holds y) same ∙ m, ap (λ (t : Entry). t.node_index) same ∙ e)

  pub delete-AllFiled : AllFiled (set b j deleted_entry)
  unfolding bucket
  delete-AllFiled y i m =
      let (same, ne) = kept_slot y i m in
      let (ny, at) = filed y i (ap (holds y) (sym same) ∙ m) in
      (
        ny,
        rw (length-set b j deleted_entry) (
            locate-set y b j deleted_entry (length b) (bucket y b) i (ground (arith, h, ne)) refl
              refl (slot_in_range b j k h) at),
      )
