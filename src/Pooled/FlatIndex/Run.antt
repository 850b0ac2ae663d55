-- ===== src/Pooled/FlatIndex/Run.antt =====
-- Every sequence of calls on the index, against a partial function from ids to node indices.
use asterion.Prelude.{
  ℕ, zero, suc, ◌==◌, ◌≡◌, refl, ap, sym, ◌∙◌, false, not, ◌&&◌, inl, inr, ◌≤◌, Option, none, some,
  List, [], ◌∷◌, if◌then◌else◌, length, ltb, map, get_or, Bool-cases, arith, ==-eq,
}
use asterion.Pooled.FlatIndex.{
  Entry, slot_at, is_occupied, empty_entry, FlatOrderIndex, find, next_capacity, reserve,
  insert_with, insert, erase, clear, new_index,
}
use asterion.Pooled.FlatIndex.Slots.{Holds, AllFiled, occupied_count, find-not-Holds}
use asterion.Pooled.FlatIndex.Rehash.{SameEntries, rehash_lem}
use asterion.Pooled.FlatIndex.Map.{
  IsIndex, is_none, SameEntries-IsIndex, find-SameEntries, SameEntries-refl,
}
use asterion.Pooled.FlatIndex.Insert.{insert-IsIndex, find-insert}
use asterion.Pooled.FlatIndex.Erase.{erase-IsIndex, find-erase}

pub data Call : Type 0 where
  call_insert : ℕ → ℕ → Call
  call_erase : ℕ → Call
  call_reserve : ℕ → Call
  call_clear : Call

abbrev pub after : Call → FlatOrderIndex → FlatOrderIndex
after (call_insert order_id node_index) x = (insert order_id node_index x).0
after (call_erase order_id) x = (erase order_id x).0
after (call_reserve expected_size) x = reserve expected_size x
after call_clear x = clear x

unfoldable pub run : List Call → FlatOrderIndex → FlatOrderIndex
run [] x = x
run (c ∷ cs) x = run cs (after c x)

-- A map from ids to node indices as a function.
abbrev pub IdMap : Type 0
IdMap = ℕ → Option ℕ

abbrev pub meant : Call → IdMap → IdMap
meant (call_insert order_id node_index) m y =
    if not (order_id == 0) && (is_none (m order_id) && (order_id == y))
    then some node_index
    else m y
meant (call_erase order_id) m y = if order_id == y then none else m y
meant (call_reserve expected_size) m y = m y
meant call_clear m y = none

unfoldable pub meant_all : List Call → IdMap → IdMap
meant_all [] m = m
meant_all (c ∷ cs) m = meant_all cs (meant c m)

-- A table without a used entry.
blank_lem :
    (x : FlatOrderIndex)
    → ((i : ℕ) → is_occupied (slot_at x.entries i).state ≡ false)
    → occupied_count x.entries ≡ 0
    → x.size ≡ 0
    → IsIndex x × ((y : ℕ) → find y x ≡ none)
blank_lem x blank count sized =
    let nowhere : (y u : ℕ) → Holds y u x.entries → ⊥ = λ y u h. ground (arith, blank h.0, h.1) in
    let filed : AllFiled x.entries = λ k i h. absurd (nowhere k _ (i, h, refl)) in
    (record { filed = filed; sized = sized ∙ sym count }, λ y. find-not-Holds x filed y (nowhere y))

cleared-blank :
    (b : List Entry) (i : ℕ)
    → is_occupied (slot_at (map (λ (e : Entry). empty_entry) b) i).state ≡ false
unfolding map get_or
cleared-blank [] i = refl
cleared-blank (e ∷ b) zero = refl
cleared-blank (e ∷ b) (suc i) = cleared-blank b i

occupied_count-cleared : (b : List Entry) → occupied_count (map (λ (e : Entry). empty_entry) b) ≡ 0
unfolding map occupied_count
occupied_count-cleared [] = refl
occupied_count-cleared (e ∷ b) = occupied_count-cleared b

pub clear_lem : (x : FlatOrderIndex) → IsIndex (clear x) × ((y : ℕ) → find y (clear x) ≡ none)
unfolding clear
clear_lem x = blank_lem (clear x) (cleared-blank x.entries) (occupied_count-cleared x.entries) refl

pub new_index_lem : IsIndex new_index × ((y : ℕ) → find y new_index ≡ none)
unfolding get_or occupied_count
new_index_lem = blank_lem new_index (λ i. refl) refl refl

occupied_count-le : (b : List Entry) → occupied_count b ≤ length b
unfolding occupied_count
occupied_count-le [] = omega arith
occupied_count-le (e ∷ b) = ground (arith, occupied_count-le b)

reserve-SameEntries : (n : ℕ) (x : FlatOrderIndex) → IsIndex x → SameEntries x (reserve n x)
unfolding reserve
reserve-SameEntries n x w = elim (Bool-cases (ltb (length x.entries) (next_capacity n))) [
  | inl e ↦
      rw e
        (rehash_lem (next_capacity n) x w.filed (ground (arith, e, occupied_count-le x.entries))).0
  | inr e ↦ rw e (SameEntries-refl x w)
]

pub reserve-IsIndex : (n : ℕ) (x : FlatOrderIndex) → IsIndex x → IsIndex (reserve n x)
reserve-IsIndex n x w = SameEntries-IsIndex x (reserve n x) (reserve-SameEntries n x w)

insert_0 : (v : ℕ) (x : FlatOrderIndex) → (insert 0 v x).0 ≡ x
unfolding insert insert_with
insert_0 v x = refl

-- The index agrees with a function: it is in order and finds what the function gives.
abbrev Agrees : FlatOrderIndex → IdMap → Type 0
Agrees x m = IsIndex x × ((y : ℕ) → find y x ≡ m y)

insert-Agrees :
    (k v : ℕ) (x : FlatOrderIndex) (m : IdMap)
    → Agrees x m
    → Agrees (insert k v x).0 (meant (call_insert k v) m)
insert-Agrees k v x m (w, found) = elim (Bool-cases (k == 0)) [
  | inl e ↦
      let same : (insert k v x).0 ≡ x = ap (λ z. (insert z v x).0) (==-eq k 0 e) ∙ insert_0 v x in
      rw (same, e) (w, found)
  | inr e ↦
      let (_, finds) = find-insert k v x (ground (arith, e)) w in
      (insert-IsIndex k v x w, λ y. rw (e, sym (found k), sym (found y)) (finds y))
]

after-Agrees :
    (c : Call) (x : FlatOrderIndex) (m : IdMap) → Agrees x m → Agrees (after c x) (meant c m)
after-Agrees (call_insert k v) x m a = insert-Agrees k v x m a
after-Agrees (call_erase k) x m (w, found) =
    (erase-IsIndex k x w, λ y. rw (sym (found y)) ((find-erase k x w).1 y))
after-Agrees (call_reserve n) x m (w, found) =
    let same = reserve-SameEntries n x w in
    (SameEntries-IsIndex x _ same, λ y. find-SameEntries x _ w same y ∙ found y)
after-Agrees call_clear x m a = clear_lem x

run-Agrees :
    (cs : List Call) (x : FlatOrderIndex) (m : IdMap)
    → Agrees x m
    → Agrees (run cs x) (meant_all cs m)
unfolding run meant_all
run-Agrees [] x m a = a
run-Agrees (c ∷ cs) x m a = run-Agrees cs (after c x) (meant c m) (after-Agrees c x m a)

-- After any sequence of inserts, erases, reserves and clears from a new index, each with any arguments,
-- `find` gives for every id what the partial function from ids to node indices gives after the same
-- sequence, in which an insert of the id 0 or of an id that is there changes nothing.
pub run-find :
    (calls : List Call) (order_id : ℕ)
    → find order_id (run calls new_index) ≡ meant_all calls (λ y. none) order_id
run-find calls = (run-Agrees calls new_index (λ y. none) new_index_lem).1
