-- ===== src/Broker/Disconnect.antt =====
-- The cancels of a disconnect: one for every live order, in ascending order of the ids.
use asterion.Prelude.{
  ℕ, ◌==◌, ◌≡◌, inl, inr, leb, true, none, some, List, [], ◌∷◌, if◌then◌else◌, arith, Bool-cases,
  Option-cases, All, All-mono,
}
use asterion.Prelude.Int.{ℤ}
use asterion.Prelude.Assoc.{find, find-modify, IsUnique}
use asterion.Broker.Event.{pending_cancel}
use asterion.Broker.{
  OrderRecord, SimulatedBrokerSession, record_event, cancel_one, is_live, is_pending, with_state,
  live_ids, insert, sort,
}

-- An order that the map finds, and that is live.
abbrev pub IsLiveIn : List (ℕ × OrderRecord) → ℕ → Type 0
IsLiveIn os id = (o : OrderRecord) × (find id os ≡ some o) × (is_live o.state ≡ true)

still_live :
    (j : ℕ) (w : OrderRecord) (os : List (ℕ × OrderRecord)) (id : ℕ)
    → find j os ≡ none
    → IsLiveIn os id
    → IsLiveIn ((j, w) ∷ os) id
unfolding find
still_live j w os id absent (o, there, live) = (o, ground arith, live)

pub live_ids-IsLiveIn :
    (os : List (ℕ × OrderRecord)) → IsUnique os → All (IsLiveIn os) (live_ids os)
unfolding live_ids find
live_ids-IsLiveIn [] u = tt
live_ids-IsLiveIn ((j, w) ∷ os) u =
    let rest =
      All-mono (IsLiveIn os) (IsLiveIn ((j, w) ∷ os)) (live_ids os)
        (λ id l. still_live j w os id u.0 l) (live_ids-IsLiveIn os u.1) in
    elim (Bool-cases (is_live w.state)) [
      | inl live ↦ rw live ((w, ground arith, live), rest)
      | inr dead ↦ rw dead rest
    ]

insert-All : (P : ℕ → Type 0) (x : ℕ) (ys : List ℕ) → P x → All P ys → All P (insert x ys)
unfolding insert
insert-All P x [] h a = (h, tt)
insert-All P x (y ∷ ys) h a = elim (Bool-cases (leb x y)) [
  | inl le ↦ rw le (h, a)
  | inr gt ↦ rw gt (a.0, insert-All P x ys h a.1)
]

pub sort-All : (P : ℕ → Type 0) (xs : List ℕ) → All P xs → All P (sort xs)
unfolding sort
sort-All P [] a = tt
sort-All P (x ∷ xs) a = insert-All P x (sort xs) a.0 (sort-All P xs a.1)

module _ {G : Type 0} where
  -- Asking for one cancel leaves the live orders live.
  pub cancel_one-IsLiveIn :
      (t : ℤ) (id : ℕ) (s : SimulatedBrokerSession G) (j : ℕ)
      → IsLiveIn s.orders j
      → IsLiveIn (cancel_one t id s).orders j
  unfolding cancel_one record_event
  cancel_one-IsLiveIn t id s j (o, there, live) = elim (Option-cases (find id s.orders)) [
    | inl absent ↦ rw (absent, cancel_one) (o, there, live)
    | inr (x, found) ↦ elim (Bool-cases (is_pending x.state)) [
      | inl asked ↦ rw (found, cancel_one, asked) (o, there, live)
      | inr fresh ↦
          rw (found, cancel_one, fresh)
            (
              (if id == j then with_state pending_cancel o else o),
              ground (arith, find-modify id j (with_state pending_cancel) s.orders, there),
              ground arith,
            )
    ]
  ]
