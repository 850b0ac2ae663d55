-- ===== src/Book/Queue/Laws.antt =====
-- What the three writes to a queue do to its orders, its ids and its quantity.
use asterion.Prelude.{
  ℕ, ◌+◌, ◌≤◌, ◌≡◌, refl, true, false, none, some, List, [], ◌∷◌, ◌++◌, arith, ◌==◌, if◌then◌else◌,
  is_empty, All, sym, subst, ◌∙◌, inl, inr, Bool-cases,
}
use asterion.Prelude.Int.{
  ℤ, ◌+ℤ◌, ◌-ℤ◌, +ℤ_zero, zero_+ℤ, +ℤ_assoc, +-ℤ_cancel, +-ℤ_assoc, -+ℤ_comm,
}
use asterion.Book.Queue.{Order, deref, erase_node, reduce_node, child_sum, occurs}

pub deref_of_occurs-zero : (id : ℕ) (os : List Order) → occurs id os ≡ 0 → deref id os ≡ none
unfolding deref occurs
deref_of_occurs-zero id [] h = refl
deref_of_occurs-zero id (o ∷ os) h = ground (arith, deref_of_occurs-zero id os)

pub occurs_of_deref :
    (id : ℕ) (os : List Order) {o : Order} → deref id os ≡ some o → 1 ≤ occurs id os
unfolding deref occurs
occurs_of_deref id [] e = cc
occurs_of_deref id (x ∷ os) {o} e = ground (arith, occurs_of_deref id os {o = o})

pub order_id_of_deref :
    (id : ℕ) (os : List Order) {o : Order} → deref id os ≡ some o → o.order_id ≡ id
unfolding deref
order_id_of_deref id [] e = cc
order_id_of_deref id (x ∷ os) {o} e = ground (arith, order_id_of_deref id os {o = o})

pub All_of_deref {κ} :
    (P : Order → Type κ) (id : ℕ) (os : List Order) {o : Order}
    → All P os
    → deref id os ≡ some o
    → P o
unfolding deref
All_of_deref P id [] a e = cc
All_of_deref P id (x ∷ os) {o} a e = elim (Bool-cases (x.order_id == id)) [
  | inl h ↦ subst P (same h) a.0
  | inr h ↦ All_of_deref P id os a.1 (rw h at e)
]
  where
    same : x.order_id == id ≡ true → x ≡ o
    same h = ground arith

-- A new order goes to the end: those before it are found first.
pub deref-append :
    (id : ℕ) (os : List Order) (o : Order)
    → deref id (os ++ o ∷ [])
      ≡ elim (deref id os) [ none ↦ if o.order_id == id then some o else none | some x ↦ some x ]
unfolding deref
deref-append id [] o = refl
deref-append id (x ∷ os) o = ground (arith, deref-append id os o)

pub occurs-append :
    (id : ℕ) (os : List Order) (o : Order)
    → occurs id (os ++ o ∷ []) ≡ occurs id os + (if o.order_id == id then 1 else 0)
unfolding occurs
occurs-append id [] o = ground arith
occurs-append id (x ∷ os) o = ground (arith, occurs-append id os o)

pub child_sum-append :
    (os : List Order) (o : Order) → child_sum (os ++ o ∷ []) ≡ child_sum os +ℤ o.quantity
unfolding child_sum
child_sum-append [] o = +ℤ_zero o.quantity ∙ sym (zero_+ℤ o.quantity)
child_sum-append (x ∷ os) o =
    rw (child_sum-append os o) (sym (+ℤ_assoc x.quantity (child_sum os) o.quantity))

pub occurs-erase_node :
    (id j : ℕ) (os : List Order) {o : Order}
    → deref id os ≡ some o
    → occurs j (erase_node id os) + (if id == j then 1 else 0) ≡ occurs j os
unfolding deref occurs erase_node
occurs-erase_node id j [] e = cc
occurs-erase_node id j (x ∷ os) {o} e = ground (arith, occurs-erase_node id j os {o = o})

pub deref-erase_node_ne :
    (id j : ℕ) (os : List Order) → id == j ≡ false → deref j (erase_node id os) ≡ deref j os
unfolding deref erase_node
deref-erase_node_ne id j [] h = refl
deref-erase_node_ne id j (x ∷ os) h = ground (arith, deref-erase_node_ne id j os h)

pub child_sum-erase_node :
    (id : ℕ) (os : List Order) {o : Order}
    → deref id os ≡ some o
    → child_sum (erase_node id os) ≡ child_sum os -ℤ o.quantity
unfolding deref child_sum erase_node
child_sum-erase_node id [] e = cc
child_sum-erase_node id (x ∷ os) {o} e = ground (
  arith,
  +-ℤ_cancel x.quantity (child_sum os),
  +-ℤ_assoc x.quantity (child_sum os) o.quantity,
  child_sum-erase_node id os {o = o},
)

pub All-erase_node {κ} :
    (P : Order → Type κ) (id : ℕ) (os : List Order) → All P os → All P (erase_node id os)
unfolding erase_node
All-erase_node P id [] a = tt
All-erase_node P id (x ∷ os) a = elim (Bool-cases (x.order_id == id)) [
  | inl h ↦ rw h a.1
  | inr h ↦ rw h (a.0, All-erase_node P id os a.1)
]

pub occurs-reduce_node :
    (id j : ℕ) (q : ℤ) (os : List Order) → occurs j (reduce_node id q os) ≡ occurs j os
unfolding occurs reduce_node
occurs-reduce_node id j q [] = refl
occurs-reduce_node id j q (x ∷ os) = ground (arith, occurs-reduce_node id j q os)

pub deref-reduce_node :
    (id j : ℕ) (q : ℤ) (os : List Order)
    → deref j (reduce_node id q os) ≡ elim (deref j os) [
      | none ↦ none
      | some o ↦ if id == j then some (record o { quantity = o.quantity -ℤ q }) else some o
    ]
unfolding deref reduce_node
deref-reduce_node id j q [] = refl
deref-reduce_node id j q (x ∷ os) = ground (arith, deref-reduce_node id j q os)

pub child_sum-reduce_node :
    (id : ℕ) (q : ℤ) (os : List Order) {o : Order}
    → deref id os ≡ some o
    → child_sum (reduce_node id q os) ≡ child_sum os -ℤ q
unfolding deref child_sum reduce_node
child_sum-reduce_node id q [] e = cc
child_sum-reduce_node id q (x ∷ os) {o} e = ground (
  arith,
  -+ℤ_comm x.quantity q (child_sum os),
  +-ℤ_assoc x.quantity (child_sum os) q,
  child_sum-reduce_node id q os {o = o},
)

-- Reducing changes only the order with that id.
pub All-reduce_node {κ} :
    (P : Order → Type κ) (id : ℕ) (q : ℤ) (os : List Order) {o : Order}
    → All P os
    → deref id os ≡ some o
    → P (record o { quantity = o.quantity -ℤ q })
    → All P (reduce_node id q os)
unfolding deref reduce_node
All-reduce_node P id q [] a e h = tt
All-reduce_node P id q (x ∷ os) {o} a e h = elim (Bool-cases (x.order_id == id)) [
  | inl hit ↦
      rw hit (subst (λ (y : Order). P (record y { quantity = y.quantity -ℤ q })) (same hit) h, a.1)
  | inr miss ↦ rw miss (a.0, All-reduce_node P id q os {o = o} a.1 (rw miss at e) h)
]
  where
    same : x.order_id == id ≡ true → o ≡ x
    same hit = ground arith

pub is_empty-reduce_node :
    (id : ℕ) (q : ℤ) (os : List Order) → is_empty (reduce_node id q os) ≡ is_empty os
unfolding reduce_node
is_empty-reduce_node id q [] = refl
is_empty-reduce_node id q (x ∷ os) = ground arith

pub nonempty_of_deref :
    (id : ℕ) (os : List Order) {o : Order} → deref id os ≡ some o → is_empty os ≡ false
unfolding deref
nonempty_of_deref id [] e = cc
nonempty_of_deref id (x ∷ os) e = refl
