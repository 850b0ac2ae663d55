-- ===== src/Ring/Full.antt =====
-- When a whole call of `try_push` or `try_pop` is refused, and what it gives.
use asterion.Prelude.{
  ℕ, ◌<◌, ◌==◌, ◌≡◌, ◌≢◌, ◌↔◌, refl, inl, inr, true, Option, none, some, List, [], ◌∷◌, length,
  arith, Bool-cases,
}
use asterion.Ring.{increment, try_push, try_pop}
use asterion.Ring.Layout.{Laid}
use asterion.Ring.Threads.{Threads}
use asterion.Ring.Fifo.{IsFifo, end, room, increment-next, apart}

abbrev pub front : {A : Type 0} → List A → Option A
front [] = none
front (x ∷ xs) = some x

module _ {A : Type 0} (capacity : ℕ) (s : Threads A) (h : IsFifo capacity s) where
  accepted_room : (x : A) → (try_push x s.ring).1 ≡ true → length h.queue < capacity
  unfolding try_push
  accepted_room x yes_pushed = elim (Bool-cases (increment s.ring.tail s.ring == s.ring.head)) [
    | inl full ↦ absurd (ground arith)
    | inr free ↦ ground (arith, room capacity s h free, h.sized)
  ]

  room_accepted : (x : A) → length h.queue < capacity → (try_push x s.ring).1 ≡ true
  unfolding try_push
  room_accepted x left = elim (Bool-cases (increment s.ring.tail s.ring == s.ring.head)) [
    | inr free ↦ rw free refl
    | inl full ↦ absurd (
        ground (
          arith,
          increment-next capacity s.ring.tail s.ring h.tail_below,
          end capacity s h,
          h.sized,
          h.head_below,
          h.tail_below,
        ))
  ]

  first_of :
      (u : List A)
      → Laid s.ring.size s.ring.slots s.ring.head u s.ring.tail
      → (u ≢ [] → s.ring.head ≢ s.ring.tail)
      → (try_pop s.ring).1 ≡ front u
  unfolding try_pop
  first_of [] l far = ground (arith, l)
  first_of (x ∷ xs) l far = ground (arith, l.0, far (λ e. cc e))

-- On a ring that holds a queue, `try_push` is accepted exactly if the queue is shorter than the capacity
-- that was asked for.
pub try_push-full :
    {A : Type 0} (capacity : ℕ) (s : Threads A) (h : IsFifo capacity s) (x : A)
    → ((try_push x s.ring).1 ≡ true) ↔ (length h.queue < capacity)
try_push-full capacity s h x = (accepted_room capacity s h x, room_accepted capacity s h x)

-- `try_pop` gives the front of the queue, and nothing exactly if it is empty.
pub try_pop-front :
    {A : Type 0} (capacity : ℕ) (s : Threads A) (h : IsFifo capacity s)
    → (try_pop s.ring).1 ≡ front h.queue
try_pop-front capacity s h = first_of capacity s h h.queue h.laid (apart capacity s h)
