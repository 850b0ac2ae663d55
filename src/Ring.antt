-- ===== src/Ring.antt =====
-- concurrency/spsc_ring_buffer.hpp: the ring that one producer and one consumer share. The loads and
-- stores of the two indices, and the accesses to a slot, are steps of their own, so that the threads
-- can interleave between them.
pub mod Index
pub mod Layout
pub mod Threads
pub mod Fifo
pub mod Full
mod Tests
use asterion.Prelude.{
  ℕ, suc, ◌+◌, ◌-◌, ◌%◌, ◌==◌, Bool, true, false, Option, none, some, if◌then◌else◌,
}

pub record SpscRingBuffer (A : Type 0) : Type 0 where
  pub slots : ℕ → A
  pub size : ℕ
  pub head : ℕ
  pub tail : ℕ

module _ {A : Type 0} where
  -- Every slot holds the value-initialised element `a`.
  unfoldable pub new_ring : A → ℕ → SpscRingBuffer A
  new_ring a capacity = record { slots = λ i. a; size = suc capacity; head = 0; tail = 0 }

  unfoldable pub capacity : SpscRingBuffer A → ℕ
  capacity r = r.size - 1

  unfoldable pub increment : ℕ → SpscRingBuffer A → ℕ
  increment i r = (i + 1) % r.size

  abbrev pub write : ℕ → A → (ℕ → A) → ℕ → A
  write i x f j = if i == j then x else f j

  -- Run without interruption by its one producer.
  unfoldable pub try_push : A → SpscRingBuffer A → SpscRingBuffer A × Bool
  unfolding increment
  try_push x r =
      if increment r.tail r == r.head
      then (r, false)
      else (record r { slots = write r.tail x r.slots; tail = increment r.tail r }, true)

  unfoldable pub try_pop : SpscRingBuffer A → SpscRingBuffer A × Option A
  unfolding increment
  try_pop r =
      if r.head == r.tail
      then (r, none)
      else (record r { head = increment r.head r }, some (r.slots r.head))

  unfoldable pub size_approx : SpscRingBuffer A → ℕ
  size_approx r = (r.tail + r.size - r.head) % r.size
