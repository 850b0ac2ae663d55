-- ===== src/Ring/Threads.antt =====
-- The producer and the consumer as threads: every load, slot access and store is a step, and the steps
-- of the two interleave in any order. `pushed` and `popped` list the completed operations.
use asterion.Prelude.{ℕ, ◌==◌, ◌≡◌, true, false, List, [], ◌∷◌, ◌++◌}
use asterion.Ring.{SpscRingBuffer, new_ring, increment, write}

-- Where `try_push` stands: between calls; past its test; past its write to the slot.
pub data Producer (A : Type 0) : Type 0 where
  idle : Producer A
  tested : A → ℕ → Producer A
  written : A → ℕ → Producer A

-- Where `try_pop` stands: between calls; past its test; past its read of the slot.
pub data Consumer (A : Type 0) : Type 0 where
  idle : Consumer A
  tested : Consumer A
  read : A → Consumer A

pub record Threads (A : Type 0) : Type 0 where
  pub ring : SpscRingBuffer A
  pub producer : Producer A
  pub consumer : Consumer A
  pub pushed : List A
  pub popped : List A

unfoldable pub start_of : {A : Type 0} → A → ℕ → Threads A
unfolding new_ring
start_of a capacity = record {
  ring = new_ring a capacity;
  producer = Producer.idle;
  consumer = Consumer.idle;
  pushed = [];
  popped = [];
}

abbrev pub store_slot : {A : Type 0} → A → SpscRingBuffer A → SpscRingBuffer A
store_slot x r = record r { slots = write r.tail x r.slots }

pub data Step {A : Type 0} (s : Threads A) : Threads A → Type 0 where
  push_refused :
      (x : A)
      → increment s.ring.tail s.ring == s.ring.head ≡ true
      → s.producer ≡ Producer.idle
      → Step s s
  push_tests :
      (x : A)
      → s.producer ≡ Producer.idle
      → increment s.ring.tail s.ring == s.ring.head ≡ false
      → Step s (record s { producer = Producer.tested x (increment s.ring.tail s.ring) })
  push_writes :
      (x : A) (next : ℕ)
      → s.producer ≡ Producer.tested x next
      → Step s (record s { ring = store_slot x s.ring; producer = Producer.written x next })
  push_publishes :
      (x : A) (next : ℕ)
      → s.producer ≡ Producer.written x next
      → Step s (record s {
        ring = record (s.ring) { tail = next };
        producer = Producer.idle;
        pushed = s.pushed ++ x ∷ [];
      })
  pop_refused : s.ring.head == s.ring.tail ≡ true → s.consumer ≡ Consumer.idle → Step s s
  pop_tests :
      s.consumer ≡ Consumer.idle
      → s.ring.head == s.ring.tail ≡ false
      → Step s (record s { consumer = Consumer.tested })
  pop_reads :
      s.consumer ≡ Consumer.tested
      → Step s (record s { consumer = Consumer.read (s.ring.slots s.ring.head) })
  pop_publishes :
      (x : A)
      → s.consumer ≡ Consumer.read x
      → Step s (record s {
        ring = record (s.ring) { head = increment s.ring.head s.ring };
        consumer = Consumer.idle;
        popped = s.popped ++ x ∷ [];
      })

pub data Reachable {A : Type 0} (a : A) (capacity : ℕ) : Threads A → Type 0 where
  starts : Reachable a capacity (start_of a capacity)
  steps : {s t : Threads A} → Reachable a capacity s → Step s t → Reachable a capacity t
