-- ===== src/Ring/Tests.antt =====
-- One push, step by step, and the ring's theorem after it.
use asterion.Prelude.{ℕ, ◌≡◌, refl, true, [], ◌∷◌, ◌↔◌, ◌<◌, length}
use asterion.Ring.Threads.{Threads, start_of, store_slot, Step, Reachable}
use asterion.Ring.Fifo.{IsFifo, Reachable-IsFifo}
use asterion.Ring.{increment, new_ring, try_push, try_pop}
use asterion.Ring.Full.{front, try_push-full, try_pop-front}

abbrev at_start : Threads ℕ
at_start = start_of 0 2

abbrev published : Threads ℕ
published = record at_start {
  ring = record (store_slot 7 at_start.ring) { tail = 1 };
  pushed = 7 ∷ [];
}

published-Reachable : Reachable 0 2 published
unfolding start_of new_ring increment
published-Reachable =
    Reachable.steps
      (Reachable.steps (Reachable.steps Reachable.starts (Step.push_tests 7 refl refl))
        (Step.push_writes 7 1 refl))
      (Step.push_publishes 7 1 refl)

Reachable-IsFifo_example : IsFifo 2 published
Reachable-IsFifo_example = Reachable-IsFifo 2 0 published published-Reachable

try_push-full_example :
    ((try_push 8 published.ring).1 ≡ true)
    ↔ (length (Reachable-IsFifo 2 0 published published-Reachable).queue < 2)
try_push-full_example =
    try_push-full 2 published (Reachable-IsFifo 2 0 published published-Reachable) 8

try_pop-front_example :
    (try_pop published.ring).1 ≡ front (Reachable-IsFifo 2 0 published published-Reachable).queue
try_pop-front_example =
    try_pop-front 2 published (Reachable-IsFifo 2 0 published published-Reachable)
