-- ===== src/Ring/Fifo.antt =====
-- The queue that the ring holds: it is first in, first out, whatever the interleaving.
use asterion.Prelude.{
  ℕ, suc, ◌+◌, ◌<◌, ◌≤◌, ◌==◌, ◌≡◌, ◌≢◌, ◌⊎◌, refl, sym, ap, subst, ◌∙◌, false, List, [], ◌∷◌, ◌++◌,
  length, length-append, append_assoc, arith,
}
use asterion.Ring.{SpscRingBuffer, new_ring, increment}
use asterion.Ring.Index.{step_index}
use asterion.Ring.Layout.{next_index, next_below, Laid, Laid-end, Laid-write, Laid-snoc}
use asterion.Ring.Threads.{Producer, Consumer, Threads, start_of, store_slot, Step, Reachable}

-- What each thread knows where it stands.
abbrev pub ProducerOk : {A : Type 0} → Producer A → SpscRingBuffer A → List A → Type 0
ProducerOk Producer.idle r q = Unit
ProducerOk (Producer.tested x n) r q = (n ≡ next_index r.size r.tail) × (length q + 1 < r.size)
ProducerOk (Producer.written x n) r q =
    (n ≡ next_index r.size r.tail) × (length q + 1 < r.size) × (r.slots r.tail ≡ x)

abbrev pub ConsumerOk : {A : Type 0} → Consumer A → SpscRingBuffer A → List A → Type 0
ConsumerOk Consumer.idle r q = Unit
ConsumerOk Consumer.tested r q = q ≢ []
ConsumerOk (Consumer.read x) r q = (q ≢ []) × (r.slots r.head ≡ x)

pub record IsFifo {A : Type 0} (capacity : ℕ) (s : Threads A) : Type 0 where
  pub queue : List A
  pub bounded : length queue ≤ capacity
  pub ordered : s.pushed ≡ s.popped ++ queue
  pub sized : s.ring.size ≡ suc capacity
  pub head_below : s.ring.head < s.ring.size
  pub tail_below : s.ring.tail < s.ring.size
  pub laid : Laid s.ring.size s.ring.slots s.ring.head queue s.ring.tail
  pub producer_ok : ProducerOk s.producer s.ring queue
  pub consumer_ok : ConsumerOk s.consumer s.ring queue

module _ {A : Type 0} (capacity : ℕ) where
  start_of-IsFifo : (a : A) → IsFifo capacity (start_of a capacity)
  unfolding start_of new_ring
  start_of-IsFifo a = record {
    queue = [];
    bounded = omega arith;
    ordered = refl;
    sized = refl;
    head_below = omega arith;
    tail_below = omega arith;
    laid = refl;
    producer_ok = tt;
    consumer_ok = tt;
  }

  pub increment-next :
      (i : ℕ) (r : SpscRingBuffer A) → i < r.size → increment i r ≡ next_index r.size i
  unfolding increment
  increment-next i r h = step_index i r.size h

  module _ (s : Threads A) (h : IsFifo capacity s) where
    abbrev q : List A
    q = h.queue

    short : length q < s.ring.size
    short = omega (arith, h.bounded, h.sized)

    pub end :
        (s.ring.head + length q ≡ s.ring.tail)
        ⊎ (s.ring.head + length q ≡ s.ring.tail + s.ring.size)
    end = Laid-end s.ring.size s.ring.slots s.ring.head q s.ring.tail h.head_below short h.laid

    pub room : increment s.ring.tail s.ring == s.ring.head ≡ false → length q + 1 < s.ring.size
    room free = ground (
      arith,
      increment-next s.ring.tail s.ring h.tail_below,
      end,
      short,
      h.head_below,
      h.tail_below,
    )

    nonempty : s.ring.head == s.ring.tail ≡ false → q ≢ []
    nonempty apart none_there =
        let l =
          subst (λ u. Laid s.ring.size s.ring.slots s.ring.head u s.ring.tail) none_there h.laid in
        absurd (ground arith)

    pub apart : q ≢ [] → s.ring.head ≢ s.ring.tail
    apart ne same = absurd (ne (no_elements q (ground (arith, end, short, same))))
      where
        no_elements : (u : List A) → length u ≡ 0 → u ≡ []
        no_elements [] e = refl
        no_elements (x ∷ xs) e = absurd (omega arith)

    consumer_write :
        (x : A) (c : Consumer A) → ConsumerOk c s.ring q → ConsumerOk c (store_slot x s.ring) q
    consumer_write x Consumer.idle ok = tt
    consumer_write x Consumer.tested ok = ok
    consumer_write x (Consumer.read y) ok = (ok.0, ground (arith, apart ok.0, ok.1))

  snoc_nonempty : (u : List A) (x : A) → u ++ x ∷ [] ≢ []
  snoc_nonempty [] x e = cc e
  snoc_nonempty (y ∷ u) x e = cc e

  consumer_snoc :
      (r : SpscRingBuffer A) (n : ℕ) (u : List A) (x : A) (c : Consumer A)
      → ConsumerOk c r u
      → ConsumerOk c (record r { tail = n }) (u ++ x ∷ [])
  consumer_snoc r n u x Consumer.idle ok = tt
  consumer_snoc r n u x Consumer.tested ok = snoc_nonempty u x
  consumer_snoc r n u x (Consumer.read y) ok = (snoc_nonempty u x, ok.1)

  producer_rest :
      (r : SpscRingBuffer A) (n : ℕ) (y : A) (ys : List A) (p : Producer A)
      → ProducerOk p r (y ∷ ys)
      → ProducerOk p (record r { head = n }) ys
  producer_rest r n y ys Producer.idle ok = tt
  producer_rest r n y ys (Producer.tested x m) ok = (ok.0, omega (arith, ok.1))
  producer_rest r n y ys (Producer.written x m) ok = (ok.0, omega (arith, ok.1), ok.2)

  -- What `pop_publishes` leads to.
  abbrev after_pop : A → Threads A → Threads A
  after_pop x s = record s {
    ring = record (s.ring) { head = increment s.ring.head s.ring };
    consumer = Consumer.idle;
    popped = s.popped ++ x ∷ [];
  }

  popped-IsFifo :
      (s : Threads A) (x : A) (h : IsFifo capacity s)
      → h.queue ≢ []
      → s.ring.slots s.ring.head ≡ x
      → (u : List A) → h.queue ≡ u
      → IsFifo capacity (after_pop x s)
  popped-IsFifo s x h ne there [] e = absurd (ne e)
  popped-IsFifo s x h ne there (y ∷ ys) e =
      let l = subst (λ u. Laid s.ring.size s.ring.slots s.ring.head u s.ring.tail) e h.laid in
      let same : y ≡ x = sym l.0 ∙ there in
      let moved = increment-next s.ring.head s.ring h.head_below in
      record {
        queue = ys;
        bounded = ground (arith, h.bounded, ap length e);
        ordered =
            h.ordered
            ∙ ap (λ u. s.popped ++ u) e
            ∙ ap (λ z. s.popped ++ z ∷ ys) same
            ∙ sym (append_assoc s.popped (x ∷ []) ys);
        sized = h.sized;
        head_below = ground (arith, moved, next_below s.ring.size s.ring.head h.head_below);
        tail_below = h.tail_below;
        laid = subst (λ i. Laid s.ring.size s.ring.slots i ys s.ring.tail) (sym moved) l.1;
        producer_ok =
            producer_rest s.ring (increment s.ring.head s.ring) y ys s.producer
              (subst (ProducerOk s.producer s.ring) e h.producer_ok);
        consumer_ok = tt;
      }

  step-IsFifo : (s t : Threads A) → IsFifo capacity s → Step s t → IsFifo capacity t
  step-IsFifo s t h (Step.push_refused x full at_rest) = h
  step-IsFifo s t h (Step.pop_refused empty at_rest) = h
  step-IsFifo s t h (Step.push_tests x at_rest free) = record {
    queue = h.queue;
    bounded = h.bounded;
    ordered = h.ordered;
    sized = h.sized;
    head_below = h.head_below;
    tail_below = h.tail_below;
    laid = h.laid;
    producer_ok = (increment-next s.ring.tail s.ring h.tail_below, room s h free);
    consumer_ok = h.consumer_ok;
  }
  step-IsFifo s t h (Step.push_writes x n at) = record {
    queue = h.queue;
    bounded = h.bounded;
    ordered = h.ordered;
    sized = h.sized;
    head_below = h.head_below;
    tail_below = h.tail_below;
    laid =
        Laid-write s.ring.size s.ring.slots s.ring.head h.queue s.ring.tail x h.head_below
          h.tail_below (short s h) h.laid;
    producer_ok =
        let p = subst (λ p. ProducerOk p s.ring h.queue) at h.producer_ok in
        (p.0, p.1, ground arith);
    consumer_ok = consumer_write s h x s.consumer h.consumer_ok;
  }
  step-IsFifo s t h (Step.push_publishes x n at) =
      let p = subst (λ p. ProducerOk p s.ring h.queue) at h.producer_ok in
      record {
        queue = h.queue ++ x ∷ [];
        bounded = ground (arith, length-append h.queue (x ∷ []), p.1, h.sized);
        ordered = ap (λ u. u ++ x ∷ []) h.ordered ∙ append_assoc s.popped h.queue (x ∷ []);
        sized = h.sized;
        head_below = h.head_below;
        tail_below = ground (arith, p.0, next_below s.ring.size s.ring.tail h.tail_below);
        laid =
            subst (Laid s.ring.size s.ring.slots s.ring.head (h.queue ++ x ∷ [])) (sym p.0)
              (Laid-snoc s.ring.size s.ring.slots s.ring.head h.queue s.ring.tail x h.laid p.2);
        producer_ok = tt;
        consumer_ok = consumer_snoc s.ring n h.queue x s.consumer h.consumer_ok;
      }
  step-IsFifo s t h (Step.pop_tests at_rest some_there) = record {
    queue = h.queue;
    bounded = h.bounded;
    ordered = h.ordered;
    sized = h.sized;
    head_below = h.head_below;
    tail_below = h.tail_below;
    laid = h.laid;
    producer_ok = h.producer_ok;
    consumer_ok = nonempty s h some_there;
  }
  step-IsFifo s t h (Step.pop_reads at) = record {
    queue = h.queue;
    bounded = h.bounded;
    ordered = h.ordered;
    sized = h.sized;
    head_below = h.head_below;
    tail_below = h.tail_below;
    laid = h.laid;
    producer_ok = h.producer_ok;
    consumer_ok = (subst (λ c. ConsumerOk c s.ring h.queue) at h.consumer_ok, refl);
  }
  step-IsFifo s t h (Step.pop_publishes x at) =
      let c = subst (λ c. ConsumerOk c s.ring h.queue) at h.consumer_ok in
      popped-IsFifo s x h c.0 c.1 h.queue refl

  -- Whatever the producer and the consumer interleave, what was popped is what was pushed, in order, but for
  -- a queue of at most `capacity` elements, which the slots hold.
  pub Reachable-IsFifo : (a : A) (s : Threads A) → Reachable a capacity s → IsFifo capacity s
  Reachable-IsFifo a s Reachable.starts = start_of-IsFifo a
  Reachable-IsFifo a s (Reachable.steps {s = before} reach one) =
      step-IsFifo before s (Reachable-IsFifo a before reach) one
