-- ===== src/Ring/Layout.antt =====
-- How the slots of the ring hold a queue, from the head to the tail.
use asterion.Prelude.{
  ℕ, ◌+◌, ◌<◌, ◌==◌, ◌≡◌, ◌⊎◌, inl, ap, ◌∙◌, List, [], ◌∷◌, ◌++◌, if◌then◌else◌, length, arith,
}
use asterion.Ring.{write}

abbrev pub next_index : ℕ → ℕ → ℕ
next_index size i = if i + 1 == size then 0 else i + 1

module _ {A : Type 0} (size : ℕ) where
  -- The slots from `h` on, up to `t`, hold the queue.
  abbrev pub Laid : (ℕ → A) → ℕ → List A → ℕ → Type 0
  Laid slots h [] t = h ≡ t
  Laid slots h (x ∷ xs) t = (slots h ≡ x) × Laid slots (next_index size h) xs t

  pub Laid-end :
      (slots : ℕ → A) (h : ℕ) (q : List A) (t : ℕ)
      → h < size
      → length q < size
      → Laid slots h q t
      → (h + length q ≡ t) ⊎ (h + length q ≡ t + size)
  Laid-end slots h [] t hs hq l = inl (ground (arith, l))
  Laid-end slots h (x ∷ xs) t hs hq l =
      ground (arith, Laid-end slots (next_index size h) xs t (ground arith) (ground arith) l.1)

  pub Laid-write :
      (slots : ℕ → A) (h : ℕ) (q : List A) (t : ℕ) (x : A)
      → h < size
      → t < size
      → length q < size
      → Laid slots h q t
      → Laid (write t x slots) h q t
  Laid-write slots h [] t x hs ht hq l = l
  Laid-write slots h (y ∷ ys) t x hs ht hq l = (
    ground (arith, Laid-end slots h (y ∷ ys) t hs hq l, l.0),
    Laid-write slots (next_index size h) ys t x (ground arith) ht (ground arith) l.1,
  )

  pub Laid-snoc :
      (slots : ℕ → A) (h : ℕ) (q : List A) (t : ℕ) (x : A)
      → Laid slots h q t
      → slots t ≡ x
      → Laid slots h (q ++ x ∷ []) (next_index size t)
  Laid-snoc slots h [] t x l e = (ap slots l ∙ e, ap (next_index size) l)
  Laid-snoc slots h (y ∷ ys) t x l e = (l.0, Laid-snoc slots (next_index size h) ys t x l.1 e)

-- The next index is below the size again.
pub next_below : (size i : ℕ) → i < size → next_index size i < size
next_below size i h = ground arith
