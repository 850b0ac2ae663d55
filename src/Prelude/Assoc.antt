-- ===== src/Prelude/Assoc.antt =====
-- `std::unordered_map` with integer keys as an association list. `find` gives what the key's entry
-- holds; `put` is `map[key] = value`; `erase` drops the key's entry.
use Prim.Native.Nat.{ℕ}
use mathlib.Core.Path.{◌≡◌, refl, subst}
use mathlib.Core.Option.{Option, none, some}
use mathlib.Core.List.{List, [], ◌∷◌}
use native.Mathlib.Omega.{arith}
use mathlib.Core.Logic.{inl, inr}
use asterion.Prelude.Tests.{◌==◌, if◌then◌else◌, Bool-cases, Option-cases}

abbrev pub map_option {ℓ} : {V : Type ℓ} → (V → V) → Option V → Option V
map_option f none = none
map_option f (some v) = some (f v)

module _ {ℓ} {V : Type ℓ} where
  unfoldable pub find : ℕ → List (ℕ × V) → Option V
  find k [] = none
  find k ((j, v) ∷ m) = if j == k then some v else find k m

  unfoldable pub put : ℕ → V → List (ℕ × V) → List (ℕ × V)
  put k v [] = (k, v) ∷ []
  put k v ((j, w) ∷ m) = if j == k then (k, v) ∷ m else (j, w) ∷ put k v m

  unfoldable pub erase : ℕ → List (ℕ × V) → List (ℕ × V)
  erase k [] = []
  erase k ((j, w) ∷ m) = let rest = erase k m in if j == k then rest else (j, w) ∷ rest

  pub find-put :
      (k j : ℕ) (v : V) (m : List (ℕ × V))
      → find j (put k v m) ≡ (if k == j then some v else find j m)
  unfolding find put
  find-put k j v [] = refl
  find-put k j v ((i, w) ∷ m) = ground (arith, find-put k j v m)

  pub find-erase :
      (k j : ℕ) (m : List (ℕ × V)) → find j (erase k m) ≡ (if k == j then none else find j m)
  unfolding find erase
  find-erase k j [] = ground arith
  find-erase k j ((i, w) ∷ m) = ground (arith, find-erase k j m)

  -- `emplace(key, value)`: an entry that is there stays as it is.
  unfoldable pub emplace : ℕ → V → List (ℕ × V) → List (ℕ × V)
  unfolding find put
  emplace k v m = elim (find k m) [ none ↦ put k v m | some _ ↦ m ]

  -- A write through a reference to the key's value.
  unfoldable pub modify : ℕ → (V → V) → List (ℕ × V) → List (ℕ × V)
  modify k f [] = []
  modify k f ((j, w) ∷ m) = if j == k then (j, f w) ∷ m else (j, w) ∷ modify k f m

  pub find-modify :
      (k j : ℕ) (f : V → V) (m : List (ℕ × V))
      → find j (modify k f m) ≡ (if k == j then map_option f (find j m) else find j m)
  unfolding find modify
  find-modify k j f [] = ground arith
  find-modify k j f ((i, w) ∷ m) = ground (arith, find-modify k j f m)

  pub find-emplace :
      (k j : ℕ) (v : V) (m : List (ℕ × V))
      → find k m ≡ none
      → find j (emplace k v m) ≡ (if k == j then some v else find j m)
  unfolding emplace
  find-emplace k j v m absent = ground (arith, absent, find-put k j v m)

  -- No key twice.
  abbrev pub IsUnique : List (ℕ × V) → Type ℓ
  IsUnique [] = Unit
  IsUnique ((k, v) ∷ m) = (find k m ≡ none) × IsUnique m

  pub modify-IsUnique :
      (k : ℕ) (f : V → V) (m : List (ℕ × V)) → IsUnique m → IsUnique (modify k f m)
  unfolding modify
  modify-IsUnique k f [] u = tt
  modify-IsUnique k f ((j, w) ∷ m) u = elim (Bool-cases (j == k)) [
    | inl e ↦ rw e u
    | inr e ↦ rw e (ground (arith, find-modify k j f m, u.0), modify-IsUnique k f m u.1)
  ]

  pub put-IsUnique :
      (k : ℕ) (v : V) (m : List (ℕ × V)) → IsUnique m → find k m ≡ none → IsUnique (put k v m)
  unfolding put find
  put-IsUnique k v [] u absent = (refl, tt)
  put-IsUnique k v ((j, w) ∷ m) u absent = elim (Bool-cases (j == k)) [
    | inl e ↦ absurd (ground arith)
    | inr e ↦ rw e (ground (arith, find-put k j v m, u.0), put-IsUnique k v m u.1 (ground arith))
  ]

  pub emplace-IsUnique : (k : ℕ) (v : V) (m : List (ℕ × V)) → IsUnique m → IsUnique (emplace k v m)
  unfolding emplace
  emplace-IsUnique k v m u = elim (Option-cases (find k m)) [
    | inl absent ↦ rw (absent, emplace) (put-IsUnique k v m u absent)
    | inr (w, there) ↦ rw (there, emplace) u
  ]

  pub erase-IsUnique : (k : ℕ) (m : List (ℕ × V)) → IsUnique m → IsUnique (erase k m)
  unfolding erase
  erase-IsUnique k [] u = tt
  erase-IsUnique k ((j, w) ∷ m) u = elim (Bool-cases (j == k)) [
    | inl e ↦ rw e (erase-IsUnique k m u.1)
    | inr e ↦ rw e (ground (arith, find-erase k j m, u.0), erase-IsUnique k m u.1)
  ]

  -- A predicate on the values, and the writes.
  module _ {κ} (P : V → Type κ) where
    abbrev pub AllValues : List (ℕ × V) → Type κ
    AllValues [] = Unit
    AllValues ((k, v) ∷ m) = P v × AllValues m

    pub AllValues-put :
        (k : ℕ) (v : V) (m : List (ℕ × V)) → P v → AllValues m → AllValues (put k v m)
    unfolding put
    AllValues-put k v [] h a = (h, tt)
    AllValues-put k v ((j, w) ∷ m) h a = elim (Bool-cases (j == k)) [
      | inl e ↦ rw e (h, a.1)
      | inr e ↦ rw e (a.0, AllValues-put k v m h a.1)
    ]

    pub AllValues-erase : (k : ℕ) (m : List (ℕ × V)) → AllValues m → AllValues (erase k m)
    unfolding erase
    AllValues-erase k [] a = tt
    AllValues-erase k ((j, w) ∷ m) a = elim (Bool-cases (j == k)) [
      | inl e ↦ rw e (AllValues-erase k m a.1)
      | inr e ↦ rw e (a.0, AllValues-erase k m a.1)
    ]

    pub AllValues-modify :
        (k : ℕ) (f : V → V) (m : List (ℕ × V))
        → ((v : V) → P v → P (f v))
        → AllValues m
        → AllValues (modify k f m)
    unfolding modify
    AllValues-modify k f [] keep a = tt
    AllValues-modify k f ((j, w) ∷ m) keep a = elim (Bool-cases (j == k)) [
      | inl e ↦ rw e (keep w a.0, a.1)
      | inr e ↦ rw e (a.0, AllValues-modify k f m keep a.1)
    ]

    pub AllValues-find : (k : ℕ) (v : V) (m : List (ℕ × V)) → AllValues m → find k m ≡ some v → P v
    unfolding find
    AllValues-find k v [] a h = cc
    AllValues-find k v ((j, w) ∷ m) a h = elim (Bool-cases (j == k)) [
      | inl e ↦ let same : w ≡ v = ground (arith, e) in subst P same a.0
      | inr e ↦ AllValues-find k v m a.1 (ground (arith, e))
    ]
