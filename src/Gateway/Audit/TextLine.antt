-- ===== src/Gateway/Audit/TextLine.antt =====
-- A text line as a row of fields `key=value`: what `text_value_for` gives for a key.
use asterion.Prelude.{
  ℕ, ◌==◌, ◌≡◌, ◌≢◌, refl, ap, sym, append_assoc, ◌∙◌, Bool, true, false, inl, inr, Option, none,
  some, List, [], ◌∷◌, ◌++◌, if◌then◌else◌, All, Bool-cases, arith,
}
use asterion.Prelude.Text.{
  Text, eq_text, has, strip_prefix, has-append, strip_prefix-name, take_until-append,
  take_until-has,
}
use asterion.Gateway.Audit.Parse.{or_else, scan_tokens, text_value_for}

abbrev pub Field : Type 0
Field = Text × Text

abbrev pub join_text : Text → Text → List Field → Text
join_text k v [] = k ++ b'=' ∷ v
join_text k v ((k', v') ∷ fs) = k ++ b'=' ∷ (v ++ b' ' ∷ join_text k' v' fs)

-- The value of the first field with the key.
unfoldable pub lookup : Text → List Field → Option Text
lookup key [] = none
lookup key ((k, v) ∷ fs) = if eq_text key k then some v else lookup key fs

-- A key without `=` and spaces, and a value without spaces.
abbrev pub IsTextField : Field → Type 0
IsTextField (k, v) = (has b'=' k ≡ false) × (has b' ' k ≡ false) × (has b' ' v ≡ false)

or_none : (o : Option Text) → or_else o none ≡ o
or_none none = refl
or_none (some v) = refl

module _ (needle : Text) where
  scan_tokens-skip :
      (s rest : Text)
      → has b' ' s ≡ false
      → scan_tokens needle false (s ++ b' ' ∷ rest) ≡ scan_tokens needle true rest
  unfolding scan_tokens has
  scan_tokens-skip [] rest h = refl
  scan_tokens-skip (c ∷ s) rest h = elim (Bool-cases (c == b' ')) [
    | inl e ↦ absurd (ground (arith, e))
    | inr e ↦ rw e (scan_tokens-skip s rest (ground (arith, e)))
  ]

  scan_tokens-end : (s : Text) → has b' ' s ≡ false → scan_tokens needle false s ≡ none
  unfolding scan_tokens has
  scan_tokens-end [] h = refl
  scan_tokens-end (c ∷ s) h = elim (Bool-cases (c == b' ')) [
    | inl e ↦ absurd (ground (arith, e))
    | inr e ↦ rw e (scan_tokens-end s (ground (arith, e)))
  ]

  scan_tokens-token :
      (c : ℕ) (s rest : Text)
      → has b' ' (c ∷ s) ≡ false
      → scan_tokens needle true (c ∷ (s ++ b' ' ∷ rest))
        ≡ or_else (strip_prefix needle (c ∷ s)) (scan_tokens needle true rest)
  unfolding scan_tokens has
  scan_tokens-token c s rest h =
      let token =
        take_until-append (λ d. d == b' ') (c ∷ s) b' ' rest (take_until-has b' ' (c ∷ s) h) refl in
      let plain : (c == b' ') ≡ false = ground arith in
      rw (token, plain)
        (ap (or_else (strip_prefix needle (c ∷ s))) (scan_tokens-skip s rest (ground arith)))

  scan_tokens-last :
      (c : ℕ) (s : Text)
      → has b' ' (c ∷ s) ≡ false
      → scan_tokens needle true (c ∷ s) ≡ strip_prefix needle (c ∷ s)
  unfolding scan_tokens has
  scan_tokens-last c s h =
      let token = take_until-has b' ' (c ∷ s) h in
      let plain : (c == b' ') ≡ false = ground arith in
      rw (token, plain, scan_tokens-end s (ground arith)) (or_none (strip_prefix needle (c ∷ s)))

  -- A token that is not empty.
  scan_tokens-append :
      (t rest : Text)
      → has b' ' t ≡ false
      → t ≢ []
      → scan_tokens needle true (t ++ b' ' ∷ rest)
        ≡ or_else (strip_prefix needle t) (scan_tokens needle true rest)
  scan_tokens-append [] rest h n = absurd (n refl)
  scan_tokens-append (c ∷ s) rest h n = scan_tokens-token c s rest h

  scan_tokens-only :
      (t : Text) → has b' ' t ≡ false → t ≢ [] → scan_tokens needle true t ≡ strip_prefix needle t
  scan_tokens-only [] h n = absurd (n refl)
  scan_tokens-only (c ∷ s) h n = scan_tokens-last c s h

field-has : (k v : Text) → IsTextField (k, v) → has b' ' (k ++ b'=' ∷ v) ≡ false
unfolding has
field-has k v (a, b, c) = ground (arith, has-append b' ' k (b'=' ∷ v), b, c)

field-ne-nil : (k v : Text) → k ++ b'=' ∷ v ≢ []
field-ne-nil [] v h = cc
field-ne-nil (c ∷ k) v h = cc

text_value_for-step :
    (key k v rest : Text)
    → has b'=' key ≡ false
    → IsTextField (k, v)
    → text_value_for (k ++ b'=' ∷ (v ++ b' ' ∷ rest)) key
      ≡ or_else (if eq_text key k then some v else none) (text_value_for rest key)
unfolding text_value_for
text_value_for-step key k v rest h f =
    let needle = key ++ b'=' ∷ [] in
    ap (scan_tokens needle true) (sym (append_assoc k (b'=' ∷ v) (b' ' ∷ rest)))
    ∙ scan_tokens-append needle (k ++ b'=' ∷ v) rest (field-has k v f) (field-ne-nil k v)
    ∙ ap (λ o. or_else o (scan_tokens needle true rest)) (strip_prefix-name b'=' key k v h f.0)

or_else_if :
    (c : Bool) (v : Text) (o : Option Text)
    → or_else (if c then some v else none) o ≡ (if c then some v else o)
or_else_if true v o = refl
or_else_if false v o = refl

-- The value that is read for a key is that of the first field with the key.
pub text_value_for-lookup :
    (key k v : Text) (fs : List Field)
    → has b'=' key ≡ false
    → IsTextField (k, v)
    → All IsTextField fs
    → text_value_for (join_text k v fs) key ≡ lookup key ((k, v) ∷ fs)
unfolding text_value_for lookup
text_value_for-lookup key k v [] h f fs =
    scan_tokens-only (key ++ b'=' ∷ []) (k ++ b'=' ∷ v) (field-has k v f) (field-ne-nil k v)
    ∙ strip_prefix-name b'=' key k v h f.0
text_value_for-lookup key k v ((k', v') ∷ fs) h f (g, gs) =
    text_value_for-step key k v (join_text k' v' fs) h f
    ∙ ap (or_else (if eq_text key k then some v else none))
        (text_value_for-lookup key k' v' fs h g gs)
    ∙ or_else_if (eq_text key k) v (lookup key ((k', v') ∷ fs))
