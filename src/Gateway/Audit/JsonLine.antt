-- ===== src/Gateway/Audit/JsonLine.antt =====
-- A JSON line as a row of fields `"key":value`: what `json_value_for` gives for a key.
use asterion.Prelude.{
  ℕ, ◌==◌, ◌≡◌, ◌≢◌, refl, ap, ◌∙◌, Bool, true, false, ◌||◌, ◌&&◌, inl, inr, Option, none, some,
  List, [], ◌∷◌, ◌++◌, if◌then◌else◌, All, Bool-cases, Option-cases, arith,
}
use asterion.Prelude.Text.{Text, eq_text, has, strip_prefix, take_until, take_until-append}
use asterion.Gateway.Audit.Parse.{find_after, quoted, json_value, json_value_for}

pub data JsonValue : Type 0 where
  plain string : Text → JsonValue

abbrev pub content : JsonValue → Text
content (plain v) = v
content (string v) = v

-- A value, before what follows it.
abbrev pub render : JsonValue → Text → Text
render (plain v) next = v ++ next
render (string v) next = b'"' ∷ (v ++ b'"' ∷ next)

abbrev pub json_field : Text → JsonValue → Text → Text
json_field k v next = b'"' ∷ (k ++ b'"' ∷ b':' ∷ render v next)

abbrev pub join_json : Text → JsonValue → List (Text × JsonValue) → Text
join_json k v [] = json_field k v (b'}' ∷ [])
join_json k v ((k', v') ∷ fs) = json_field k v (b',' ∷ join_json k' v' fs)

unfoldable pub lookup : Text → List (Text × JsonValue) → Option Text
lookup key [] = none
lookup key ((k, v) ∷ fs) = if eq_text key k then some (content v) else lookup key fs

-- A key that is not empty and has no mark of the format.
abbrev pub IsKey : Text → Type 0
IsKey k =
    (k ≢ [])
    × (has b'"' k ≡ false)
    × (has b':' k ≡ false)
    × (has b',' k ≡ false)
    × (has b'}' k ≡ false)

-- A value that needs no escape.
abbrev pub IsValue : JsonValue → Type 0
IsValue (plain v) = (has b'"' v ≡ false) × (has b',' v ≡ false) × (has b'}' v ≡ false)
IsValue (string v) = (has b'"' v ≡ false) × (has b'\\' v ≡ false)

abbrev pub IsJsonField : Text × JsonValue → Type 0
IsJsonField (k, v) = IsKey k × IsValue v

-- No occurrence starts where no quote stands.
find_after-skip :
    (n s rest : Text)
    → has b'"' s ≡ false
    → find_after (b'"' ∷ n) (s ++ rest) ≡ find_after (b'"' ∷ n) rest
unfolding find_after has
find_after-skip n [] rest h = refl
find_after-skip n (c ∷ s) rest h = elim (Bool-cases (b'"' == c)) [
  | inl e ↦ absurd (ground (arith, e))
  | inr e ↦ rw e (find_after-skip n s rest (ground (arith, e)))
]

strip_prefix-quoted :
    (key k : Text) (d : ℕ) (rest : Text)
    → has b'"' key ≡ false
    → has b'"' k ≡ false
    → strip_prefix (key ++ b'"' ∷ b':' ∷ []) (k ++ b'"' ∷ d ∷ rest)
      ≡ (if eq_text key k && (b':' == d) then some rest else none)
unfolding strip_prefix eq_text has
strip_prefix-quoted [] [] d rest h l = ground arith
strip_prefix-quoted [] (c ∷ k) d rest h l = ground arith
strip_prefix-quoted (c ∷ key) [] d rest h l = ground arith
strip_prefix-quoted (c ∷ key) (c' ∷ k) d rest h l = ground (arith, strip_prefix-quoted key k d rest)

strip_prefix-ne :
    (key n : Text) (x : ℕ) (rest : Text)
    → key ≢ []
    → has x key ≡ false
    → strip_prefix (key ++ n) (x ∷ rest) ≡ none
unfolding strip_prefix has
strip_prefix-ne [] n x rest h k = absurd (h refl)
strip_prefix-ne (c ∷ key) n x rest h k = ground arith

abbrev needle : Text → Text
needle key = b'"' ∷ (key ++ b'"' ∷ b':' ∷ [])

module _ (key : Text) (w : IsKey key) where
  -- A closing quote, and the mark behind it.
  find_after-close :
      (x : ℕ) (rest : Text)
      → has x key ≡ false
      → b'"' == x ≡ false
      → find_after (needle key) (b'"' ∷ x ∷ rest) ≡ find_after (needle key) rest
  unfolding find_after
  find_after-close x rest h e = rw (strip_prefix-ne key (b'"' ∷ b':' ∷ []) x rest w.0 h, e) refl

  find_after-field :
      (k next : Text)
      → IsKey k
      → find_after (needle key) (b'"' ∷ (k ++ b'"' ∷ b':' ∷ next))
        ≡ (if eq_text key k then some next else find_after (needle key) next)
  unfolding find_after
  find_after-field k next u =
      let here = strip_prefix-quoted key k b':' next w.1 u.1 in
      let beyond : find_after (needle key) (k ++ b'"' ∷ b':' ∷ next)
          ≡ find_after (needle key) next =
        find_after-skip _ k (b'"' ∷ b':' ∷ next) u.1 ∙ find_after-close b':' next w.2 refl in
      rw (here, beyond) (ground arith)

  find_after-value :
      (v : JsonValue) (x : ℕ) (rest : Text)
      → IsValue v
      → has x key ≡ false
      → b'"' == x ≡ false
      → b':' == x ≡ false
      → find_after (needle key) (render v (x ∷ rest)) ≡ find_after (needle key) rest
  unfolding find_after
  find_after-value (plain v) x rest u h e f = find_after-skip _ v (x ∷ rest) u.0 ∙ rw e refl
  find_after-value (string v) x rest u h e f =
      let here = strip_prefix-quoted key v x rest w.1 u.0 in
      let beyond : find_after (needle key) (v ++ b'"' ∷ x ∷ rest) ≡ find_after (needle key) rest =
        find_after-skip _ v (b'"' ∷ x ∷ rest) u.0 ∙ find_after-close x rest h e in
      rw (here, beyond, f) (ground arith)

quoted-string :
    (v next : Text)
    → has b'"' v ≡ false
    → has b'\\' v ≡ false
    → quoted false (v ++ b'"' ∷ next) ≡ some v
unfolding quoted has
quoted-string [] next h k = refl
quoted-string (c ∷ v) next h k = ground (arith, quoted-string v next)

abbrev ends : ℕ → Bool
ends d = (d == b',') || (d == b'}')

take_until-ends : (v : Text) → has b',' v ≡ false → has b'}' v ≡ false → take_until ends v ≡ v
unfolding take_until has
take_until-ends [] h k = refl
take_until-ends (c ∷ v) h k = elim (Bool-cases (ends c)) [
  | inl e ↦ absurd (ground (arith, e))
  | inr e ↦ rw e (ap (λ t. c ∷ t) (take_until-ends v (ground (arith, e)) (ground (arith, e))))
]

-- A text that does not start with a quote.
json_value-plain :
    (s : Text) (x : ℕ) (rest : Text)
    → has b'"' s ≡ false
    → b'"' == x ≡ false
    → json_value (s ++ x ∷ rest) ≡ some (take_until ends (s ++ x ∷ rest))
unfolding json_value has
json_value-plain [] x rest h e = ground arith
json_value-plain (c ∷ s) x rest h e = elim (Bool-cases (c == b'"')) [
  | inl m ↦ absurd (ground (arith, m))
  | inr m ↦ rw m refl
]

opened :
    (v next : Text)
    → has b'"' v ≡ false
    → has b'\\' v ≡ false
    → json_value (b'"' ∷ (v ++ b'"' ∷ next)) ≡ some v
unfolding json_value
opened v next h k = quoted-string v next h k

json_value-render :
    (v : JsonValue) (x : ℕ) (rest : Text)
    → IsValue v
    → ends x ≡ true
    → b'"' == x ≡ false
    → json_value (render v (x ∷ rest)) ≡ some (content v)
json_value-render (plain v) x rest u h e =
    json_value-plain v x rest u.0 e
    ∙ ap some (take_until-append ends v x rest (take_until-ends v u.1 u.2) h)
json_value-render (string v) x rest u h e = opened v (x ∷ rest) u.0 u.1

abbrev value_of : Option Text → Option Text
value_of none = none
value_of (some rest) = json_value rest

json_value_for-find :
    (line key : Text) → json_value_for line key ≡ value_of (find_after (needle key) line)
unfolding json_value_for
json_value_for-find line key = elim (Option-cases (find_after (needle key) line)) [
  | inl e ↦ rw (e, json_value_for) refl
  | inr (r, e) ↦ rw (e, json_value_for) refl
]

found_nothing : (key : Text) → value_of (find_after (needle key) []) ≡ none
unfolding find_after strip_prefix
found_nothing key = refl

-- What is found for a key, in a row of fields.
value_of-join :
    (key k : Text) (v : JsonValue) (fs : List (Text × JsonValue))
    → IsKey key
    → IsJsonField (k, v)
    → All IsJsonField fs
    → value_of (find_after (needle key) (join_json k v fs)) ≡ lookup key ((k, v) ∷ fs)
unfolding lookup
value_of-join key k v [] w (u, g) gs =
    rw (find_after-field key w k (render v (b'}' ∷ [])) u) (elim (Bool-cases (eq_text key k)) [
      | inl e ↦ rw e (json_value-render v b'}' [] g refl refl)
      | inr e ↦ rw (e, find_after-value key w v b'}' [] g w.4 refl refl) (found_nothing key)
    ])
value_of-join key k v ((k', v') ∷ fs) w (u, g) (f, gs) =
    let rest = join_json k' v' fs in
    rw (find_after-field key w k (render v (b',' ∷ rest)) u) (elim (Bool-cases (eq_text key k)) [
      | inl e ↦ rw e (json_value-render v b',' rest g refl refl)
      | inr e ↦
          rw (e, find_after-value key w v b',' rest g w.3 refl refl)
            (value_of-join key k' v' fs w f gs)
    ])

-- The value that is read for a key is that of the first field with the key.
pub json_value_for-lookup :
    (key k : Text) (v : JsonValue) (fs : List (Text × JsonValue))
    → IsKey key
    → IsJsonField (k, v)
    → All IsJsonField fs
    → json_value_for (b'{' ∷ join_json k v fs) key ≡ lookup key ((k, v) ∷ fs)
unfolding has
json_value_for-lookup key k v fs w f gs =
    json_value_for-find (b'{' ∷ join_json k v fs) key
    ∙ ap value_of (find_after-skip _ (b'{' ∷ []) (join_json k v fs) refl)
    ∙ value_of-join key k v fs w f gs
