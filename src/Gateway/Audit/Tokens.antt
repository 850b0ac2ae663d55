-- ===== src/Gateway/Audit/Tokens.antt =====
-- The words of the log: sides, reasons and the answer, printed and read back.
use asterion.Prelude.{
  ℕ, ◌==◌, ◌≡◌, ◌≢◌, refl, ap, Bool, true, false, ◌&&◌, ◌||◌, some, [], ◌∷◌, leb, arith,
}
use asterion.Prelude.Text.{Text, eq_text, has}
use asterion.Core.Types.{Side, buy}
use asterion.Matching.Report.{RejectReason}
use asterion.Gateway.Audit.Log.{show_side, show_reason, show_bool, escape, escape_all}
use asterion.Gateway.Audit.Parse.{
  first_named, parse_side_token, parse_reject_reason_token, parse_bool_token,
}

-- The reasons that the list of names has: those of a pre-trade check. The two of the matching engine's
-- own checks are not in it.
abbrev pub IsListed : RejectReason → Type 0
IsListed r = (r ≢ RejectReason.post_only_would_cross) × (r ≢ RejectReason.fok_not_fillable)

pub parse_side_token-show : (s : Side) → parse_side_token (show_side s) ≡ some s
unfolding parse_side_token show_side first_named eq_text
parse_side_token-show buy = refl
parse_side_token-show _ = refl

pub parse_reject_reason_token-show :
    (r : RejectReason) → IsListed r → parse_reject_reason_token (show_reason r) ≡ some r
unfolding parse_reject_reason_token show_reason first_named eq_text
parse_reject_reason_token-show RejectReason.post_only_would_cross h = absurd (h.0 refl)
parse_reject_reason_token-show RejectReason.fok_not_fillable h = absurd (h.1 refl)
parse_reject_reason_token-show _ h = refl

pub parse_bool_token-show : (b : Bool) → parse_bool_token (show_bool b) ≡ b
unfolding parse_bool_token eq_text
parse_bool_token-show true = refl
parse_bool_token-show false = refl

abbrev pub is_letter : ℕ → Bool
is_letter c = (leb b'A' c && leb c b'Z') || (leb b'a' c && leb c b'z')

pub is_word : Text → Bool
is_word [] = true
is_word (c ∷ s) = is_letter c && is_word s

-- Another byte does not stand in a word.
pub is_word-has : (c : ℕ) (s : Text) → is_letter c ≡ false → is_word s ≡ true → has c s ≡ false
unfolding is_word has
is_word-has c [] h w = refl
is_word-has c (d ∷ s) h w = ground (arith, is_word-has c s h)

pub show_side-is_word : (s : Side) → is_word (show_side s) ≡ true
unfolding show_side is_word
show_side-is_word buy = refl
show_side-is_word _ = refl

pub show_reason-is_word : (r : RejectReason) → is_word (show_reason r) ≡ true
unfolding show_reason is_word
show_reason-is_word RejectReason.none = refl
show_reason-is_word _ = refl

pub show_bool-is_word : (b : Bool) → is_word (show_bool b) ≡ true
unfolding is_word
show_bool-is_word true = refl
show_bool-is_word false = refl

escape_plain :
    (c : ℕ)
    → c == b'\\' ≡ false
    → c == b'"' ≡ false
    → c == 10 ≡ false
    → c == 13 ≡ false
    → c == 9 ≡ false
    → escape c ≡ c ∷ []
unfolding escape
escape_plain c h k l m n = rw (h, k, l, m, n) refl

-- A text without the bytes that JSON escapes.
pub escape_all-plain :
    (s : Text)
    → has b'\\' s ≡ false
    → has b'"' s ≡ false
    → has 10 s ≡ false
    → has 13 s ≡ false
    → has 9 s ≡ false
    → escape_all s ≡ s
unfolding escape_all has
escape_all-plain [] h k l m n = refl
escape_all-plain (c ∷ s) h k l m n =
    rw
      (escape_plain c (ground (arith, h)) (ground (arith, k)) (ground (arith, l))
        (ground (arith, m)) (ground (arith, n)))
      (ap (λ t. c ∷ t)
        (escape_all-plain s (ground (arith, h)) (ground (arith, k)) (ground (arith, l))
          (ground (arith, m)) (ground (arith, n))))

pub escape_all-is_word : (s : Text) → is_word s ≡ true → escape_all s ≡ s
escape_all-is_word s w =
    escape_all-plain s (is_word-has _ s refl w) (is_word-has _ s refl w) (is_word-has _ s refl w)
      (is_word-has _ s refl w) (is_word-has _ s refl w)
