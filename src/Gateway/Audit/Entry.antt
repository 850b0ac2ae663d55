-- ===== src/Gateway/Audit/Entry.antt =====
-- An entry and its line: what is printed is read back, in either format.
use asterion.Prelude.{
  ℕ, ◌^◌, ◌<◌, ◌≡◌, ◌≢◌, refl, ap, ◌∙◌, true, false, Option, some, List, [], ◌∷◌, All,
}
use asterion.Prelude.Int.{ℤ}
use asterion.Prelude.Text.{Text, codes, eq_text, has}
use asterion.Prelude.Decimal.{
  format_nat, format_int, IsInt64, parse_nat-format, parse_int-format, format_nat-has,
  format_int-has,
}
use asterion.Gateway.Audit.{RiskAuditEntry}
use asterion.Gateway.Audit.Log.{text_line, jsonl_line, show_side, show_reason, show_bool}
use asterion.Gateway.Audit.Parse.{parse_fields, text_value_for, json_value_for}
use asterion.Gateway.Audit.Tokens.{
  IsListed, parse_side_token-show, parse_reject_reason_token-show, parse_bool_token-show, is_word,
  is_word-has, show_side-is_word, show_reason-is_word, show_bool-is_word, escape_all-plain,
  escape_all-is_word,
}
use asterion.Gateway.Audit.TextLine
use asterion.Gateway.Audit.TextLine.{Field, IsTextField, join_text, text_value_for-lookup}
use asterion.Gateway.Audit.JsonLine
use asterion.Gateway.Audit.JsonLine.{
  JsonValue, plain, string, IsKey, IsJsonField, join_json, json_value_for-lookup,
}

-- A name that both formats write as it stands.
abbrev pub IsPlainName : Text → Type 0
IsPlainName s =
    (has b' ' s ≡ false)
    × (has b'"' s ≡ false)
    × (has b'\\' s ≡ false)
    × (has 10 s ≡ false)
    × (has 13 s ≡ false)
    × (has 9 s ≡ false)

-- An entry whose numbers are those of the source's types.
pub record IsLoggable (e : RiskAuditEntry) : Type 0 where
  pub timestamp_fits : IsInt64 e.timestamp_ns
  pub id_fits : e.client_order_id < 2 ^ 64
  pub symbol_fits : e.symbol_id < 2 ^ 32
  pub limit_fits : IsInt64 e.limit_value
  pub observed_fits : IsInt64 e.observed_value
  pub listed : IsListed e.reject_reason
  pub named : IsPlainName e.check_name

-- The printed value of each field.
abbrev value_of : RiskAuditEntry → ℕ → List Field
value_of e c =
    (codes "client_order_id", format_nat e.client_order_id)
    ∷ (codes "symbol_id", format_nat e.symbol_id)
    ∷ (codes "side", show_side e.side)
    ∷ (codes "accepted", show_bool e.accepted)
    ∷ (codes "reject_reason", show_reason e.reject_reason)
    ∷ (codes "check_name", e.check_name)
    ∷ (codes "limit_value", format_int e.limit_value)
    ∷ (codes "observed_value", format_int e.observed_value)
    ∷ (codes "checksum", format_nat c)
    ∷ []

-- A reader that gives these values gives the entry.
module _ (value_for : Text → Option Text) (e : RiskAuditEntry) (c : ℕ) (w : IsLoggable e)
    (fits : c < 2 ^ 64) where
  parse_fields-values :
      value_for (codes "timestamp_ns") ≡ some (format_int e.timestamp_ns)
      → value_for (codes "client_order_id") ≡ some (format_nat e.client_order_id)
      → value_for (codes "symbol_id") ≡ some (format_nat e.symbol_id)
      → value_for (codes "limit_value") ≡ some (format_int e.limit_value)
      → value_for (codes "observed_value") ≡ some (format_int e.observed_value)
      → value_for (codes "checksum") ≡ some (format_nat c)
      → value_for (codes "side") ≡ some (show_side e.side)
      → value_for (codes "reject_reason") ≡ some (show_reason e.reject_reason)
      → value_for (codes "accepted") ≡ some (show_bool e.accepted)
      → value_for (codes "check_name") ≡ some e.check_name
      → parse_fields value_for ≡ some (e, c)
  unfolding parse_fields
  parse_fields-values h0 h1 h2 h3 h4 h5 h6 h7 h8 h9 =
      rw
        (
          h0,
          parse_int-format e.timestamp_ns w.timestamp_fits,
          h1,
          parse_nat-format (2 ^ 64) e.client_order_id w.id_fits,
          h2,
          parse_nat-format (2 ^ 32) e.symbol_id w.symbol_fits,
          h3,
          parse_int-format e.limit_value w.limit_fits,
          h4,
          parse_int-format e.observed_value w.observed_fits,
          h5,
          parse_nat-format (2 ^ 64) c fits,
          h6,
          parse_side_token-show e.side,
          h7,
          parse_reject_reason_token-show e.reject_reason w.listed,
          h8,
          parse_bool_token-show e.accepted,
          h9,
        )
        refl

text_line-join :
    (e : RiskAuditEntry) (c : ℕ)
    → text_line e c ≡ join_text (codes "timestamp_ns") (format_int e.timestamp_ns) (value_of e c)
unfolding text_line
text_line-join e c = refl

text_fields : (e : RiskAuditEntry) (c : ℕ) → IsLoggable e → All IsTextField (value_of e c)
unfolding has
text_fields e c w = (
  (refl, refl, format_nat-has b' ' e.client_order_id refl),
  (
    (refl, refl, format_nat-has b' ' e.symbol_id refl),
    (
      (refl, refl, is_word-has b' ' _ refl (show_side-is_word e.side)),
      (
        (refl, refl, is_word-has b' ' _ refl (show_bool-is_word e.accepted)),
        (
          (refl, refl, is_word-has b' ' _ refl (show_reason-is_word e.reject_reason)),
          (
            (refl, refl, w.named.0),
            (
              (refl, refl, format_int-has b' ' e.limit_value refl refl),
              (
                (refl, refl, format_int-has b' ' e.observed_value refl refl),
                ((refl, refl, format_nat-has b' ' c refl), tt),
              ),
            ),
          ),
        ),
      ),
    ),
  ),
)

pub parse_text_line :
    (e : RiskAuditEntry) (c : ℕ)
    → IsLoggable e
    → c < 2 ^ 64
    → parse_fields (text_value_for (text_line e c)) ≡ some (e, c)
unfolding has TextLine.lookup eq_text
parse_text_line e c w fits =
    let value : (key : Text)
        → has b'=' key ≡ false
        → text_value_for (text_line e c) key
          ≡ TextLine.lookup key ((codes "timestamp_ns", format_int e.timestamp_ns) ∷ value_of e c) =
      λ key h.
        ap (λ t. text_value_for t key) (text_line-join e c)
        ∙ text_value_for-lookup key (codes "timestamp_ns") (format_int e.timestamp_ns)
            (value_of e c) h (refl, refl, format_int-has b' ' e.timestamp_ns refl refl)
            (text_fields e c w) in
    parse_fields-values (text_value_for (text_line e c)) e c w fits (value _ refl) (value _ refl)
      (value _ refl) (value _ refl) (value _ refl) (value _ refl) (value _ refl) (value _ refl)
      (value _ refl) (value _ refl)

-- The same fields as JSON values.
abbrev json_value_of : RiskAuditEntry → ℕ → List (Text × JsonValue)
json_value_of e c =
    (codes "client_order_id", plain (format_nat e.client_order_id))
    ∷ (codes "symbol_id", plain (format_nat e.symbol_id))
    ∷ (codes "side", string (show_side e.side))
    ∷ (codes "accepted", plain (show_bool e.accepted))
    ∷ (codes "reject_reason", string (show_reason e.reject_reason))
    ∷ (codes "check_name", string e.check_name)
    ∷ (codes "limit_value", plain (format_int e.limit_value))
    ∷ (codes "observed_value", plain (format_int e.observed_value))
    ∷ (codes "checksum", plain (format_nat c))
    ∷ []

jsonl_line-join :
    (e : RiskAuditEntry) (c : ℕ)
    → IsLoggable e
    → jsonl_line e c
      ≡ b'{'
        ∷ join_json (codes "timestamp_ns") (plain (format_int e.timestamp_ns)) (json_value_of e c)
unfolding jsonl_line
jsonl_line-join e c w =
    rw
      (
        escape_all-is_word _ (show_side-is_word e.side),
        escape_all-is_word _ (show_reason-is_word e.reject_reason),
        escape_all-plain e.check_name w.named.2 w.named.1 w.named.3 w.named.4 w.named.5,
      )
      refl

abbrev plain_nat : (n : ℕ) → JsonLine.IsValue (plain (format_nat n))
plain_nat n = (format_nat-has b'"' n refl, format_nat-has b',' n refl, format_nat-has b'}' n refl)

abbrev plain_int : (n : ℤ) → JsonLine.IsValue (plain (format_int n))
plain_int n = (
  format_int-has b'"' n refl refl,
  format_int-has b',' n refl refl,
  format_int-has b'}' n refl refl,
)

json_fields : (e : RiskAuditEntry) (c : ℕ) → IsLoggable e → All IsJsonField (json_value_of e c)
unfolding has
json_fields e c w = (
  (((cc), refl, refl, refl, refl), plain_nat e.client_order_id),
  (
    (((cc), refl, refl, refl, refl), plain_nat e.symbol_id),
    (
      (((cc), refl, refl, refl, refl), word_string _ (show_side-is_word e.side)),
      (
        (((cc), refl, refl, refl, refl), word_plain _ (show_bool-is_word e.accepted)),
        (
          (((cc), refl, refl, refl, refl), word_string _ (show_reason-is_word e.reject_reason)),
          (
            (((cc), refl, refl, refl, refl), (w.named.1, w.named.2)),
            (
              (((cc), refl, refl, refl, refl), plain_int e.limit_value),
              (
                (((cc), refl, refl, refl, refl), plain_int e.observed_value),
                ((((cc), refl, refl, refl, refl), plain_nat c), tt),
              ),
            ),
          ),
        ),
      ),
    ),
  ),
)
  where
    word_string : (s : Text) → is_word s ≡ true → JsonLine.IsValue (string s)
    word_string s h = (is_word-has b'"' s refl h, is_word-has b'\\' s refl h)

    word_plain : (s : Text) → is_word s ≡ true → JsonLine.IsValue (plain s)
    word_plain s h =
        (is_word-has b'"' s refl h, is_word-has b',' s refl h, is_word-has b'}' s refl h)

pub parse_jsonl_line :
    (e : RiskAuditEntry) (c : ℕ)
    → IsLoggable e
    → c < 2 ^ 64
    → parse_fields (json_value_for (jsonl_line e c)) ≡ some (e, c)
unfolding has JsonLine.lookup eq_text
parse_jsonl_line e c w fits =
    let value : (key : Text)
        → IsKey key
        → json_value_for (jsonl_line e c) key
          ≡ JsonLine.lookup key
              ((codes "timestamp_ns", plain (format_int e.timestamp_ns)) ∷ json_value_of e c) =
      λ key h.
        ap (λ t. json_value_for t key) (jsonl_line-join e c w)
        ∙ json_value_for-lookup key (codes "timestamp_ns") (plain (format_int e.timestamp_ns))
            (json_value_of e c) h (((cc), refl, refl, refl, refl), plain_int e.timestamp_ns)
            (json_fields e c w) in
    let key_lem =
      λ (k : Text) (h : k ≢ []) (a : has b'"' k ≡ false) (b : has b':' k ≡ false)
          (d : has b',' k ≡ false) (f : has b'}' k ≡ false).
        value k (h, a, b, d, f) in
    parse_fields-values (json_value_for (jsonl_line e c)) e c w fits
      (key_lem _ (cc) refl refl refl refl) (key_lem _ (cc) refl refl refl refl)
      (key_lem _ (cc) refl refl refl refl) (key_lem _ (cc) refl refl refl refl)
      (key_lem _ (cc) refl refl refl refl) (key_lem _ (cc) refl refl refl refl)
      (key_lem _ (cc) refl refl refl refl) (key_lem _ (cc) refl refl refl refl)
      (key_lem _ (cc) refl refl refl refl) (key_lem _ (cc) refl refl refl refl)
