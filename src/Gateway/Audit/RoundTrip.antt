-- ===== src/Gateway/Audit/RoundTrip.antt =====
-- A log that is written as its entries are recorded, over any number of files, and `verify_risk_audit_logs`.
use asterion.Prelude.{
  ℕ, zero, suc, ◌+◌, ◌^◌, ◌%◌, ◌<◌, ◌==◌, ◌≡◌, refl, ap, ap₂, length-append, ◌∙◌, true, false, inl,
  inr, Option, none, some, List, [], ◌∷◌, ◌++◌, is_empty, length, All, append_assoc, Bool-cases,
  ==_self, arith, ◌/◌, ◌*◌,
}
use asterion.Prelude.Int.{ℤ}
use asterion.Prelude.Text.{Text, has, has-append}
use asterion.Prelude.Decimal.{format_nat-has, format_int-has}
use asterion.Core.Checksum.{
  fnv_offset_basis, checksum_append, append_bytes, append_u64, append_i64, fnv1a_append_byte,
}
use asterion.Gateway.Audit.{
  RiskAuditEntry, append_to_checksum, checksum_from, checksum_risk_audit, checksum_from-append,
}
use asterion.Gateway.Audit.Log.{
  RiskAuditLogFormat, text, jsonl, text_line, jsonl_line, format_risk_audit_log_entry,
}
use asterion.Gateway.Audit.Parse.{parse_audit_entry_line}
use asterion.Gateway.Audit.Tokens.{
  is_word-has, show_side-is_word, show_reason-is_word, show_bool-is_word, escape_all-plain,
  escape_all-is_word,
}
use asterion.Gateway.Audit.Entry.{IsLoggable, parse_text_line, parse_jsonl_line}
use asterion.Gateway.Audit.Verify.{
  RiskAuditVerificationResult, no_error, fresh_result, split_lines, verify_lines, verify_files,
  verify_risk_audit_logs,
}

-- What `record_audit_entry` appends to the log for entries that are recorded in turn, from a checksum.
unfoldable pub log_from : RiskAuditLogFormat → ℕ → List RiskAuditEntry → Text
unfolding format_risk_audit_log_entry append_to_checksum
log_from format seed [] = []
log_from format seed (e ∷ es) =
    format_risk_audit_log_entry e (append_to_checksum seed e) format
    ++ log_from format (append_to_checksum seed e) es

-- The log over several files, as after rotations.
unfoldable pub logs_from :
    RiskAuditLogFormat → ℕ → List (Text × List RiskAuditEntry) → List (Text × Option Text)
unfolding log_from checksum_from
logs_from format seed [] = []
logs_from format seed ((path, es) ∷ files) =
    (path, some (log_from format seed es)) ∷ logs_from format (checksum_from seed es) files

abbrev pub all_entries : List (Text × List RiskAuditEntry) → List RiskAuditEntry
all_entries [] = []
all_entries ((path, es) ∷ files) = es ++ all_entries files

append_bytes-lt : (left i seed value : ℕ) → seed < 2 ^ 64 → append_bytes left i seed value < 2 ^ 64
unfolding append_bytes fnv1a_append_byte
append_bytes-lt zero i seed value h = h
append_bytes-lt (suc left) i seed value h =
    append_bytes-lt left (suc i) (fnv1a_append_byte seed (value / 2 ^ (i * 8) % 256)) value
      (omega arith)

append_i64-lt : (seed : ℕ) (value : ℤ) → append_i64 seed value < 2 ^ 64
unfolding append_i64 append_u64 checksum_append append_bytes fnv1a_append_byte
append_i64-lt seed value = append_bytes-lt 7 1 _ _ (omega arith)

append_to_checksum-lt : (seed : ℕ) (e : RiskAuditEntry) → append_to_checksum seed e < 2 ^ 64
unfolding append_to_checksum
append_to_checksum-lt seed e = append_i64-lt _ e.observed_value

abbrev line_of : RiskAuditLogFormat → RiskAuditEntry → ℕ → Text
line_of text e c = text_line e c
line_of jsonl e c = jsonl_line e c

text_line-has : (e : RiskAuditEntry) (c : ℕ) → IsLoggable e → has 10 (text_line e c) ≡ false
unfolding text_line has
text_line-has e c w = simp (
  has-append,
  format_int-has 10 e.timestamp_ns refl refl,
  format_nat-has 10 e.client_order_id refl,
  format_nat-has 10 e.symbol_id refl,
  is_word-has 10 _ refl (show_side-is_word e.side),
  is_word-has 10 _ refl (show_bool-is_word e.accepted),
  is_word-has 10 _ refl (show_reason-is_word e.reject_reason),
  w.named.3,
  format_int-has 10 e.limit_value refl refl,
  format_int-has 10 e.observed_value refl refl,
  format_nat-has 10 c refl,
)

jsonl_line-has : (e : RiskAuditEntry) (c : ℕ) → IsLoggable e → has 10 (jsonl_line e c) ≡ false
unfolding jsonl_line has
jsonl_line-has e c w = simp (
  escape_all-is_word _ (show_side-is_word e.side),
  escape_all-is_word _ (show_reason-is_word e.reject_reason),
  escape_all-plain e.check_name w.named.2 w.named.1 w.named.3 w.named.4 w.named.5,
  has-append,
  format_int-has 10 e.timestamp_ns refl refl,
  format_nat-has 10 e.client_order_id refl,
  format_nat-has 10 e.symbol_id refl,
  is_word-has 10 _ refl (show_side-is_word e.side),
  is_word-has 10 _ refl (show_bool-is_word e.accepted),
  is_word-has 10 _ refl (show_reason-is_word e.reject_reason),
  w.named.3,
  format_int-has 10 e.limit_value refl refl,
  format_int-has 10 e.observed_value refl refl,
  format_nat-has 10 c refl,
)

line_of-has :
    (f : RiskAuditLogFormat) (e : RiskAuditEntry) (c : ℕ)
    → IsLoggable e
    → has 10 (line_of f e c) ≡ false
line_of-has text e c w = text_line-has e c w
line_of-has jsonl e c w = jsonl_line-has e c w

line_of-is_empty :
    (f : RiskAuditLogFormat) (e : RiskAuditEntry) (c : ℕ) → is_empty (line_of f e c) ≡ false
unfolding text_line jsonl_line
line_of-is_empty text e c = refl
line_of-is_empty jsonl e c = refl

parse_audit_entry_line-line_of :
    (f : RiskAuditLogFormat) (e : RiskAuditEntry) (c : ℕ)
    → IsLoggable e
    → c < 2 ^ 64
    → parse_audit_entry_line (line_of f e c) f ≡ some (e, c)
unfolding parse_audit_entry_line
parse_audit_entry_line-line_of text e c w h = parse_text_line e c w h
parse_audit_entry_line-line_of jsonl e c w h = parse_jsonl_line e c w h

log_from-cons :
    (f : RiskAuditLogFormat) (seed : ℕ) (e : RiskAuditEntry) (es : List RiskAuditEntry)
    → log_from f seed (e ∷ es)
      ≡ line_of f e (append_to_checksum seed e) ++ 10 ∷ log_from f (append_to_checksum seed e) es
unfolding log_from format_risk_audit_log_entry
log_from-cons text seed e es =
    append_assoc (text_line e (append_to_checksum seed e)) (10 ∷ [])
      (log_from text (append_to_checksum seed e) es)
log_from-cons jsonl seed e es =
    append_assoc (jsonl_line e (append_to_checksum seed e)) (10 ∷ [])
      (log_from jsonl (append_to_checksum seed e) es)

split_lines-append :
    (s rest : Text) → has 10 s ≡ false → split_lines (s ++ 10 ∷ rest) ≡ s ∷ split_lines rest
unfolding split_lines has
split_lines-append [] rest h = refl
split_lines-append (c ∷ s) rest h = elim (Bool-cases (c == 10)) [
  | inl e ↦ absurd (ground (arith, e))
  | inr e ↦ rw (e, split_lines-append s rest (ground (arith, e))) refl
]

-- A line of an entry with the right checksum is counted, and the loop goes on.
verify_lines-line :
    (f : RiskAuditLogFormat) (path : Text) (n seed : ℕ) (e : RiskAuditEntry) (lines : List Text)
    (r : RiskAuditVerificationResult)
    → IsLoggable e
    → verify_lines f path n (line_of f e (append_to_checksum seed e) ∷ lines) seed r
      ≡ verify_lines f path
          (suc n)
          lines
          (append_to_checksum seed e)
          (record r { entries_checked = suc r.entries_checked })
unfolding verify_lines
verify_lines-line f path n seed e lines r w =
    let c = append_to_checksum seed e in
    rw
      (
        line_of-is_empty f e c,
        parse_audit_entry_line-line_of f e c w (append_to_checksum-lt seed e),
        verify_lines,
        ==_self c,
      )
      refl

abbrev counted : ℕ → RiskAuditVerificationResult → RiskAuditVerificationResult
counted n r = record r { entries_checked = n + r.entries_checked }

verify_nothing :
    (f : RiskAuditLogFormat) (path : Text) (n seed : ℕ) (r : RiskAuditVerificationResult)
    → verify_lines f path n (split_lines (log_from f seed [])) seed r ≡ (some seed, counted 0 r)
unfolding verify_lines split_lines log_from
verify_nothing f path n seed r =
    ap (λ k. (some seed, record r { entries_checked = k })) (omega arith)

verify_lines-log :
    (f : RiskAuditLogFormat) (path : Text) (n seed : ℕ) (es : List RiskAuditEntry)
    (r : RiskAuditVerificationResult)
    → All IsLoggable es
    → verify_lines f path n (split_lines (log_from f seed es)) seed r
      ≡ (some (checksum_from seed es), counted (length es) r)
unfolding checksum_from
verify_lines-log f path n seed [] r w = verify_nothing f path n seed r
verify_lines-log f path n seed (e ∷ es) r (w, ws) =
    let c = append_to_checksum seed e in
    let cut : split_lines (log_from f seed (e ∷ es))
        ≡ line_of f e c ∷ split_lines (log_from f c es) =
      ap split_lines (log_from-cons f seed e es)
      ∙ split_lines-append (line_of f e c) (log_from f c es) (line_of-has f e c w) in
    ap (λ ls. verify_lines f path n ls seed r) cut
    ∙ verify_lines-line f path n seed e (split_lines (log_from f c es)) r w
    ∙ verify_lines-log f path (suc n) c es (record r { entries_checked = suc r.entries_checked }) ws
    ∙ ap (λ k. (some (checksum_from c es), record r { entries_checked = k })) (omega arith)

abbrev summary : ℕ → ℕ → ℕ → RiskAuditVerificationResult → RiskAuditVerificationResult
summary files entries checksum r = record r {
  files_checked = files;
  entries_checked = entries;
  final_checksum = checksum;
}

All-parts :
    (xs ys : List RiskAuditEntry)
    → All IsLoggable (xs ++ ys)
    → All IsLoggable xs × All IsLoggable ys
All-parts [] ys h = (tt, h)
All-parts (x ∷ xs) ys (h, hs) = let (a, b) = All-parts xs ys hs in ((h, a), b)

-- A file that is verified is counted with its entries, and the loop goes on.
verify_files-file :
    (f : RiskAuditLogFormat) (path : Text) (seed : ℕ) (es : List RiskAuditEntry)
    (rest : List (Text × Option Text)) (r : RiskAuditVerificationResult)
    → All IsLoggable es
    → verify_files f ((path, some (log_from f seed es)) ∷ rest) seed r
      ≡ verify_files f rest
          (checksum_from seed es)
          (counted (length es) (record r { files_checked = suc r.files_checked }))
unfolding verify_files
verify_files-file f path seed es rest r w =
    ap
      (λ (out : Option ℕ × RiskAuditVerificationResult). elim out.0 [
        | none ↦ out.1
        | some next ↦ verify_files f rest next out.1
      ])
      (verify_lines-log f path 0 seed es (record r { files_checked = suc r.files_checked }) w)

verify_no_files :
    (f : RiskAuditLogFormat) (seed : ℕ) (r : RiskAuditVerificationResult)
    → verify_files f (logs_from f seed []) seed r
      ≡ summary (0 + r.files_checked) (0 + r.entries_checked) seed r
unfolding verify_files logs_from
verify_no_files f seed r = ap₂ (λ n m. summary n m seed r) (omega arith) (omega arith)

verify_files-logs :
    (f : RiskAuditLogFormat) (seed : ℕ) (files : List (Text × List RiskAuditEntry))
    (r : RiskAuditVerificationResult)
    → All IsLoggable (all_entries files)
    → verify_files f (logs_from f seed files) seed r
      ≡ summary
          (length files + r.files_checked)
          (length (all_entries files) + r.entries_checked)
          (checksum_from seed (all_entries files))
          r
unfolding logs_from checksum_from
verify_files-logs f seed [] r w = verify_no_files f seed r
verify_files-logs f seed ((path, es) ∷ files) r w =
    let (here, beyond) = All-parts es (all_entries files) w in
    let c = checksum_from seed es in
    verify_files-file f path seed es (logs_from f c files) r here
    ∙ verify_files-logs f c files
        (counted (length es) (record r { files_checked = suc r.files_checked })) beyond
    ∙ rw (checksum_from-append seed es (all_entries files)) (
        ap₂ (λ n m. summary n m (checksum_from c (all_entries files)) r) (omega arith)
          (omega (arith, length-append es (all_entries files))))

-- A log that is written while entries are recorded, in either format, over any files, is verified: where
-- every entry has numbers in the range of their types, a reason that a pre-trade check gives, and a name
-- without spaces, quotes, backslashes and line ends, the verification is valid, counts all files and
-- entries, and ends with the checksum of the trail.
pub verify-logs :
    (format : RiskAuditLogFormat) (files : List (Text × List RiskAuditEntry))
    → All IsLoggable (all_entries files)
    → verify_risk_audit_logs (logs_from format fnv_offset_basis files) format ≡ (record {
      valid = true;
      files_checked = length files;
      entries_checked = length (all_entries files);
      final_checksum = checksum_risk_audit (all_entries files);
      error = no_error;
    })
unfolding verify_risk_audit_logs checksum_risk_audit
verify-logs format files w =
    verify_files-logs format fnv_offset_basis files fresh_result w
    ∙ ap₂ (λ n m. summary n m (checksum_from fnv_offset_basis (all_entries files)) fresh_result)
        (omega arith) (omega arith)
