-- ===== src/Gateway/Audit/Sound.antt =====
-- What a log holds that `verify_risk_audit_logs` accepts.
use asterion.Prelude.{
  ℕ, suc, ◌+◌, ◌==◌, ◌≡◌, ◌⊎◌, refl, ap, sym, subst, length-append, ◌∙◌, true, false, inl, inr,
  Option, none, some, List, [], ◌∷◌, ◌++◌, is_empty, length, Bool-cases, Option-cases, ==-eq, arith,
}
use asterion.Prelude.Text.{Text}
use asterion.Core.Checksum.{fnv_offset_basis}
use asterion.Gateway.Audit.{
  RiskAuditEntry, append_to_checksum, checksum_from, checksum_risk_audit, checksum_from-append,
}
use asterion.Gateway.Audit.Log.{RiskAuditLogFormat}
use asterion.Gateway.Audit.Parse.{parse_audit_entry_line}
use asterion.Gateway.Audit.Verify.{
  RiskAuditVerificationResult, fresh_result, split_lines, verify_lines, verify_files,
  verify_risk_audit_logs,
}

-- Lines that carry entries from a checksum on to a checksum: each line is empty, or reads as an entry
-- beside the checksum that the entry leads to.
pub data Chained (f : RiskAuditLogFormat) : ℕ → List Text → List RiskAuditEntry → ℕ → Type 0 where
  done : (seed : ℕ) → Chained f seed [] [] seed
  blank :
      (seed : ℕ) (line : Text) (lines : List Text) (es : List RiskAuditEntry) (last : ℕ)
      → is_empty line ≡ true
      → Chained f seed lines es last
      → Chained f seed (line ∷ lines) es last
  entry :
      (seed : ℕ) (line : Text) (lines : List Text) (e : RiskAuditEntry) (es : List RiskAuditEntry)
      (last : ℕ)
      → parse_audit_entry_line line f ≡ some (e, append_to_checksum seed e)
      → Chained f (append_to_checksum seed e) lines es last
      → Chained f seed (line ∷ lines) (e ∷ es) last

-- The lines of the files one after another; every file opens.
pub data ChainedFiles (f : RiskAuditLogFormat)
    : ℕ → List (Text × Option Text) → List RiskAuditEntry → ℕ → Type 0 where
  no_files : (seed : ℕ) → ChainedFiles f seed [] [] seed
  next_file :
      (seed : ℕ) (path content : Text) (files : List (Text × Option Text))
      (xs ys : List RiskAuditEntry) (middle last : ℕ)
      → Chained f seed (split_lines content) xs middle
      → ChainedFiles f middle files ys last
      → ChainedFiles f seed ((path, some content) ∷ files) (xs ++ ys) last

-- What the loop over the lines gives: it stops with a result that is not valid, or the lines are chained.
record LinesRead (f : RiskAuditLogFormat) (seed : ℕ) (lines : List Text)
    (r t : RiskAuditVerificationResult) (last : ℕ) : Type 0 where
  es : List RiskAuditEntry
  chained : Chained f seed lines es last
  counted : t ≡ record r { entries_checked = length es + r.entries_checked }

verify_lines_cases :
    (f : RiskAuditLogFormat) (path : Text) (n seed : ℕ) (lines : List Text)
    (r : RiskAuditVerificationResult)
    → let out = verify_lines f path n lines seed r in
      ((out.0 ≡ none) × (out.1.valid ≡ false))
      ⊎ ((last : ℕ) × (out.0 ≡ some last) × LinesRead f seed lines r out.1 last)
unfolding verify_lines
verify_lines_cases f path n seed [] r = inr (
  seed,
  refl,
  record {
    es = [];
    chained = done seed;
    counted = ap (λ k. record r { entries_checked = k }) (omega arith);
  },
)
verify_lines_cases f path n seed (line ∷ lines) r = elim (Bool-cases (is_empty line)) [
  | inl e ↦ elim (verify_lines_cases f path (suc n) seed lines r) [
    | inl (a, b) ↦ rw e (inl (a, b))
    | inr (last, a, m) ↦ rw e (
        inr (
          last,
          a,
          record {
            es = m.es;
            chained = blank seed line lines m.es last e m.chained;
            counted = m.counted;
          },
        ))
  ]
  | inr e ↦ elim (Option-cases (parse_audit_entry_line line f)) [
    | inl bad ↦ rw (e, bad, verify_lines) (inl (refl, refl))
    | inr ((en, logged), good) ↦
        let next = append_to_checksum seed en in
        let counted : RiskAuditVerificationResult = record r {
          entries_checked = suc r.entries_checked;
        } in
        elim (Bool-cases (next == logged)) [
          | inr wrong ↦ rw (e, good, verify_lines, wrong) (inl (refl, refl))
          | inl right ↦
              let read : parse_audit_entry_line line f ≡ some (en, next) =
                good ∙ ap (λ c. some (en, c)) (sym (==-eq next logged right)) in
              elim (verify_lines_cases f path (suc n) next lines counted) [
                | inl (a, b) ↦ rw (e, good, verify_lines, right) (inl (a, b))
                | inr (last, a, m) ↦
                    rw (e, good, verify_lines, right)
                      (inr (
                        last,
                        a,
                        record {
                          es = en ∷ m.es;
                          chained = entry seed line lines en m.es last read m.chained;
                          counted =
                              m.counted ∙ ap (λ k. record r { entries_checked = k }) (omega arith);
                        },
                      ))
              ]
        ]
  ]
]

Chained-checksum :
    {f : RiskAuditLogFormat} {seed : ℕ} {lines : List Text} {es : List RiskAuditEntry} {last : ℕ}
    → Chained f seed lines es last
    → last ≡ checksum_from seed es
unfolding checksum_from
Chained-checksum (done seed) = refl
Chained-checksum (blank seed line lines es last b c) = Chained-checksum c
Chained-checksum (entry seed line lines e es last p c) = Chained-checksum c

verify_files_cases :
    (f : RiskAuditLogFormat) (seed : ℕ) (files : List (Text × Option Text))
    (r : RiskAuditVerificationResult)
    → let t = verify_files f files seed r in
      (t.valid ≡ false)
      ⊎ ((es : List RiskAuditEntry) × ChainedFiles f seed files es t.final_checksum
          × (t.files_checked ≡ length files + r.files_checked)
          × (t.entries_checked ≡ length es + r.entries_checked))
unfolding verify_files
verify_files_cases f seed [] r = inr ([], no_files seed, omega arith, omega arith)
verify_files_cases f seed ((path, none) ∷ files) r = inl refl
verify_files_cases f seed ((path, some content) ∷ files) r =
    let r' : RiskAuditVerificationResult = record r { files_checked = suc r.files_checked } in
    elim (verify_lines_cases f path 0 seed (split_lines content) r') [
      | inl (stopped, refused) ↦ rw (stopped, verify_files) (inl refused)
      | inr (next, goes_on, m) ↦
          let r'' = (verify_lines f path 0 (split_lines content) seed r').1 in
          let as_many = ap (λ (t : RiskAuditVerificationResult). t.files_checked) m.counted in
          let entries = ap (λ (t : RiskAuditVerificationResult). t.entries_checked) m.counted in
          rw (goes_on, verify_files)
            (elim (verify_files_cases f next files r'') [
              | inl refused ↦ inl refused
              | inr (ys, chained, a, b) ↦ inr (
                m.es ++ ys,
                next_file seed path content files m.es ys next _ m.chained chained,
                omega (arith, a, as_many),
                omega (arith, b, entries, length-append m.es ys),
              )
            ])
    ]

ChainedFiles-checksum :
    {f : RiskAuditLogFormat} {seed : ℕ} {files : List (Text × Option Text)}
    {es : List RiskAuditEntry} {last : ℕ}
    → ChainedFiles f seed files es last
    → last ≡ checksum_from seed es
unfolding checksum_from
ChainedFiles-checksum (no_files seed) = refl
ChainedFiles-checksum (next_file seed path content files xs ys middle last c cs) =
    ChainedFiles-checksum cs
    ∙ ap (λ k. checksum_from k ys) (Chained-checksum c)
    ∙ sym (checksum_from-append seed xs ys)

-- A log that is verified is intact: every file opens, every line that is not empty reads as an entry
-- beside the checksum of the trail up to it, and the result counts the files and these entries and ends
-- with the checksum of the whole trail.
pub verify-ChainedFiles :
    (files : List (Text × Option Text)) (format : RiskAuditLogFormat)
    → (verify_risk_audit_logs files format).valid ≡ true
    → (es : List RiskAuditEntry) × ChainedFiles format fnv_offset_basis files es
        (checksum_risk_audit es)
      × ((verify_risk_audit_logs files format).files_checked ≡ length files)
      × ((verify_risk_audit_logs files format).entries_checked ≡ length es)
      × ((verify_risk_audit_logs files format).final_checksum ≡ checksum_risk_audit es)
unfolding verify_risk_audit_logs checksum_risk_audit
verify-ChainedFiles files format h =
    elim (verify_files_cases format fnv_offset_basis files fresh_result) [
      | inl refused ↦ absurd (ground (arith, h, refused))
      | inr (es, chained, a, b) ↦
          let last = ChainedFiles-checksum chained in
          (
            es,
            subst (ChainedFiles format fnv_offset_basis files es) last chained,
            omega (arith, a),
            omega (arith, b),
            last,
          )
    ]
