-- ===== src/Gateway/Audit/Verify.antt =====
-- risk_audit.cpp: `verify_risk_audit_logs`. What the file system gives for a path stands beside it: the
-- bytes of the file, or none where it cannot be opened.
use asterion.Prelude.{
  ℕ, suc, ◌==◌, Bool, true, false, Option, none, some, List, [], ◌∷◌, if◌then◌else◌, is_empty,
}
use asterion.Prelude.Text.{Text}
use asterion.Core.Checksum.{fnv_offset_basis}
use asterion.Gateway.Audit.{append_to_checksum}
use asterion.Gateway.Audit.Log.{RiskAuditLogFormat}
use asterion.Gateway.Audit.Parse.{parse_audit_entry_line}

-- The error texts, with what the source puts into them.
pub data AuditError : Type 0 where
  no_error : AuditError
  unable_to_open : Text → AuditError
  malformed : Text → ℕ → AuditError
  checksum_mismatch : Text → ℕ → ℕ → ℕ → AuditError

pub record RiskAuditVerificationResult : Type 0 where
  pub valid : Bool
  pub files_checked : ℕ
  pub entries_checked : ℕ
  pub final_checksum : ℕ
  pub error : AuditError

abbrev pub fresh_result : RiskAuditVerificationResult
fresh_result = record {
  valid = true;
  files_checked = 0;
  entries_checked = 0;
  final_checksum = fnv_offset_basis;
  error = no_error;
}

abbrev prepend : ℕ → List Text → List Text
prepend c [] = (c ∷ []) ∷ []
prepend c (l ∷ ls) = (c ∷ l) ∷ ls

-- What the calls of `std::getline` give.
unfoldable pub split_lines : Text → List Text
split_lines [] = []
split_lines (c ∷ s) = let rest = split_lines s in if c == 10 then [] ∷ rest else prepend c rest

abbrev fail : AuditError → RiskAuditVerificationResult → RiskAuditVerificationResult
fail e r = record r { valid = false; error = e }

-- The loop over the lines of a file. It gives the checksum where it goes on, and the result.
unfoldable pub verify_lines :
    RiskAuditLogFormat
    → Text
    → ℕ
    → List Text
    → ℕ
    → RiskAuditVerificationResult
    → Option ℕ × RiskAuditVerificationResult
unfolding parse_audit_entry_line append_to_checksum
verify_lines format path number [] checksum r = (some checksum, r)
verify_lines format path number (line ∷ lines) checksum r =
    let skipped = verify_lines format path (suc number) lines checksum r in
    if is_empty line then skipped else elim (parse_audit_entry_line line format) [
      | none ↦ (none, fail (malformed path (suc number)) r)
      | some (entry, logged) ↦
          let next = append_to_checksum checksum entry in
          let counted : RiskAuditVerificationResult = record r {
            entries_checked = suc r.entries_checked;
          } in
          let further = verify_lines format path (suc number) lines next counted in
          if next == logged then further else (
            none,
            fail (checksum_mismatch path (suc number) next logged)
                (record counted { final_checksum = next }),
          )
    ]

-- The loop over the files.
unfoldable pub verify_files :
    RiskAuditLogFormat
    → List (Text × Option Text)
    → ℕ
    → RiskAuditVerificationResult
    → RiskAuditVerificationResult
unfolding verify_lines split_lines
verify_files format [] checksum r = record r { final_checksum = checksum }
verify_files format ((path, none) ∷ files) checksum r = fail (unable_to_open path) r
verify_files format ((path, some content) ∷ files) checksum r =
    let (state, r') =
      verify_lines format path 0 (split_lines content) checksum
        (record r { files_checked = suc r.files_checked }) in
    elim state [ none ↦ r' | some next ↦ verify_files format files next r' ]

unfoldable pub verify_risk_audit_logs :
    List (Text × Option Text) → RiskAuditLogFormat → RiskAuditVerificationResult
unfolding verify_files
verify_risk_audit_logs files format = verify_files format files fnv_offset_basis fresh_result
