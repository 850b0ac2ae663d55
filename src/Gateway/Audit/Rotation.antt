-- ===== src/Gateway/Audit/Rotation.antt =====
-- risk_gateway.cpp: the audit log that a gateway writes, with its rotation over files. `opens` is what the
-- file system does when a path is opened to append: none where it fails, else what the file holds.
use asterion.Prelude.{
  ℕ, suc, ◌+◌, ◌==◌, Bool, true, false, ◌&&◌, ◌||◌, Option, none, some, List, [], ◌∷◌, ◌++◌,
  if◌then◌else◌, ltb, leb, length,
}
use asterion.Prelude.Text.{Text, codes}
use asterion.Prelude.Decimal.{format_nat}
use asterion.Gateway.Audit.{RiskAuditEntry, RiskAuditTrail, record_entry}
use asterion.Gateway.Audit.Log.{RiskAuditLogFormat, format_risk_audit_log_entry}

-- A path with the parts that `std::filesystem` gives of it: the path up to the extension, and that.
pub record LogPath : Type 0 where
  pub path : Text
  pub stem : Text
  pub extension : Text

-- The state of the log, without the flag `record_audit_` of the gateway. `audit_log_paths` has each path with what its file holds, the file that is
-- written to last; none stands for a file that did not open.
pub record AuditLog : Type 0 where
  pub audit_log_format : RiskAuditLogFormat
  pub audit_log_base_path : LogPath
  pub audit_log_paths : List (Text × Option Text)
  pub is_open : Bool
  pub audit_log_index : ℕ
  pub audit_log_record_count : ℕ
  pub audit_log_bytes : ℕ
  pub max_records_per_file : ℕ
  pub max_bytes_per_file : ℕ

unfoldable pub rotated_audit_log_path : LogPath → ℕ → Text
unfolding format_nat
rotated_audit_log_path p index =
    if index == 0 then p.path else p.stem ++ (codes "." ++ (format_nat index ++ p.extension))

abbrev pub opened : Option Text → Bool
opened none = false
opened (some content) = true

abbrev pub size_of : Option Text → ℕ
size_of none = 0
size_of (some content) = length content

-- What `<<` does to the file that is written to.
unfoldable pub write_last : Text → List (Text × Option Text) → List (Text × Option Text)
write_last line [] = []
write_last line ((path, none) ∷ []) = (path, none) ∷ []
write_last line ((path, some content) ∷ []) = (path, some (content ++ line)) ∷ []
write_last line (file ∷ next ∷ files) = file ∷ write_last line (next ∷ files)

-- The write and the counts, after the rotation.
unfoldable pub write_line : Text → AuditLog → AuditLog
unfolding write_last
write_line line l = record l {
  audit_log_paths = write_last line l.audit_log_paths;
  audit_log_record_count = suc l.audit_log_record_count;
  audit_log_bytes = l.audit_log_bytes + length line;
}

module _ (opens : Text → Option Text) where
  unfoldable pub open_rotating_audit_log : LogPath → RiskAuditLogFormat → ℕ → ℕ → AuditLog × Bool
  open_rotating_audit_log path format max_records max_bytes =
      let file = opens path.path in
      (
        record {
          audit_log_format = format;
          audit_log_base_path = path;
          audit_log_paths = if opened file then (path.path, file) ∷ [] else [];
          is_open = opened file;
          audit_log_index = 0;
          audit_log_record_count = 0;
          audit_log_bytes = size_of file;
          max_records_per_file = max_records;
          max_bytes_per_file = max_bytes;
        },
        opened file,
      )

  unfoldable pub rotate_audit_log : AuditLog → AuditLog
  unfolding rotated_audit_log_path
  rotate_audit_log l =
      let next_path = rotated_audit_log_path l.audit_log_base_path (suc l.audit_log_index) in
      record l {
        audit_log_index = suc l.audit_log_index;
        audit_log_paths = l.audit_log_paths ++ (next_path, opens next_path) ∷ [];
        is_open = opened (opens next_path);
        audit_log_record_count = 0;
        audit_log_bytes = 0;
      }

  unfoldable pub append_audit_log_entry : RiskAuditEntry → ℕ → AuditLog → AuditLog
  unfolding rotate_audit_log write_line format_risk_audit_log_entry
  append_audit_log_entry e checksum l =
      let line = format_risk_audit_log_entry e checksum l.audit_log_format in
      let rotate_by_record =
        ltb 0 l.max_records_per_file && leb l.max_records_per_file l.audit_log_record_count in
      let rotate_by_size =
        ltb 0 l.max_bytes_per_file
        && ltb 0 l.audit_log_bytes
        && ltb l.max_bytes_per_file (l.audit_log_bytes + length line) in
      write_line line (if rotate_by_record || rotate_by_size then rotate_audit_log l else l)

  -- `record_audit_entry`: the trail and the log.
  unfoldable pub record_logged :
      RiskAuditEntry → RiskAuditTrail × AuditLog → RiskAuditTrail × AuditLog
  unfolding record_entry append_audit_log_entry
  record_logged e (t, l) =
      let t' = record_entry e t in
      (t', if l.is_open then append_audit_log_entry e t'.checksum l else l)

  unfoldable pub record_all :
      List RiskAuditEntry → RiskAuditTrail × AuditLog → RiskAuditTrail × AuditLog
  unfolding record_logged
  record_all [] s = s
  record_all (e ∷ es) s = record_all es (record_logged e s)
