-- ===== src/Gateway/Audit/Tests.antt =====
-- Log lines at concrete entries, a log that was tampered with, and the theorems at a log of two files.
use asterion.Prelude.{
  ◌≡◌, refl, ap, map, true, false, none, some, List, [], ◌∷◌, length, All, arith,
}
use asterion.Prelude.Int.{pos, negsuc}
use asterion.Prelude.Text.{Text, codes, has, strip_prefix, eq_text}
use asterion.Prelude.Decimal.{digits}
use asterion.Core.Types.{sell}
use asterion.Core.Checksum.{fnv_offset_basis}
use asterion.Matching.Report.{RejectReason}
use asterion.Gateway.Audit.{RiskAuditEntry, RiskAuditTrail, empty_trail, checksum_risk_audit}
use asterion.Gateway.Audit.Log.{text, jsonl, text_line, jsonl_line, show_reason}
use asterion.Gateway.Audit.Parse.{parse_audit_entry_line, json_value_for, parse_reject_reason_token}
use asterion.Gateway.Audit.Entry.{IsLoggable}
use asterion.Gateway.Audit.Verify.{
  RiskAuditVerificationResult, no_error, malformed, unable_to_open, verify_risk_audit_logs,
}
use asterion.Gateway.Audit.RoundTrip.{logs_from, all_entries, verify-logs}
use asterion.Gateway.Audit.Sound.{ChainedFiles, verify-ChainedFiles}
use asterion.Gateway.Audit.Rotation.{LogPath, AuditLog, open_rotating_audit_log, record_all}
use asterion.Gateway.Audit.Logged.{verify-record_all}

abbrev an_entry : RiskAuditEntry
an_entry = record {
  timestamp_ns = negsuc 6;
  client_order_id = 12;
  symbol_id = 7;
  side = sell;
  accepted = false;
  reject_reason = RejectReason.kill_switch;
  check_name = codes "kill_switch";
  limit_value = pos 0;
  observed_value = pos 300;
}

abbrev another_entry : RiskAuditEntry
another_entry = record an_entry {
  client_order_id = 13;
  accepted = true;
  reject_reason = RejectReason.none;
  check_name = codes "accepted";
}

text_line_test :
    text_line an_entry 99
    ≡ codes
        "timestamp_ns=-7 client_order_id=12 symbol_id=7 side=Sell accepted=false reject_reason=KillSwitch check_name=kill_switch limit_value=0 observed_value=300 checksum=99"
unfolding text_line digits
text_line_test = refl

jsonl_line_test :
    jsonl_line another_entry 99
    ≡ codes
        "{\"timestamp_ns\":-7,\"client_order_id\":13,\"symbol_id\":7,\"side\":\"Sell\",\"accepted\":true,\"reject_reason\":\"None\",\"check_name\":\"accepted\",\"limit_value\":0,\"observed_value\":300,\"checksum\":99}"
unfolding jsonl_line digits
jsonl_line_test = refl

an_entry-IsLoggable : IsLoggable an_entry
unfolding has
an_entry-IsLoggable = record {
  timestamp_fits = omega arith;
  id_fits = omega arith;
  symbol_fits = omega arith;
  limit_fits = omega arith;
  observed_fits = omega arith;
  listed = (λ h. cc, λ h. cc);
  named = (refl, refl, refl, refl, refl, refl);
}

another_entry-IsLoggable : IsLoggable another_entry
unfolding has
another_entry-IsLoggable = record {
  timestamp_fits = omega arith;
  id_fits = omega arith;
  symbol_fits = omega arith;
  limit_fits = omega arith;
  observed_fits = omega arith;
  listed = (λ h. cc, λ h. cc);
  named = (refl, refl, refl, refl, refl, refl);
}

abbrev two_files : List (Text × List RiskAuditEntry)
two_files =
    (codes "audit.log", an_entry ∷ another_entry ∷ []) ∷ (codes "audit.1.log", an_entry ∷ []) ∷ []

two_files-IsLoggable : All IsLoggable (all_entries two_files)
two_files-IsLoggable = (an_entry-IsLoggable, (another_entry-IsLoggable, (an_entry-IsLoggable, tt)))

verify-logs_example :
    verify_risk_audit_logs (logs_from jsonl fnv_offset_basis two_files) jsonl ≡ (record {
      valid = true;
      files_checked = 2;
      entries_checked = 3;
      final_checksum = checksum_risk_audit (an_entry ∷ another_entry ∷ an_entry ∷ []);
      error = no_error;
    })
verify-logs_example = verify-logs jsonl two_files two_files-IsLoggable

verify-ChainedFiles_example :
    (es : List RiskAuditEntry) × ChainedFiles text fnv_offset_basis
      (logs_from text fnv_offset_basis two_files)
      es
      (checksum_risk_audit es)
    × ((verify_risk_audit_logs (logs_from text fnv_offset_basis two_files) text).files_checked
        ≡ length (logs_from text fnv_offset_basis two_files))
    × ((verify_risk_audit_logs (logs_from text fnv_offset_basis two_files) text).entries_checked
        ≡ length es)
    × ((verify_risk_audit_logs (logs_from text fnv_offset_basis two_files) text).final_checksum
        ≡ checksum_risk_audit es)
verify-ChainedFiles_example = verify-ChainedFiles (logs_from text fnv_offset_basis two_files) text (
    ap (λ (r : RiskAuditVerificationResult). r.valid)
      (verify-logs text two_files two_files-IsLoggable))

abbrev a_path : LogPath
a_path = record { path = codes "audit.log"; stem = codes "audit"; extension = codes ".log" }

-- A trail of two entries in a log of one record for a file.
abbrev two_recorded : RiskAuditTrail × AuditLog
two_recorded =
    record_all (λ p. some []) (an_entry ∷ another_entry ∷ [])
      (empty_trail, (open_rotating_audit_log (λ p. some []) a_path jsonl 1 0).0)

two_recorded_paths :
    map (λ f. f.0) two_recorded.1.audit_log_paths ≡ codes "audit.log" ∷ codes "audit.1.log" ∷ []
unfolding record_all open_rotating_audit_log digits
two_recorded_paths = refl

verify-record_all_example : verify_risk_audit_logs two_recorded.1.audit_log_paths jsonl ≡ (record {
  valid = true;
  files_checked = length two_recorded.1.audit_log_paths;
  entries_checked = 2;
  final_checksum = two_recorded.0.checksum;
  error = no_error;
})
verify-record_all_example =
    verify-record_all (λ p. some []) a_path jsonl 1 0 (an_entry ∷ another_entry ∷ []) (λ p. refl)
      (an_entry-IsLoggable, (another_entry-IsLoggable, tt))

-- A file that does not open, and a line that is no entry.
unopened : (verify_risk_audit_logs ((codes "x", none) ∷ []) text).error ≡ unable_to_open (codes "x")
unfolding verify_risk_audit_logs
unopened = refl

no_entry :
    (verify_risk_audit_logs ((codes "x", some (codes "\nside=Buy\n")) ∷ []) text).error
    ≡ malformed (codes "x") 2
unfolding verify_risk_audit_logs parse_audit_entry_line
no_entry = refl

-- The escapes of a JSON string are not undone.
escaped_name :
    json_value_for (codes "{\"check_name\":\"a\\\"b\"}") (codes "check_name")
    ≡ some (codes "a\\\"b")
unfolding json_value_for strip_prefix
escaped_name = refl

-- The reasons of the matching engine's own checks are printed and not read.
unlisted_reason : parse_reject_reason_token (show_reason RejectReason.fok_not_fillable) ≡ none
unfolding parse_reject_reason_token show_reason eq_text
unlisted_reason = refl
