-- ===== src/Gateway/Audit/Logged.antt =====
-- The log that is written while a new trail is recorded, through its rotations.
use asterion.Prelude.{
  ℕ, suc, ◌+◌, ◌≡◌, refl, ap, sym, subst, ◌∙◌, true, inl, inr, ◌||◌, ◌&&◌, Option, some, List, [],
  ◌∷◌, ◌++◌, if◌then◌else◌, length, All, append-nil, append_assoc, Bool-cases, ltb, leb,
}
use asterion.Prelude.Text.{Text}
use asterion.Core.Checksum.{fnv_offset_basis}
use asterion.Gateway.Audit.{
  RiskAuditEntry, RiskAuditTrail, empty_trail, record_entry, append_to_checksum, checksum_from,
  checksum_risk_audit, checksum_from-append,
}
use asterion.Gateway.Audit.Log.{RiskAuditLogFormat, format_risk_audit_log_entry}
use asterion.Gateway.Audit.Entry.{IsLoggable}
use asterion.Gateway.Audit.Verify.{RiskAuditVerificationResult, no_error, verify_risk_audit_logs}
use asterion.Gateway.Audit.RoundTrip.{logs_from, all_entries, verify-logs}
use asterion.Gateway.Audit.Files.{
  Groups, all_entries-append, fresh_file, write_line-files, length-logs_from,
}
use asterion.Gateway.Audit.Rotation.{
  LogPath, AuditLog, rotated_audit_log_path, open_rotating_audit_log, rotate_audit_log, write_line,
  append_audit_log_entry, record_logged, record_all,
}

-- The log holds the recorded entries: those of the files before the last, and those of the last.
record IsLogged (f : RiskAuditLogFormat) (t : RiskAuditTrail) (l : AuditLog) : Type 0 where
  before : Groups
  path : Text
  current : List RiskAuditEntry
  files : l.audit_log_paths ≡ logs_from f fnv_offset_basis (before ++ (path, current) ∷ [])
  entries : t.entries ≡ all_entries before ++ current
  digest : t.checksum ≡ checksum_from fnv_offset_basis t.entries
  format : l.audit_log_format ≡ f
  opened : l.is_open ≡ true

entries_cons :
    (e : RiskAuditEntry) (t : RiskAuditTrail) (es : List RiskAuditEntry)
    → (record_entry e t).entries ++ es ≡ t.entries ++ e ∷ es
unfolding record_entry
entries_cons e t es = append_assoc t.entries (e ∷ []) es

-- A log that holds the trail is verified.
verify-IsLogged :
    (f : RiskAuditLogFormat) (t : RiskAuditTrail) (l : AuditLog)
    → IsLogged f t l
    → All IsLoggable t.entries
    → verify_risk_audit_logs l.audit_log_paths f ≡ (record {
      valid = true;
      files_checked = length l.audit_log_paths;
      entries_checked = length t.entries;
      final_checksum = t.checksum;
      error = no_error;
    })
unfolding checksum_risk_audit
verify-IsLogged f t l w loggable =
    let gs = w.before ++ (w.path, w.current) ∷ [] in
    let all : all_entries gs ≡ t.entries =
      all_entries-append w.before ((w.path, w.current) ∷ [])
      ∙ ap (λ x. all_entries w.before ++ x) (append-nil w.current)
      ∙ sym w.entries in
    rw (w.files, w.digest, length-logs_from f fnv_offset_basis gs, sym all)
      (verify-logs f gs (subst (All IsLoggable) (sym all) loggable))

module _ (opens : Text → Option Text) (fresh : (path : Text) → opens path ≡ some [])
    (f : RiskAuditLogFormat) where
  rotate_audit_log-IsLogged :
      (t : RiskAuditTrail) (l : AuditLog) → IsLogged f t l → IsLogged f t (rotate_audit_log opens l)
  unfolding rotate_audit_log
  rotate_audit_log-IsLogged t l w =
      let next = rotated_audit_log_path l.audit_log_base_path (suc l.audit_log_index) in
      let all = w.before ++ (w.path, w.current) ∷ [] in
      rw (fresh next) (record {
        before = all;
        path = next;
        current = [];
        files = ap (λ fs. fs ++ (next, some []) ∷ []) w.files ∙ fresh_file f all next;
        entries =
            w.entries
            ∙ sym (
                append-nil _
                ∙ all_entries-append w.before ((w.path, w.current) ∷ [])
                ∙ ap (λ x. all_entries w.before ++ x) (append-nil w.current));
        digest = w.digest;
        format = w.format;
        opened = refl;
      })

  write_line-IsLogged :
      (e : RiskAuditEntry) (t : RiskAuditTrail) (l : AuditLog)
      → IsLogged f t l
      → IsLogged f (record_entry e t) (
          write_line
            (format_risk_audit_log_entry e (record_entry e t).checksum l.audit_log_format)
            l)
  unfolding write_line record_entry checksum_from
  write_line-IsLogged e t l w =
      let so_far : t.checksum ≡ checksum_from fnv_offset_basis (all_entries w.before ++ w.current) =
        w.digest ∙ ap (checksum_from fnv_offset_basis) w.entries in
      record {
        before = w.before;
        path = w.path;
        current = w.current ++ e ∷ [];
        files = rw (w.format, so_far, w.files) (write_line-files f w.before w.path w.current e);
        entries =
            ap (λ x. x ++ e ∷ []) w.entries
            ∙ append_assoc (all_entries w.before) w.current (e ∷ []);
        digest =
            ap (λ c. append_to_checksum c e) w.digest
            ∙ sym (checksum_from-append fnv_offset_basis t.entries (e ∷ []));
        format = w.format;
        opened = w.opened;
      }

  append_audit_log_entry-IsLogged :
      (e : RiskAuditEntry) (t : RiskAuditTrail) (l : AuditLog)
      → IsLogged f t l
      → IsLogged f (record_entry e t) (append_audit_log_entry opens e (record_entry e t).checksum l)
  unfolding append_audit_log_entry
  append_audit_log_entry-IsLogged e t l w =
      let line = format_risk_audit_log_entry e (record_entry e t).checksum l.audit_log_format in
      let due =
        (ltb 0 l.max_records_per_file && leb l.max_records_per_file l.audit_log_record_count)
        || (ltb 0 l.max_bytes_per_file
            && ltb 0 l.audit_log_bytes
            && ltb l.max_bytes_per_file (l.audit_log_bytes + length line)) in
      elim (Bool-cases due) [
        | inl rotates ↦
            rw rotates
              (write_line-IsLogged e t (rotate_audit_log opens l) (rotate_audit_log-IsLogged t l w))
        | inr stays ↦ rw stays (write_line-IsLogged e t l w)
      ]

  abbrev HoldsAll : RiskAuditTrail → List RiskAuditEntry → RiskAuditTrail × AuditLog → Type 0
  HoldsAll t es s = IsLogged f s.0 s.1 × (s.0.entries ≡ t.entries ++ es)

  record_logged-open :
      (e : RiskAuditEntry) (t : RiskAuditTrail) (l : AuditLog)
      → l.is_open ≡ true
      → record_logged opens e (t, l)
        ≡ (record_entry e t, append_audit_log_entry opens e (record_entry e t).checksum l)
  unfolding record_logged
  record_logged-open e t l is_open =
      let t' = record_entry e t in
      ap (λ o. (t', if o then append_audit_log_entry opens e t'.checksum l else l)) is_open

  record_all-IsLogged :
      (es : List RiskAuditEntry) (t : RiskAuditTrail) (l : AuditLog)
      → IsLogged f t l
      → HoldsAll t es (record_all opens es (t, l))
  unfolding record_all
  record_all-IsLogged [] t l w = (w, sym (append-nil t.entries))
  record_all-IsLogged (e ∷ es) t l w =
      let next = append_audit_log_entry opens e (record_entry e t).checksum l in
      let (logged, added) =
        record_all-IsLogged es (record_entry e t) next (append_audit_log_entry-IsLogged e t l w) in
      subst (λ s. HoldsAll t (e ∷ es) (record_all opens es s))
        (sym (record_logged-open e t l w.opened)) (logged, added ∙ entries_cons e t es)

  open_rotating_audit_log-IsLogged :
      (path : LogPath) (max_records max_bytes : ℕ)
      → IsLogged f empty_trail (open_rotating_audit_log opens path f max_records max_bytes).0
  unfolding open_rotating_audit_log checksum_from logs_from
  open_rotating_audit_log-IsLogged path max_records max_bytes = rw (fresh path.path) (record {
    before = [];
    path = path.path;
    current = [];
    files = fresh_file f [] path.path;
    entries = refl;
    digest = refl;
    format = refl;
    opened = refl;
  })

abbrev verified_log : ℕ → ℕ → List RiskAuditEntry → RiskAuditVerificationResult
verified_log files checksum es = record {
  valid = true;
  files_checked = files;
  entries_checked = length es;
  final_checksum = checksum;
  error = no_error;
}

-- A gateway with a new trail opens its log, where every path that is opened is a new file, with any limits
-- on the records and the bytes of a file. Whatever loggable entries it then records, the log over all
-- files it rotated through is verified, with all of the entries and the checksum of the trail.
pub verify-record_all :
    (opens : Text → Option Text) (path : LogPath) (format : RiskAuditLogFormat)
    (max_records max_bytes : ℕ) (es : List RiskAuditEntry)
    → ((p : Text) → opens p ≡ some [])
    → All IsLoggable es
    → let s =
        record_all opens es
          (empty_trail, (open_rotating_audit_log opens path format max_records max_bytes).0) in
      verify_risk_audit_logs s.1.audit_log_paths format ≡ (record {
        valid = true;
        files_checked = length s.1.audit_log_paths;
        entries_checked = length es;
        final_checksum = s.0.checksum;
        error = no_error;
      })
verify-record_all opens path format max_records max_bytes es fresh loggable =
    let l = (open_rotating_audit_log opens path format max_records max_bytes).0 in
    let (logged, all) =
      record_all-IsLogged opens fresh format es empty_trail l
        (open_rotating_audit_log-IsLogged opens fresh format path max_records max_bytes) in
    let s = record_all opens es (empty_trail, l) in
    verify-IsLogged format s.0 s.1 logged (subst (All IsLoggable) (sym all) loggable)
    ∙ ap (verified_log (length s.1.audit_log_paths) s.0.checksum) all
