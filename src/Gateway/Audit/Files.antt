-- ===== src/Gateway/Audit/Files.antt =====
-- The files of a log as a list: how they grow at the end, by a line and by a file.
use asterion.Prelude.{
  ℕ, suc, ◌≡◌, refl, ap, sym, ◌∙◌, Option, none, some, List, [], ◌∷◌, ◌++◌, length, append-nil,
  append_assoc,
}
use asterion.Prelude.Text.{Text}
use asterion.Core.Checksum.{fnv_offset_basis}
use asterion.Gateway.Audit.{RiskAuditEntry, append_to_checksum, checksum_from, checksum_from-append}
use asterion.Gateway.Audit.Log.{RiskAuditLogFormat, format_risk_audit_log_entry}
use asterion.Gateway.Audit.RoundTrip.{log_from, logs_from, all_entries}
use asterion.Gateway.Audit.Rotation.{write_last}

abbrev pub Groups : Type 0
Groups = List (Text × List RiskAuditEntry)

log_from-snoc :
    (f : RiskAuditLogFormat) (seed : ℕ) (es : List RiskAuditEntry) (e : RiskAuditEntry)
    → log_from f seed (es ++ e ∷ [])
      ≡ log_from f seed es
        ++ format_risk_audit_log_entry e (append_to_checksum (checksum_from seed es) e) f
unfolding log_from checksum_from
log_from-snoc f seed [] e = append-nil _
log_from-snoc f seed (x ∷ es) e =
    let c = append_to_checksum seed x in
    ap (λ t. format_risk_audit_log_entry x c f ++ t) (log_from-snoc f c es e)
    ∙ sym (append_assoc (format_risk_audit_log_entry x c f) (log_from f c es) _)

pub all_entries-append :
    (gs hs : Groups) → all_entries (gs ++ hs) ≡ all_entries gs ++ all_entries hs
all_entries-append [] hs = refl
all_entries-append ((path, es) ∷ gs) hs =
    ap (λ t. es ++ t) (all_entries-append gs hs)
    ∙ sym (append_assoc es (all_entries gs) (all_entries hs))

logs_from-append :
    (f : RiskAuditLogFormat) (seed : ℕ) (gs hs : Groups)
    → logs_from f seed (gs ++ hs)
      ≡ logs_from f seed gs ++ logs_from f (checksum_from seed (all_entries gs)) hs
unfolding logs_from checksum_from
logs_from-append f seed [] hs = refl
logs_from-append f seed ((path, es) ∷ gs) hs =
    let c = checksum_from seed es in
    ap (λ t. (path, some (log_from f seed es)) ∷ t)
      (logs_from-append f c gs hs
        ∙ ap (λ k. logs_from f c gs ++ logs_from f k hs)
            (sym (checksum_from-append seed es (all_entries gs))))

write_first :
    (line : Text) (x : Text × Option Text) (path content : Text)
    → write_last line (x ∷ (path, some content) ∷ []) ≡ x ∷ (path, some (content ++ line)) ∷ []
unfolding write_last
write_first line (q, none) path content = refl
write_first line (q, some d) path content = refl

write_first_of :
    (line : Text) (x y : Text × Option Text) (files : List (Text × Option Text))
    → write_last line (x ∷ y ∷ files) ≡ x ∷ write_last line (y ∷ files)
unfolding write_last
write_first_of line (q, none) y files = refl
write_first_of line (q, some d) y files = refl

write_last-snoc :
    (line : Text) (files : List (Text × Option Text)) (path content : Text)
    → write_last line (files ++ (path, some content) ∷ [])
      ≡ files ++ (path, some (content ++ line)) ∷ []
unfolding write_last
write_last-snoc line [] path content = refl
write_last-snoc line (x ∷ []) path content = write_first line x path content
write_last-snoc line (x ∷ y ∷ files) path content =
    write_first_of line x y (files ++ (path, some content) ∷ [])
    ∙ ap (λ t. x ∷ t) (write_last-snoc line (y ∷ files) path content)

-- The files, the last of them apart.
files_split :
    (f : RiskAuditLogFormat) (before : Groups) (path : Text) (current : List RiskAuditEntry)
    → logs_from f fnv_offset_basis (before ++ (path, current) ∷ [])
      ≡ logs_from f fnv_offset_basis before
        ++ (path, some (log_from f (checksum_from fnv_offset_basis (all_entries before)) current))
          ∷ []
unfolding logs_from
files_split f before path current =
    logs_from-append f fnv_offset_basis before ((path, current) ∷ [])

pub fresh_file :
    (f : RiskAuditLogFormat) (before : Groups) (path : Text)
    → logs_from f fnv_offset_basis before ++ (path, some []) ∷ []
      ≡ logs_from f fnv_offset_basis (before ++ (path, []) ∷ [])
unfolding log_from
fresh_file f before path = sym (files_split f before path [])

-- A written line adds its entry to the last file.
pub write_line-files :
    (f : RiskAuditLogFormat) (before : Groups) (path : Text) (current : List RiskAuditEntry)
    (e : RiskAuditEntry)
    → write_last
        (format_risk_audit_log_entry e
          (append_to_checksum (checksum_from fnv_offset_basis (all_entries before ++ current)) e)
          f)
        (logs_from f fnv_offset_basis (before ++ (path, current) ∷ []))
      ≡ logs_from f fnv_offset_basis (before ++ (path, current ++ e ∷ []) ∷ [])
write_line-files f before path current e =
    let k = checksum_from fnv_offset_basis (all_entries before) in
    let line = format_risk_audit_log_entry e (append_to_checksum (checksum_from k current) e) f in
    let first = logs_from f fnv_offset_basis before in
    rw
      (
        checksum_from-append fnv_offset_basis (all_entries before) current,
        files_split f before path current,
      )
      (write_last-snoc line first path (log_from f k current)
        ∙ ap (λ c. first ++ (path, some c) ∷ []) (sym (log_from-snoc f k current e))
        ∙ sym (files_split f before path (current ++ e ∷ [])))

pub length-logs_from :
    (f : RiskAuditLogFormat) (seed : ℕ) (gs : Groups) → length (logs_from f seed gs) ≡ length gs
unfolding logs_from
length-logs_from f seed [] = refl
length-logs_from f seed ((path, es) ∷ gs) = ap suc (length-logs_from f (checksum_from seed es) gs)
