-- ===== src/Gateway/Audit.antt =====
-- risk/risk_audit.hpp and risk_audit.cpp: one decision of the gateway, the trail of them with its
-- checksum, and the log that a trail is written to.
pub mod Log
pub mod Parse
pub mod Verify
pub mod Tokens
pub mod TextLine
pub mod JsonLine
pub mod Entry
pub mod RoundTrip
pub mod Sound
pub mod Rotation
pub mod Files
pub mod Logged
mod Tests
use asterion.Prelude.{ℕ, suc, ◌≡◌, refl, Bool, List, [], ◌∷◌, ◌++◌, if◌then◌else◌}
use asterion.Prelude.Int.{ℤ}
use asterion.Prelude.Text.{Text}
use asterion.Core.Types.{Side, side_code}
use asterion.Core.Checksum.{
  fnv_offset_basis, append_u64, append_u32, append_u8, append_i64, checksum_append_string,
}
use asterion.Matching.Report.{RejectReason, reject_reason_code}

pub record RiskAuditEntry : Type 0 where
  pub timestamp_ns : ℤ
  pub client_order_id : ℕ
  pub symbol_id : ℕ
  pub side : Side
  pub accepted : Bool
  pub reject_reason : RejectReason
  pub check_name : Text
  pub limit_value : ℤ
  pub observed_value : ℤ

unfoldable pub append_to_checksum : ℕ → RiskAuditEntry → ℕ
unfolding append_u64 append_u32 append_u8 append_i64 checksum_append_string side_code
    reject_reason_code
append_to_checksum seed e =
    let s1 = append_i64 seed e.timestamp_ns in
    let s2 = append_u64 s1 e.client_order_id in
    let s3 = append_u32 s2 e.symbol_id in
    let s4 = append_u8 s3 (side_code e.side) in
    let s5 = append_u8 s4 (if e.accepted then 1 else 0) in
    let s6 = append_u8 s5 (reject_reason_code e.reject_reason) in
    let s7 = checksum_append_string s6 e.check_name in
    let s8 = append_i64 s7 e.limit_value in append_i64 s8 e.observed_value

unfoldable pub checksum_from : ℕ → List RiskAuditEntry → ℕ
checksum_from seed [] = seed
checksum_from seed (e ∷ es) = checksum_from (append_to_checksum seed e) es

unfoldable pub checksum_risk_audit : List RiskAuditEntry → ℕ
unfolding checksum_from
checksum_risk_audit es = checksum_from fnv_offset_basis es

pub record RiskAuditTrail : Type 0 where
  pub entries : List RiskAuditEntry
  pub checksum : ℕ
  pub accepted_count : ℕ

abbrev pub empty_trail : RiskAuditTrail
empty_trail = record { entries = []; checksum = fnv_offset_basis; accepted_count = 0 }

unfoldable pub record_entry : RiskAuditEntry → RiskAuditTrail → RiskAuditTrail
record_entry e t = record {
  entries = t.entries ++ e ∷ [];
  checksum = append_to_checksum t.checksum e;
  accepted_count = if e.accepted then suc t.accepted_count else t.accepted_count;
}

pub checksum_from-append :
    (seed : ℕ) (xs ys : List RiskAuditEntry)
    → checksum_from seed (xs ++ ys) ≡ checksum_from (checksum_from seed xs) ys
unfolding checksum_from
checksum_from-append seed [] ys = refl
checksum_from-append seed (x ∷ xs) ys = checksum_from-append (append_to_checksum seed x) xs ys
