-- ===== src/Schema/ResultModels.antt =====
-- packages/db/src/sentinel_db/models: the columns that finding.py and report.py declare.
use security_tool.Prelude.{true, false, [], ◌∷◌, ◌++◌, codes}
use security_tool.Schema.{
  Model, mapped, referring, indexed, string, date_time, enum_type, uuid, boolean, integer, jsonb,
  uuid_primary_key_mixin, timestamp_mixin,
}

unfoldable pub verification_model : Model
verification_model = record {
  tablename = codes "verifications";
  columns =
      (indexed true
          (referring (codes "findings") (codes "id") true (mapped (codes "finding_id") uuid false))
        ∷ mapped (codes "reproduced_count") integer false
        ∷ mapped (codes "attempted_count") integer false
        ∷ mapped (codes "passed") boolean false
        ∷ mapped (codes "last_run_at") (date_time true) true
        ∷ mapped (codes "details") jsonb false
        ∷ [])
      ++ (uuid_primary_key_mixin ++ timestamp_mixin);
}

unfoldable pub evidence_model : Model
evidence_model = record {
  tablename = codes "evidence";
  columns =
      (indexed false
          (referring (codes "findings") (codes "id") true (mapped (codes "finding_id") uuid false))
        ∷ referring (codes "transcript_records") (codes "transcript_id") false
            (mapped (codes "transcript_id") (string 64) false)
        ∷ mapped (codes "role") (string 100) false
        ∷ mapped (codes "note") (string 1000) false
        ∷ [])
      ++ (uuid_primary_key_mixin ++ timestamp_mixin);
}

unfoldable pub finding_model : Model
finding_model = record {
  tablename = codes "findings";
  columns =
      (indexed false
          (referring (codes "scans") (codes "id") true (mapped (codes "scan_id") uuid false))
        ∷ indexed false (mapped (codes "fingerprint") (string 64) false)
        ∷ indexed false (mapped (codes "rule_id") (string 100) false)
        ∷ mapped (codes "title") (string 300) false
        ∷ mapped (codes "cwe") jsonb false
        ∷ mapped (codes "owasp_top10") (string 20) true
        ∷ mapped (codes "cvss_vector") (string 100) true
        ∷ indexed false (
            mapped (codes "severity")
              (enum_type (codes "findingseverity") (
                codes "CRITICAL" ∷ codes "HIGH" ∷ codes "MEDIUM" ∷ codes "LOW" ∷ codes "INFO" ∷ []))
              false)
        ∷ indexed false (
            mapped (codes "confidence")
              (enum_type (codes "findingconfidence")
                (codes "CONFIRMED" ∷ codes "PROBABLE" ∷ codes "INFORMATIONAL" ∷ []))
              false)
        ∷ indexed false (
            mapped (codes "status")
              (enum_type (codes "findingstatus") (
                codes "OPEN"
                ∷ codes "FIXED"
                ∷ codes "REGRESSED"
                ∷ codes "ACCEPTED_RISK"
                ∷ codes "FALSE_POSITIVE"
                ∷ []))
              false)
        ∷ mapped (codes "reproduction") jsonb false
        ∷ mapped (codes "narrative") (string 10000) false
        ∷ mapped (codes "remediation") jsonb false
        ∷ referring (codes "scans") (codes "id") false
            (mapped (codes "first_seen_scan_id") uuid false)
        ∷ referring (codes "scans") (codes "id") false
            (mapped (codes "last_seen_scan_id") uuid false)
        ∷ [])
      ++ (uuid_primary_key_mixin ++ timestamp_mixin);
}

unfoldable pub report_model : Model
report_model = record {
  tablename = codes "reports";
  columns =
      (indexed false
          (referring (codes "scans") (codes "id") true (mapped (codes "scan_id") uuid false))
        ∷ mapped (codes "format")
            (enum_type (codes "reportformat")
              (codes "DASHBOARD" ∷ codes "PDF" ∷ codes "SARIF" ∷ codes "ATTESTATION_LETTER" ∷ []))
            false
        ∷ mapped (codes "storage_pointer") (string 500) false
        ∷ referring (codes "users") (codes "id") false
            (mapped (codes "verified_by_user_id") uuid true)
        ∷ mapped (codes "verified_at") (date_time true) true
        ∷ [])
      ++ (uuid_primary_key_mixin ++ timestamp_mixin);
}
