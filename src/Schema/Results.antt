-- ===== src/Schema/Results.antt =====
-- packages/db/migrations/versions/59e49f2ddeda_initial_schema.py: the tables of findings and reports.
use security_tool.Prelude.{true, false, List, [], ◌∷◌, codes}
use security_tool.Schema.{
  Op, create_table, create_index, column, foreign_key, string, date_time, enum_type, uuid, boolean,
  integer, jsonb,
}

unfoldable pub create_findings : List Op
create_findings =
    create_table record {
      name = codes "findings";
      columns =
          column (codes "scan_id") uuid false
          ∷ column (codes "fingerprint") (string 64) false
          ∷ column (codes "rule_id") (string 100) false
          ∷ column (codes "title") (string 300) false
          ∷ column (codes "cwe") jsonb false
          ∷ column (codes "owasp_top10") (string 20) true
          ∷ column (codes "cvss_vector") (string 100) true
          ∷ column (codes "severity")
              (enum_type (codes "findingseverity") (
                codes "CRITICAL" ∷ codes "HIGH" ∷ codes "MEDIUM" ∷ codes "LOW" ∷ codes "INFO" ∷ []))
              false
          ∷ column (codes "confidence")
              (enum_type (codes "findingconfidence")
                (codes "CONFIRMED" ∷ codes "PROBABLE" ∷ codes "INFORMATIONAL" ∷ []))
              false
          ∷ column (codes "status")
              (enum_type (codes "findingstatus") (
                codes "OPEN"
                ∷ codes "FIXED"
                ∷ codes "REGRESSED"
                ∷ codes "ACCEPTED_RISK"
                ∷ codes "FALSE_POSITIVE"
                ∷ []))
              false
          ∷ column (codes "reproduction") jsonb false
          ∷ column (codes "narrative") (string 10000) false
          ∷ column (codes "remediation") jsonb false
          ∷ column (codes "first_seen_scan_id") uuid false
          ∷ column (codes "last_seen_scan_id") uuid false
          ∷ column (codes "id") uuid false
          ∷ column (codes "created_at") (date_time true) false
          ∷ column (codes "updated_at") (date_time true) false
          ∷ [];
      foreign_keys =
          foreign_key (codes "first_seen_scan_id") (codes "scans") (codes "id") false
          ∷ foreign_key (codes "last_seen_scan_id") (codes "scans") (codes "id") false
          ∷ foreign_key (codes "scan_id") (codes "scans") (codes "id") true
          ∷ [];
      primary_key = codes "id";
    }
    ∷ create_index record {
      name = codes "ix_findings_confidence";
      table = codes "findings";
      column = codes "confidence";
      unique = false;
    }
    ∷ create_index record {
      name = codes "ix_findings_fingerprint";
      table = codes "findings";
      column = codes "fingerprint";
      unique = false;
    }
    ∷ create_index record {
      name = codes "ix_findings_rule_id";
      table = codes "findings";
      column = codes "rule_id";
      unique = false;
    }
    ∷ create_index record {
      name = codes "ix_findings_scan_id";
      table = codes "findings";
      column = codes "scan_id";
      unique = false;
    }
    ∷ create_index record {
      name = codes "ix_findings_severity";
      table = codes "findings";
      column = codes "severity";
      unique = false;
    }
    ∷ create_index record {
      name = codes "ix_findings_status";
      table = codes "findings";
      column = codes "status";
      unique = false;
    }
    ∷ []

unfoldable pub create_reports : List Op
create_reports =
    create_table record {
      name = codes "reports";
      columns =
          column (codes "scan_id") uuid false
          ∷ column (codes "format")
              (enum_type (codes "reportformat")
                (codes "DASHBOARD" ∷ codes "PDF" ∷ codes "SARIF" ∷ codes "ATTESTATION_LETTER" ∷ []))
              false
          ∷ column (codes "storage_pointer") (string 500) false
          ∷ column (codes "verified_by_user_id") uuid true
          ∷ column (codes "verified_at") (date_time true) true
          ∷ column (codes "id") uuid false
          ∷ column (codes "created_at") (date_time true) false
          ∷ column (codes "updated_at") (date_time true) false
          ∷ [];
      foreign_keys =
          foreign_key (codes "scan_id") (codes "scans") (codes "id") true
          ∷ foreign_key (codes "verified_by_user_id") (codes "users") (codes "id") false
          ∷ [];
      primary_key = codes "id";
    }
    ∷ create_index record {
      name = codes "ix_reports_scan_id";
      table = codes "reports";
      column = codes "scan_id";
      unique = false;
    }
    ∷ []

unfoldable pub create_evidence : List Op
create_evidence =
    create_table record {
      name = codes "evidence";
      columns =
          column (codes "finding_id") uuid false
          ∷ column (codes "transcript_id") (string 64) false
          ∷ column (codes "role") (string 100) false
          ∷ column (codes "note") (string 1000) false
          ∷ column (codes "id") uuid false
          ∷ column (codes "created_at") (date_time true) false
          ∷ column (codes "updated_at") (date_time true) false
          ∷ [];
      foreign_keys =
          foreign_key (codes "finding_id") (codes "findings") (codes "id") true
          ∷ foreign_key (codes "transcript_id") (codes "transcript_records") (codes "transcript_id")
              false
          ∷ [];
      primary_key = codes "id";
    }
    ∷ create_index record {
      name = codes "ix_evidence_finding_id";
      table = codes "evidence";
      column = codes "finding_id";
      unique = false;
    }
    ∷ []

unfoldable pub create_verifications : List Op
create_verifications =
    create_table record {
      name = codes "verifications";
      columns =
          column (codes "finding_id") uuid false
          ∷ column (codes "reproduced_count") integer false
          ∷ column (codes "attempted_count") integer false
          ∷ column (codes "passed") boolean false
          ∷ column (codes "last_run_at") (date_time true) true
          ∷ column (codes "details") jsonb false
          ∷ column (codes "id") uuid false
          ∷ column (codes "created_at") (date_time true) false
          ∷ column (codes "updated_at") (date_time true) false
          ∷ [];
      foreign_keys = foreign_key (codes "finding_id") (codes "findings") (codes "id") true ∷ [];
      primary_key = codes "id";
    }
    ∷ create_index record {
      name = codes "ix_verifications_finding_id";
      table = codes "verifications";
      column = codes "finding_id";
      unique = true;
    }
    ∷ []
