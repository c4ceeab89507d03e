-- ===== src/Schema/Scans.antt =====
-- packages/db/migrations/versions/59e49f2ddeda_initial_schema.py: the tables of scans.
use security_tool.Prelude.{true, false, List, [], ◌∷◌, codes}
use security_tool.Schema.{
  Op, create_table, create_index, column, foreign_key, string, date_time, enum_type, uuid, boolean,
  integer, float, jsonb,
}

unfoldable pub create_scan_policies : List Op
create_scan_policies =
    create_table record {
      name = codes "scan_policies";
      columns =
          column (codes "target_id") uuid false
          ∷ column (codes "intensity")
              (enum_type (codes "scanintensity")
                (codes "LIGHT" ∷ codes "STANDARD" ∷ codes "THOROUGH" ∷ []))
              false
          ∷ column (codes "schedule_cron") (string 100) true
          ∷ column (codes "read_write_enabled") boolean false
          ∷ column (codes "max_requests_per_second") float false
          ∷ column (codes "testing_window_start_hour_utc") integer true
          ∷ column (codes "testing_window_end_hour_utc") integer true
          ∷ column (codes "id") uuid false
          ∷ column (codes "created_at") (date_time true) false
          ∷ column (codes "updated_at") (date_time true) false
          ∷ [];
      foreign_keys = foreign_key (codes "target_id") (codes "targets") (codes "id") true ∷ [];
      primary_key = codes "id";
    }
    ∷ create_index record {
      name = codes "ix_scan_policies_target_id";
      table = codes "scan_policies";
      column = codes "target_id";
      unique = true;
    }
    ∷ []

unfoldable pub create_scans : List Op
create_scans =
    create_table record {
      name = codes "scans";
      columns =
          column (codes "target_id") uuid false
          ∷ column (codes "triggered_by") (string 50) false
          ∷ column (codes "state")
              (enum_type (codes "scanstate") (
                codes "QUEUED"
                ∷ codes "SCOPE_VERIFYING"
                ∷ codes "BLOCKED_UNVERIFIED"
                ∷ codes "RECON"
                ∷ codes "AUTH_ESTABLISHING"
                ∷ codes "FAILED_AUTH"
                ∷ codes "CRAWLING"
                ∷ codes "SURFACE_MAPPING"
                ∷ codes "PASSIVE_CHECKS"
                ∷ codes "TESTING"
                ∷ codes "VERIFYING"
                ∷ codes "TRIAGING"
                ∷ codes "REPORTING"
                ∷ codes "COMPLETE"
                ∷ codes "PAUSED"
                ∷ codes "CANCELLED"
                ∷ codes "FAILED"
                ∷ []))
              false
          ∷ column (codes "paused_from")
              (enum_type (codes "scanstate") (
                codes "QUEUED"
                ∷ codes "SCOPE_VERIFYING"
                ∷ codes "BLOCKED_UNVERIFIED"
                ∷ codes "RECON"
                ∷ codes "AUTH_ESTABLISHING"
                ∷ codes "FAILED_AUTH"
                ∷ codes "CRAWLING"
                ∷ codes "SURFACE_MAPPING"
                ∷ codes "PASSIVE_CHECKS"
                ∷ codes "TESTING"
                ∷ codes "VERIFYING"
                ∷ codes "TRIAGING"
                ∷ codes "REPORTING"
                ∷ codes "COMPLETE"
                ∷ codes "PAUSED"
                ∷ codes "CANCELLED"
                ∷ codes "FAILED"
                ∷ []))
              true
          ∷ column (codes "fail_reason") (string 1000) true
          ∷ column (codes "is_degraded") boolean false
          ∷ column (codes "degraded_reasons") jsonb false
          ∷ column (codes "started_at") (date_time true) true
          ∷ column (codes "finished_at") (date_time true) true
          ∷ column (codes "llm_token_budget") integer false
          ∷ column (codes "llm_tokens_used") integer false
          ∷ column (codes "id") uuid false
          ∷ column (codes "created_at") (date_time true) false
          ∷ column (codes "updated_at") (date_time true) false
          ∷ [];
      foreign_keys = foreign_key (codes "target_id") (codes "targets") (codes "id") true ∷ [];
      primary_key = codes "id";
    }
    ∷ create_index record {
      name = codes "ix_scans_state";
      table = codes "scans";
      column = codes "state";
      unique = false;
    }
    ∷ create_index record {
      name = codes "ix_scans_target_id";
      table = codes "scans";
      column = codes "target_id";
      unique = false;
    }
    ∷ []

unfoldable pub create_scope_rules : List Op
create_scope_rules =
    create_table record {
      name = codes "scope_rules";
      columns =
          column (codes "target_id") uuid false
          ∷ column (codes "kind") (string 20) false
          ∷ column (codes "pattern") (string 500) false
          ∷ column (codes "effect") (string 10) false
          ∷ column (codes "label") (string 200) false
          ∷ column (codes "id") uuid false
          ∷ column (codes "created_at") (date_time true) false
          ∷ column (codes "updated_at") (date_time true) false
          ∷ [];
      foreign_keys = foreign_key (codes "target_id") (codes "targets") (codes "id") true ∷ [];
      primary_key = codes "id";
    }
    ∷ create_index record {
      name = codes "ix_scope_rules_target_id";
      table = codes "scope_rules";
      column = codes "target_id";
      unique = false;
    }
    ∷ []

unfoldable pub create_scan_phases : List Op
create_scan_phases =
    create_table record {
      name = codes "scan_phases";
      columns =
          column (codes "scan_id") uuid false
          ∷ column (codes "name")
              (enum_type (codes "scanphasename") (
                codes "SCOPE_VERIFYING"
                ∷ codes "RECON"
                ∷ codes "AUTH_ESTABLISHING"
                ∷ codes "CRAWLING"
                ∷ codes "SURFACE_MAPPING"
                ∷ codes "PASSIVE_CHECKS"
                ∷ codes "ACTIVE_INJECTION"
                ∷ codes "ACCESS_CONTROL"
                ∷ codes "SESSION_CHECKS"
                ∷ codes "BUSINESS_LOGIC"
                ∷ codes "VERIFYING"
                ∷ codes "TRIAGING"
                ∷ codes "REPORTING"
                ∷ []))
              false
          ∷ column (codes "status")
              (enum_type (codes "phasestatus") (
                codes "PENDING"
                ∷ codes "RUNNING"
                ∷ codes "COMPLETED"
                ∷ codes "FAILED"
                ∷ codes "SKIPPED"
                ∷ []))
              false
          ∷ column (codes "started_at") (date_time true) true
          ∷ column (codes "finished_at") (date_time true) true
          ∷ column (codes "error") (string 2000) true
          ∷ column (codes "stats_json") jsonb false
          ∷ column (codes "id") uuid false
          ∷ column (codes "created_at") (date_time true) false
          ∷ column (codes "updated_at") (date_time true) false
          ∷ [];
      foreign_keys = foreign_key (codes "scan_id") (codes "scans") (codes "id") true ∷ [];
      primary_key = codes "id";
    }
    ∷ create_index record {
      name = codes "ix_scan_phases_scan_id";
      table = codes "scan_phases";
      column = codes "scan_id";
      unique = false;
    }
    ∷ []
