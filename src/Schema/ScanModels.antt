-- ===== src/Schema/ScanModels.antt =====
-- packages/db/src/sentinel_db/models: the columns that scan.py, asset.py and transcript.py declare.
use security_tool.Prelude.{true, false, [], ◌∷◌, ◌++◌, codes}
use security_tool.Schema.{
  Model, mapped, referring, indexed, as_key, string, date_time, enum_type, uuid, boolean, integer,
  float, jsonb, uuid_primary_key_mixin, timestamp_mixin,
}

unfoldable pub scan_policy_model : Model
scan_policy_model = record {
  tablename = codes "scan_policies";
  columns =
      (indexed true
          (referring (codes "targets") (codes "id") true (mapped (codes "target_id") uuid false))
        ∷ mapped (codes "intensity")
            (enum_type (codes "scanintensity")
              (codes "LIGHT" ∷ codes "STANDARD" ∷ codes "THOROUGH" ∷ []))
            false
        ∷ mapped (codes "schedule_cron") (string 100) true
        ∷ mapped (codes "read_write_enabled") boolean false
        ∷ mapped (codes "max_requests_per_second") float false
        ∷ mapped (codes "testing_window_start_hour_utc") integer true
        ∷ mapped (codes "testing_window_end_hour_utc") integer true
        ∷ [])
      ++ (uuid_primary_key_mixin ++ timestamp_mixin);
}

unfoldable pub scan_model : Model
scan_model = record {
  tablename = codes "scans";
  columns =
      (indexed false
          (referring (codes "targets") (codes "id") true (mapped (codes "target_id") uuid false))
        ∷ mapped (codes "triggered_by") (string 50) false
        ∷ indexed false (
            mapped (codes "state")
              (enum_type (codes "scanstate") (
                codes "QUEUED"
                ∷ codes "SCOPE_VERIFYING"
                ∷ codes "BLOCKED_UNVERIFIED"
                ∷ codes "RECON"
                ∷ codes "AUTH_ESTABLISHING"
                ∷ codes "FAILED_AUTH"
                ∷ codes "CRAWLING"
                ∷ codes "SURFACE_MAPPING"
                ∷ codes "PASSIVE_CHECKS"
                ∷ codes "TESTING"
                ∷ codes "VERIFYING"
                ∷ codes "TRIAGING"
                ∷ codes "REPORTING"
                ∷ codes "COMPLETE"
                ∷ codes "PAUSED"
                ∷ codes "CANCELLED"
                ∷ codes "FAILED"
                ∷ []))
              false)
        ∷ mapped (codes "paused_from")
            (enum_type (codes "scanstate") (
              codes "QUEUED"
              ∷ codes "SCOPE_VERIFYING"
              ∷ codes "BLOCKED_UNVERIFIED"
              ∷ codes "RECON"
              ∷ codes "AUTH_ESTABLISHING"
              ∷ codes "FAILED_AUTH"
              ∷ codes "CRAWLING"
              ∷ codes "SURFACE_MAPPING"
              ∷ codes "PASSIVE_CHECKS"
              ∷ codes "TESTING"
              ∷ codes "VERIFYING"
              ∷ codes "TRIAGING"
              ∷ codes "REPORTING"
              ∷ codes "COMPLETE"
              ∷ codes "PAUSED"
              ∷ codes "CANCELLED"
              ∷ codes "FAILED"
              ∷ []))
            true
        ∷ mapped (codes "fail_reason") (string 1000) true
        ∷ mapped (codes "is_degraded") boolean false
        ∷ mapped (codes "degraded_reasons") jsonb false
        ∷ mapped (codes "started_at") (date_time true) true
        ∷ mapped (codes "finished_at") (date_time true) true
        ∷ mapped (codes "llm_token_budget") integer false
        ∷ mapped (codes "llm_tokens_used") integer false
        ∷ [])
      ++ (uuid_primary_key_mixin ++ timestamp_mixin);
}

unfoldable pub scan_phase_model : Model
scan_phase_model = record {
  tablename = codes "scan_phases";
  columns =
      (indexed false
          (referring (codes "scans") (codes "id") true (mapped (codes "scan_id") uuid false))
        ∷ mapped (codes "name")
            (enum_type (codes "scanphasename") (
              codes "SCOPE_VERIFYING"
              ∷ codes "RECON"
              ∷ codes "AUTH_ESTABLISHING"
              ∷ codes "CRAWLING"
              ∷ codes "SURFACE_MAPPING"
              ∷ codes "PASSIVE_CHECKS"
              ∷ codes "ACTIVE_INJECTION"
              ∷ codes "ACCESS_CONTROL"
              ∷ codes "SESSION_CHECKS"
              ∷ codes "BUSINESS_LOGIC"
              ∷ codes "VERIFYING"
              ∷ codes "TRIAGING"
              ∷ codes "REPORTING"
              ∷ []))
            false
        ∷ mapped (codes "status")
            (enum_type (codes "phasestatus") (
              codes "PENDING"
              ∷ codes "RUNNING"
              ∷ codes "COMPLETED"
              ∷ codes "FAILED"
              ∷ codes "SKIPPED"
              ∷ []))
            false
        ∷ mapped (codes "started_at") (date_time true) true
        ∷ mapped (codes "finished_at") (date_time true) true
        ∷ mapped (codes "error") (string 2000) true
        ∷ mapped (codes "stats_json") jsonb false
        ∷ [])
      ++ (uuid_primary_key_mixin ++ timestamp_mixin);
}

unfoldable pub asset_model : Model
asset_model = record {
  tablename = codes "assets";
  columns =
      (indexed false
          (referring (codes "scans") (codes "id") true (mapped (codes "scan_id") uuid false))
        ∷ indexed false (mapped (codes "host") (string 255) false)
        ∷ mapped (codes "kind") (string 50) false
        ∷ mapped (codes "tech_fingerprint") jsonb false
        ∷ mapped (codes "ip_addresses") jsonb false
        ∷ mapped (codes "http_probes") jsonb false
        ∷ mapped (codes "discovery_source") (string 30) false
        ∷ [])
      ++ (uuid_primary_key_mixin ++ timestamp_mixin);
}

unfoldable pub endpoint_model : Model
endpoint_model = record {
  tablename = codes "endpoints";
  columns =
      (indexed false
          (referring (codes "assets") (codes "id") true (mapped (codes "asset_id") uuid false))
        ∷ mapped (codes "method") (string 10) false
        ∷ indexed false (mapped (codes "path_template") (string 1000) false)
        ∷ mapped (codes "discovered_by_persona_ids") jsonb false
        ∷ mapped (codes "discovery_source") (string 30) false
        ∷ [])
      ++ (uuid_primary_key_mixin ++ timestamp_mixin);
}

unfoldable pub parameter_model : Model
parameter_model = record {
  tablename = codes "parameters";
  columns =
      (indexed false (
          referring (codes "endpoints") (codes "id") true (mapped (codes "endpoint_id") uuid false))
        ∷ mapped (codes "name") (string 200) false
        ∷ mapped (codes "location") (string 20) false
        ∷ mapped (codes "semantic_label") (string 50) true
        ∷ mapped (codes "label_confidence") float true
        ∷ [])
      ++ (uuid_primary_key_mixin ++ timestamp_mixin);
}

unfoldable pub transcript_record_model : Model
transcript_record_model = record {
  tablename = codes "transcript_records";
  columns =
      (as_key (mapped (codes "transcript_id") (string 64) false)
        ∷ indexed false
            (referring (codes "scans") (codes "id") true (mapped (codes "scan_id") uuid false))
        ∷ referring (codes "personas") (codes "id") false (mapped (codes "persona_id") uuid true)
        ∷ mapped (codes "method") (string 10) false
        ∷ mapped (codes "url") (string 2000) false
        ∷ mapped (codes "status_code") integer true
        ∷ [])
      ++ (timestamp_mixin);
}
