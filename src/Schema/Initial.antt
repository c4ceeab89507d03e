-- ===== src/Schema/Initial.antt =====
-- packages/db/migrations/versions/59e49f2ddeda_initial_schema.py: the two scripts.
use security_tool.Prelude.{List, [], ◌∷◌, ◌++◌, codes}
use security_tool.Schema.{Op, drop_index, drop_table, drop_enum}
use security_tool.Schema.Accounts.{
  create_credentials, create_organizations, create_users, create_targets, create_personas,
}
use security_tool.Schema.Scans.{
  create_scan_policies, create_scans, create_scope_rules, create_scan_phases,
}
use security_tool.Schema.Surfaces.{
  create_assets, create_endpoints, create_parameters, create_transcript_records,
}
use security_tool.Schema.Results.{
  create_findings, create_reports, create_evidence, create_verifications,
}

unfoldable pub upgrade : List Op
unfolding create_credentials create_organizations create_users create_targets create_personas
    create_scan_policies create_scans create_scope_rules create_assets create_findings
    create_reports create_scan_phases create_transcript_records create_endpoints create_evidence
    create_verifications create_parameters
upgrade =
    create_credentials
    ++ (create_organizations
        ++ (create_users
            ++ (create_targets
                ++ (create_personas
                    ++ (create_scan_policies
                        ++ (create_scans
                            ++ (create_scope_rules
                                ++ (create_assets
                                    ++ (create_findings
                                        ++ (create_reports
                                            ++ (create_scan_phases
                                                ++ (create_transcript_records
                                                    ++ (create_endpoints
                                                        ++ (create_evidence
                                                            ++ (create_verifications
                                                            ++ (create_parameters))))))))))))))))

-- The tables and their indexes.
unfoldable pub drop_tables : List Op
drop_tables =
    drop_index (codes "ix_parameters_endpoint_id") (codes "parameters")
    ∷ drop_table (codes "parameters")
    ∷ drop_index (codes "ix_verifications_finding_id") (codes "verifications")
    ∷ drop_table (codes "verifications")
    ∷ drop_index (codes "ix_evidence_finding_id") (codes "evidence")
    ∷ drop_table (codes "evidence")
    ∷ drop_index (codes "ix_endpoints_path_template") (codes "endpoints")
    ∷ drop_index (codes "ix_endpoints_asset_id") (codes "endpoints")
    ∷ drop_table (codes "endpoints")
    ∷ drop_index (codes "ix_transcript_records_scan_id") (codes "transcript_records")
    ∷ drop_table (codes "transcript_records")
    ∷ drop_index (codes "ix_scan_phases_scan_id") (codes "scan_phases")
    ∷ drop_table (codes "scan_phases")
    ∷ drop_index (codes "ix_reports_scan_id") (codes "reports")
    ∷ drop_table (codes "reports")
    ∷ drop_index (codes "ix_findings_status") (codes "findings")
    ∷ drop_index (codes "ix_findings_severity") (codes "findings")
    ∷ drop_index (codes "ix_findings_scan_id") (codes "findings")
    ∷ drop_index (codes "ix_findings_rule_id") (codes "findings")
    ∷ drop_index (codes "ix_findings_fingerprint") (codes "findings")
    ∷ drop_index (codes "ix_findings_confidence") (codes "findings")
    ∷ drop_table (codes "findings")
    ∷ drop_index (codes "ix_assets_scan_id") (codes "assets")
    ∷ drop_index (codes "ix_assets_host") (codes "assets")
    ∷ drop_table (codes "assets")
    ∷ drop_index (codes "ix_scope_rules_target_id") (codes "scope_rules")
    ∷ drop_table (codes "scope_rules")
    ∷ drop_index (codes "ix_scans_target_id") (codes "scans")
    ∷ drop_index (codes "ix_scans_state") (codes "scans")
    ∷ drop_table (codes "scans")
    ∷ drop_index (codes "ix_scan_policies_target_id") (codes "scan_policies")
    ∷ drop_table (codes "scan_policies")
    ∷ drop_index (codes "ix_personas_tenant_key") (codes "personas")
    ∷ drop_index (codes "ix_personas_target_id") (codes "personas")
    ∷ drop_table (codes "personas")
    ∷ drop_index (codes "ix_targets_root_domain") (codes "targets")
    ∷ drop_index (codes "ix_targets_organization_id") (codes "targets")
    ∷ drop_table (codes "targets")
    ∷ drop_index (codes "ix_users_organization_id") (codes "users")
    ∷ drop_index (codes "ix_users_clerk_user_id") (codes "users")
    ∷ drop_table (codes "users")
    ∷ drop_index (codes "ix_organizations_slug") (codes "organizations")
    ∷ drop_table (codes "organizations")
    ∷ drop_table (codes "credentials")
    ∷ []

-- The types of the enumerations.
unfoldable pub drop_enums : List Op
drop_enums =
    drop_enum (codes "credentialkind")
    ∷ drop_enum (codes "orgrole")
    ∷ drop_enum (codes "ownershipverificationmethod")
    ∷ drop_enum (codes "loginstrategy")
    ∷ drop_enum (codes "scanintensity")
    ∷ drop_enum (codes "scanstate")
    ∷ drop_enum (codes "scanphasename")
    ∷ drop_enum (codes "phasestatus")
    ∷ drop_enum (codes "findingseverity")
    ∷ drop_enum (codes "findingconfidence")
    ∷ drop_enum (codes "findingstatus")
    ∷ drop_enum (codes "reportformat")
    ∷ []

unfoldable pub downgrade : List Op
unfolding drop_tables drop_enums
downgrade = drop_tables ++ drop_enums
