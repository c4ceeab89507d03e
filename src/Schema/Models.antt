-- ===== src/Schema/Models.antt =====
-- packages/db/src/sentinel_db/models/__init__.py: all models.
use security_tool.Prelude.{List, [], ◌∷◌}
use security_tool.Schema.{Model}
use security_tool.Schema.CustomerModels.{
  organization_model, user_model, target_model, scope_rule_model, credential_model, persona_model,
}
use security_tool.Schema.ScanModels.{
  scan_policy_model, scan_model, scan_phase_model, asset_model, endpoint_model, parameter_model,
  transcript_record_model,
}
use security_tool.Schema.ResultModels.{
  verification_model, evidence_model, finding_model, report_model,
}

unfoldable pub models : List Model
unfolding organization_model user_model target_model scope_rule_model persona_model credential_model
    scan_policy_model scan_model scan_phase_model asset_model endpoint_model parameter_model
    transcript_record_model finding_model evidence_model verification_model report_model
models =
    organization_model ∷ user_model ∷ target_model ∷ scope_rule_model ∷ persona_model
    ∷ credential_model ∷ scan_policy_model ∷ scan_model ∷ scan_phase_model ∷ asset_model
    ∷ endpoint_model ∷ parameter_model ∷ transcript_record_model ∷ finding_model ∷ evidence_model
    ∷ verification_model ∷ report_model ∷ []
