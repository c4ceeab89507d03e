-- ===== src/Schema/Synced.antt =====
-- The schema that the migrations build, against the models.
use security_tool.Prelude.{
  All, Bool, true, List, [], ◌∷◌, ◌++◌, map, Option, none, some, Text, ◌==◌, text_eq, text_beq,
  find, filter, any, all, contains, ends_with, length, ok, ◌≡◌, refl, ap, sym, subst, ◌∙◌,
}
use mathlib.Core.List.{Perm, perm_append_comm}
use mathlib.Core.List.Perm
use security_tool.Schema.{
  Column, ForeignKey, Index, Op, MappedColumn, Model, uuid_primary_key_mixin, timestamp_mixin,
}
use security_tool.Schema.Accounts.{
  create_credentials, create_organizations, create_users, create_targets, create_personas,
}
use security_tool.Schema.Scans.{
  create_scan_policies, create_scans, create_scope_rules, create_scan_phases,
}
use security_tool.Schema.Surfaces.{
  create_assets, create_endpoints, create_parameters, create_transcript_records,
}
use security_tool.Schema.Results.{
  create_findings, create_reports, create_evidence, create_verifications,
}
use security_tool.Schema.CustomerModels.{
  organization_model, user_model, target_model, scope_rule_model, persona_model, credential_model,
}
use security_tool.Schema.ScanModels.{
  scan_policy_model, scan_model, scan_phase_model, asset_model, endpoint_model, parameter_model,
  transcript_record_model,
}
use security_tool.Schema.ResultModels.{
  finding_model, evidence_model, verification_model, report_model,
}
use security_tool.Schema.Models.{models}
use security_tool.Schema.Initial
use security_tool.Schema.Initial.{drop_tables, drop_enums}
use security_tool.Schema.Recon
use security_tool.Schema.Runs.{
  TableState, Schema, empty_schema, table_of, types_of, on_table, effect, is_legal, Database,
  type_eq, all_distinct, valid_type, valid_default, valid_column, type_of_column, same_type,
  refers_well, is_free, IsDocumented, effects, all_legal, run_script, run_script-ok,
}

abbrev reference_of : Option ForeignKey → Option (Text × Text × Bool)
reference_of none = none
reference_of (some k) = some (k.table, k.target, k.on_delete_cascade)

abbrev index_of : Option Index → Option Bool
index_of none = none
index_of (some i) = some i.unique

-- A column of a table as a model declares it; a default of the server is none of the model's.
abbrev described : TableState → Column → MappedColumn
described t c = record {
  name = c.name;
  column_type = c.column_type;
  nullable = c.nullable;
  reference = reference_of (find (λ (k : ForeignKey). k.column == c.name) t.table.foreign_keys);
  index = index_of (find (λ (i : Index). i.column == c.name) t.indexes);
  is_key = t.table.primary_key == c.name;
}

abbrev pub up : List Op
up = Initial.upgrade ++ Recon.upgrade

abbrev pub down : List Op
down = Recon.downgrade ++ Initial.downgrade

up_legal : all_legal up empty_schema ≡ true
unfolding all_legal is_legal effect table_of types_of on_table find filter any all contains text_beq
    Initial.upgrade Recon.upgrade create_credentials create_organizations create_users
    create_targets create_personas create_scan_policies create_scans create_scope_rules
    create_assets create_findings create_reports create_scan_phases create_transcript_records
    create_endpoints create_evidence create_verifications create_parameters type_eq all_distinct
    valid_type valid_default valid_column type_of_column same_type refers_well is_free ends_with
up_legal = refl

abbrev pub migrated : Schema
migrated = effects up empty_schema

as_many : length migrated.tables ≡ length models
unfolding effects models is_legal effect table_of types_of on_table find filter any all contains
    text_beq Initial.upgrade Recon.upgrade create_credentials create_organizations create_users
    create_targets create_personas create_scan_policies create_scans create_scope_rules
    create_assets create_findings create_reports create_scan_phases create_transcript_records
    create_endpoints create_evidence create_verifications create_parameters
as_many = refl

-- A table has the columns of the model, in whatever order, with their types, references, indexes
-- and the key.
abbrev IsTableOf : Option TableState → Model → Type 0
IsTableOf none m = ⊥
IsTableOf (some t) m = Perm (map (described t) t.table.columns) m.columns

abbrev pub IsMirrored : Schema → Model → Type 0
IsMirrored v m = IsTableOf (table_of m.tablename v) m

-- Three columns that a later migration adds stand before three others in the model.
assets_moved :
    (p q r s x y z u v w : MappedColumn)
    → Perm (p ∷ q ∷ r ∷ s ∷ x ∷ y ∷ z ∷ u ∷ v ∷ w ∷ []) (p ∷ q ∷ r ∷ s ∷ u ∷ v ∷ w ∷ x ∷ y ∷ z ∷ [])
assets_moved p q r s x y z u v w =
    Perm.append_left (p ∷ q ∷ r ∷ s ∷ []) (perm_append_comm (x ∷ y ∷ z ∷ []) (u ∷ v ∷ w ∷ []))

migrated-IsMirrored : All (IsMirrored migrated) models
unfolding effects models organization_model user_model target_model scope_rule_model persona_model
    credential_model scan_policy_model scan_model scan_phase_model asset_model endpoint_model
    parameter_model transcript_record_model finding_model evidence_model verification_model
    report_model uuid_primary_key_mixin timestamp_mixin is_legal effect table_of types_of on_table
    find filter any all contains text_beq Initial.upgrade Recon.upgrade create_credentials
    create_organizations create_users create_targets create_personas create_scan_policies
    create_scans create_scope_rules create_assets create_findings create_reports create_scan_phases
    create_transcript_records create_endpoints create_evidence create_verifications
    create_parameters
migrated-IsMirrored = (
  Perm.refl _,
  (
    Perm.refl _,
    (
      Perm.refl _,
      (
        Perm.refl _,
        (
          Perm.refl _,
          (
            Perm.refl _,
            (
              Perm.refl _,
              (
                Perm.refl _,
                (
                  Perm.refl _,
                  (
                    assets_moved _ _ _ _ _ _ _ _ _ _,
                    (
                      Perm.refl _,
                      (
                        Perm.refl _,
                        (
                          Perm.refl _,
                          (Perm.refl _, (Perm.refl _, (Perm.refl _, (Perm.refl _, (tt))))),
                        ),
                      ),
                    ),
                  ),
                ),
              ),
            ),
          ),
        ),
      ),
    ),
  ),
)

down_legal : all_legal down migrated ≡ true
unfolding all_legal effects drop_tables drop_enums Initial.downgrade Recon.downgrade is_legal effect
    table_of types_of on_table find filter any all contains text_beq Initial.upgrade Recon.upgrade
    create_credentials create_organizations create_users create_targets create_personas
    create_scan_policies create_scans create_scope_rules create_assets create_findings
    create_reports create_scan_phases create_transcript_records create_endpoints create_evidence
    create_verifications create_parameters type_eq all_distinct valid_type valid_default
    valid_column type_of_column same_type refers_well is_free ends_with
down_legal = refl

down-empty : effects down migrated ≡ empty_schema
unfolding effects drop_tables drop_enums Initial.downgrade Recon.downgrade effect table_of types_of
    on_table find filter any all contains text_beq Initial.upgrade Recon.upgrade create_credentials
    create_organizations create_users create_targets create_personas create_scan_policies
    create_scans create_scope_rules create_assets create_findings create_reports create_scan_phases
    create_transcript_records create_endpoints create_evidence create_verifications
    create_parameters
down-empty = refl

module _ (db : Database) (doc : IsDocumented db) (s : db.State)
    (empty : db.schema s ≡ empty_schema) where
  -- On an empty database that runs the operations of Alembic as PostgreSQL is documented to, no
  -- operation of the two migrations is refused, and then there are as many tables as models, and a table for
  -- each model: with the columns that the model declares, in whatever order, each with its type,
  -- whether it may be null, what it refers to, its index and whether it is the key.
  pub upgrade-IsMirrored :
      (t : db.State) × (run_script db up s ≡ ok t)
      × All (IsMirrored (db.schema t)) models
      × (length (db.schema t).tables ≡ length models)
  upgrade-IsMirrored =
      let (t, ran, shown) = run_script-ok db doc up s empty_schema empty up_legal in
      (
        t,
        ran,
        subst (λ v. All (IsMirrored v) models) (sym shown) migrated-IsMirrored,
        ap (λ (v : Schema). length v.tables) shown ∙ as_many,
      )

  -- After the migrations, their downgrades in the opposite order run without a refusal too, and
  -- leave no table and no type of an enumeration, so that the migrations can run again, as before.
  pub downgrade-undoes :
      (t : db.State) × (u : db.State) × (run_script db up s ≡ ok t)
      × (run_script db down t ≡ ok u)
      × (db.schema u ≡ empty_schema)
      × ((w : db.State) × (run_script db up u ≡ ok w) × (db.schema w ≡ db.schema t))
  downgrade-undoes =
      let (t, ran, shown) = run_script-ok db doc up s empty_schema empty up_legal in
      let (u, back, shown') = run_script-ok db doc down t migrated shown down_legal in
      let gone = shown' ∙ down-empty in
      let (w, again, shown'') = run_script-ok db doc up u empty_schema gone up_legal in
      (t, u, ran, back, gone, (w, again, shown'' ∙ sym shown))
