-- ===== src/Schema/Surfaces.antt =====
-- packages/db/migrations/versions/59e49f2ddeda_initial_schema.py: the tables of what scans find of a target.
use security_tool.Prelude.{true, false, List, [], ◌∷◌, codes}
use security_tool.Schema.{
  Op, create_table, create_index, column, foreign_key, string, date_time, uuid, integer, float,
  jsonb,
}

unfoldable pub create_assets : List Op
create_assets =
    create_table record {
      name = codes "assets";
      columns =
          column (codes "scan_id") uuid false
          ∷ column (codes "host") (string 255) false
          ∷ column (codes "kind") (string 50) false
          ∷ column (codes "tech_fingerprint") jsonb false
          ∷ column (codes "id") uuid false
          ∷ column (codes "created_at") (date_time true) false
          ∷ column (codes "updated_at") (date_time true) false
          ∷ [];
      foreign_keys = foreign_key (codes "scan_id") (codes "scans") (codes "id") true ∷ [];
      primary_key = codes "id";
    }
    ∷ create_index record {
      name = codes "ix_assets_host";
      table = codes "assets";
      column = codes "host";
      unique = false;
    }
    ∷ create_index record {
      name = codes "ix_assets_scan_id";
      table = codes "assets";
      column = codes "scan_id";
      unique = false;
    }
    ∷ []

unfoldable pub create_endpoints : List Op
create_endpoints =
    create_table record {
      name = codes "endpoints";
      columns =
          column (codes "asset_id") uuid false
          ∷ column (codes "method") (string 10) false
          ∷ column (codes "path_template") (string 1000) false
          ∷ column (codes "discovered_by_persona_ids") jsonb false
          ∷ column (codes "discovery_source") (string 30) false
          ∷ column (codes "id") uuid false
          ∷ column (codes "created_at") (date_time true) false
          ∷ column (codes "updated_at") (date_time true) false
          ∷ [];
      foreign_keys = foreign_key (codes "asset_id") (codes "assets") (codes "id") true ∷ [];
      primary_key = codes "id";
    }
    ∷ create_index record {
      name = codes "ix_endpoints_asset_id";
      table = codes "endpoints";
      column = codes "asset_id";
      unique = false;
    }
    ∷ create_index record {
      name = codes "ix_endpoints_path_template";
      table = codes "endpoints";
      column = codes "path_template";
      unique = false;
    }
    ∷ []

unfoldable pub create_parameters : List Op
create_parameters =
    create_table record {
      name = codes "parameters";
      columns =
          column (codes "endpoint_id") uuid false
          ∷ column (codes "name") (string 200) false
          ∷ column (codes "location") (string 20) false
          ∷ column (codes "semantic_label") (string 50) true
          ∷ column (codes "label_confidence") float true
          ∷ column (codes "id") uuid false
          ∷ column (codes "created_at") (date_time true) false
          ∷ column (codes "updated_at") (date_time true) false
          ∷ [];
      foreign_keys = foreign_key (codes "endpoint_id") (codes "endpoints") (codes "id") true ∷ [];
      primary_key = codes "id";
    }
    ∷ create_index record {
      name = codes "ix_parameters_endpoint_id";
      table = codes "parameters";
      column = codes "endpoint_id";
      unique = false;
    }
    ∷ []

unfoldable pub create_transcript_records : List Op
create_transcript_records =
    create_table record {
      name = codes "transcript_records";
      columns =
          column (codes "transcript_id") (string 64) false
          ∷ column (codes "scan_id") uuid false
          ∷ column (codes "persona_id") uuid true
          ∷ column (codes "method") (string 10) false
          ∷ column (codes "url") (string 2000) false
          ∷ column (codes "status_code") integer true
          ∷ column (codes "created_at") (date_time true) false
          ∷ column (codes "updated_at") (date_time true) false
          ∷ [];
      foreign_keys =
          foreign_key (codes "persona_id") (codes "personas") (codes "id") false
          ∷ foreign_key (codes "scan_id") (codes "scans") (codes "id") true
          ∷ [];
      primary_key = codes "transcript_id";
    }
    ∷ create_index record {
      name = codes "ix_transcript_records_scan_id";
      table = codes "transcript_records";
      column = codes "scan_id";
      unique = false;
    }
    ∷ []
