-- ===== src/Schema/Tests.antt =====
-- A database that is its own schema, and the column that an aware time is written to.
use security_tool.Prelude.{
  filter, true, false, [], ◌∷◌, ◌++◌, any, all, contains, ends_with, text_beq, find, codes, text_eq,
  if◌then◌else◌, ok, raise, length, All, ◌≡◌, refl,
}
use security_tool.Schema.{
  ColumnType, uuid, integer, Table, column, foreign_key, create_table, drop_column, add_column,
}
use security_tool.Schema.Models.{models}
use security_tool.Schema.Runs.{
  Schema, empty_schema, Database, IsDocumented, table_of, types_of, is_free, refers_well,
  all_distinct, valid_column, valid_type, valid_default, type_of_column, same_type, type_eq,
  is_legal, effect, run_script,
}
use security_tool.Schema.Synced.{up, down, IsMirrored, upgrade-IsMirrored, downgrade-undoes}

abbrev catalog : Database
catalog = record {
  State = Schema;
  run = λ op v. if is_legal op v then ok (effect op v) else raise (codes "refused");
  schema = λ v. v;
}

catalog-IsDocumented : IsDocumented catalog
catalog-IsDocumented op v h = (effect op v, rw h refl, refl)

upgrade-IsMirrored_example :
    (t : Schema) × (run_script catalog up empty_schema ≡ ok t)
    × All (IsMirrored t) models
    × (length t.tables ≡ length models)
upgrade-IsMirrored_example = upgrade-IsMirrored catalog catalog-IsDocumented empty_schema refl

downgrade-undoes_example :
    (t : Schema) × (u : Schema) × (run_script catalog up empty_schema ≡ ok t)
    × (run_script catalog down t ≡ ok u)
    × (u ≡ empty_schema)
    × ((w : Schema) × (run_script catalog up u ≡ ok w) × (w ≡ t))
downgrade-undoes_example = downgrade-undoes catalog catalog-IsDocumented empty_schema refl

abbrev parents : Table
parents = record {
  name = codes "parents";
  columns = column (codes "id") uuid false ∷ [];
  foreign_keys = [];
  primary_key = codes "id";
}

abbrev children : ColumnType → Table
children ty = record {
  name = codes "children";
  columns = column (codes "id") uuid false ∷ column (codes "parent_id") ty false ∷ [];
  foreign_keys = foreign_key (codes "parent_id") (codes "parents") (codes "id") true ∷ [];
  primary_key = codes "id";
}

abbrev with_parents : Schema
with_parents = record { tables = record { table = parents; indexes = [] } ∷ []; types = [] }

-- A foreign key has the type of the key it leads to; a key and a column that is there stay single.
legal_operations :
    (is_legal (create_table (children uuid)) with_parents ≡ true)
    × (is_legal (create_table (children integer)) with_parents ≡ false)
    × (is_legal (drop_column (codes "parents") (codes "id")) with_parents ≡ false)
    × (is_legal (add_column (codes "parents") (column (codes "id") uuid true)) with_parents ≡ false)
    × (is_legal
          (create_table
            (record parents { name = codes "twins"; columns = parents.columns ++ parents.columns }))
          with_parents
        ≡ false)
unfolding is_legal table_of types_of any all contains is_free refers_well all_distinct valid_column
    valid_type valid_default type_of_column same_type type_eq ends_with text_beq find filter
legal_operations = (refl, refl, refl, refl, refl)
