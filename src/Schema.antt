-- ===== src/Schema.antt =====
-- packages/db: the schema that the migrations build, and the one that the models declare. The
-- operations of Alembic are data; a database that runs them is a parameter of the theorems.
pub mod Accounts
pub mod Scans
pub mod Surfaces
pub mod Results
pub mod Initial
pub mod Recon
pub mod CustomerModels
pub mod ScanModels
pub mod ResultModels
pub mod Models
pub mod Runs
pub mod Synced
mod Tests
use security_tool.Prelude.{
  ℕ, Bool, true, false, List, [], ◌∷◌, ◌++◌, Option, none, some, Text, codes,
}

-- The types of columns: a text by its greatest length, a time by whether it has a zone, an
-- enumeration by the name of its type and its labels.
pub data ColumnType : Type 0 where
  uuid large_binary boolean integer float jsonb : ColumnType
  string : ℕ → ColumnType
  date_time : Bool → ColumnType
  enum_type : Text → List Text → ColumnType

pub record Column : Type 0 where
  pub name : Text
  pub column_type : ColumnType
  pub nullable : Bool
  pub server_default : Option Text

pub record ForeignKey : Type 0 where
  pub column : Text
  pub table : Text
  pub target : Text
  pub on_delete_cascade : Bool

pub record Table : Type 0 where
  pub name : Text
  pub columns : List Column
  pub foreign_keys : List ForeignKey
  pub primary_key : Text

pub record Index : Type 0 where
  pub name : Text
  pub table : Text
  pub column : Text
  pub unique : Bool

-- The operations that the migrations use.
pub data Op : Type 0 where
  create_table : Table → Op
  create_index : Index → Op
  drop_index : Text → Text → Op
  drop_table : Text → Op
  add_column : Text → Column → Op
  drop_column : Text → Text → Op
  drop_enum : Text → Op

abbrev pub column : Text → ColumnType → Bool → Column
column name column_type nullable = record {
  name = name;
  column_type = column_type;
  nullable = nullable;
  server_default = none;
}

abbrev pub with_default : Text → Column → Column
with_default text c = record c { server_default = some text }

abbrev pub foreign_key : Text → Text → Text → Bool → ForeignKey
foreign_key column table target cascade = record {
  column = column;
  table = table;
  target = target;
  on_delete_cascade = cascade;
}

-- A column of a model: what it refers to, and whether its index, if any, is unique.
pub record MappedColumn : Type 0 where
  pub name : Text
  pub column_type : ColumnType
  pub nullable : Bool
  pub reference : Option (Text × Text × Bool)
  pub index : Option Bool
  pub is_key : Bool

pub record Model : Type 0 where
  pub tablename : Text
  pub columns : List MappedColumn

abbrev pub mapped : Text → ColumnType → Bool → MappedColumn
mapped name column_type nullable = record {
  name = name;
  column_type = column_type;
  nullable = nullable;
  reference = none;
  index = none;
  is_key = false;
}

abbrev pub referring : Text → Text → Bool → MappedColumn → MappedColumn
referring table target cascade c = record c { reference = some (table, target, cascade) }

abbrev pub indexed : Bool → MappedColumn → MappedColumn
indexed unique c = record c { index = some unique }

abbrev pub as_key : MappedColumn → MappedColumn
as_key c = record c { is_key = true }

unfoldable pub uuid_primary_key_mixin : List MappedColumn
uuid_primary_key_mixin = as_key (mapped (codes "id") uuid false) ∷ []

unfoldable pub timestamp_mixin : List MappedColumn
timestamp_mixin =
    mapped (codes "created_at") (date_time true) false
    ∷ mapped (codes "updated_at") (date_time true) false
    ∷ []
