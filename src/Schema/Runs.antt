-- ===== src/Schema/Runs.antt =====
-- What a database that runs the operations of Alembic is documented to do.
use security_tool.Prelude.{
  Bool, true, false, not, ◌&&◌, ◌||◌, leb, nat_beq, length, map, ends_with, codes, text_beq, List,
  [], ◌∷◌, ◌++◌, Option, none, some, is_some, Text, ◌==◌, text_eq, any, all, find, filter, contains,
  if◌then◌else◌, Outcome, ok, ◌>>=◌, ◌≡◌, refl, sym, subst,
}
use security_tool.Schema.{
  ColumnType, uuid, large_binary, boolean, integer, float, jsonb, string, date_time, enum_type,
  Column, ForeignKey, Table, Index, Op, create_table, create_index, drop_index, drop_table,
  add_column, drop_column, drop_enum,
}

pub record TableState : Type 0 where
  pub table : Table
  pub indexes : List Index

-- The tables and the types of enumerations.
pub record Schema : Type 0 where
  pub tables : List TableState
  pub types : List Text

abbrev pub empty_schema : Schema
empty_schema = record { tables = []; types = [] }

unfoldable pub table_of : Text → Schema → Option TableState
unfolding find
table_of n v = find (λ (t : TableState). t.table.name == n) v.tables

abbrev has_column : Text → Table → Bool
has_column c t = any (λ (k : Column). k.name == c) t.columns

-- The name of the type of an enumeration.
abbrev enum_names : ColumnType → List Text
enum_names (enum_type n labels) = n ∷ []
enum_names _ = []

-- The types that a table needs, each once.
unfoldable pub types_of : List Column → List Text
unfolding contains
types_of [] = []
types_of (c ∷ columns) =
    let rest = types_of columns in
    filter (λ n. not (contains rest n)) (enum_names c.column_type) ++ rest

unfoldable pub on_table : Text → (TableState → TableState) → List TableState → List TableState
on_table n f [] = []
on_table n f (t ∷ ts) = (if t.table.name == n then f t else t) ∷ on_table n f ts

abbrev with_index : Index → TableState → TableState
with_index i t = record t { indexes = t.indexes ++ i ∷ [] }

abbrev with_columns : (List Column → List Column) → TableState → TableState
with_columns f t = record t { table = record t.table { columns = f t.table.columns } }

-- What an operation that is legal does to the schema. Indexes go with their table, and types stay.
unfoldable pub effect : Op → Schema → Schema
unfolding filter types_of on_table
effect (create_table t) v = record {
  tables = v.tables ++ record { table = t; indexes = [] } ∷ [];
  types = v.types ++ types_of t.columns;
}
effect (create_index i) v = record v { tables = on_table i.table (with_index i) v.tables }
effect (drop_index i n) v = record v {
  tables =
      on_table n (λ t. record t { indexes = filter (λ (k : Index). not (k.name == i)) t.indexes })
        v.tables;
}
effect (drop_table n) v = record v {
  tables = filter (λ (t : TableState). not (t.table.name == n)) v.tables;
}
effect (add_column n c) v = record v {
  tables = on_table n (with_columns (λ cs. cs ++ c ∷ [])) v.tables;
}
effect (drop_column n c) v = record v {
  tables = on_table n (with_columns (filter (λ (k : Column). not (k.name == c)))) v.tables;
}
effect (drop_enum n) v = record v { types = filter (λ e. not (e == n)) v.types }

abbrev satisfies : (TableState → Bool) → Option TableState → Bool
satisfies p none = false
satisfies p (some t) = p t

unfoldable pub type_eq : ColumnType → ColumnType → Bool
unfolding text_beq
type_eq uuid uuid = true
type_eq large_binary large_binary = true
type_eq boolean boolean = true
type_eq integer integer = true
type_eq float float = true
type_eq jsonb jsonb = true
type_eq (string n) (string m) = nat_beq n m
type_eq (date_time b) (date_time c) = if b then c else not c
type_eq (enum_type n labels) (enum_type m labels') = n == m
type_eq a b = false

-- A name: not empty, not cut, and none that the keys of tables or their rows' types are given.
abbrev valid_name : Text → Bool
valid_name n = leb 1 (length n) && (leb (length n) 63 && not (ends_with n (codes "_pkey")))

abbrev system_columns : List Text
system_columns =
    codes "tableoid" ∷ codes "xmin" ∷ codes "cmin" ∷ codes "xmax" ∷ codes "cmax" ∷ codes "ctid" ∷ []

unfoldable pub all_distinct : List Text → Bool
unfolding contains
all_distinct [] = true
all_distinct (x ∷ xs) = not (contains xs x) && all_distinct xs

-- A text may be 10485760 characters long; an enumeration's labels are distinct.
unfoldable pub valid_type : ColumnType → Bool
unfolding all_distinct all ends_with
valid_type (string n) = leb 1 n && leb n 10485760
valid_type (enum_type n labels) =
    valid_name n && (all_distinct labels && all (λ l. leb 1 (length l) && leb (length l) 63) labels)
valid_type _ = true

-- The defaults that are known to be values of the column's type.
unfoldable pub valid_default : ColumnType → Option Text → Bool
unfolding text_beq
valid_default ty none = true
valid_default jsonb (some d) = d == codes "[]"
valid_default (string n) (some d) = leb (length d) n
valid_default ty (some d) = false

unfoldable pub valid_column : Column → Bool
unfolding contains valid_type valid_default ends_with
valid_column c =
    valid_name c.name
    && (not (contains system_columns c.name)
        && (valid_type c.column_type && valid_default c.column_type c.server_default))

-- The type of a column that is there once.
unfoldable pub type_of_column : Text → List Column → Option ColumnType
type_of_column n [] = none
type_of_column n (c ∷ cs) = if c.name == n then some c.column_type else type_of_column n cs

unfoldable pub same_type : Option ColumnType → Option ColumnType → Bool
unfolding type_eq
same_type (some a) (some b) = type_eq a b
same_type a b = false

-- A foreign key leads to the key of another table, whose type the column has.
unfoldable pub refers_well : Schema → Table → ForeignKey → Bool
unfolding same_type type_of_column table_of text_beq
refers_well v t k =
    satisfies
      (λ u.
        u.table.primary_key == k.target
        && same_type (type_of_column k.column t.columns) (type_of_column k.target u.table.columns))
      (table_of k.table v)

abbrev refers_to : Text → TableState → Bool
refers_to n t = any (λ (k : ForeignKey). k.table == n) t.table.foreign_keys

abbrev index_named : Text → TableState → Bool
index_named i t = any (λ (k : Index). k.name == i) t.indexes

-- An index, a foreign key or the key of the table is on the column.
abbrev column_in_use : Text → TableState → Bool
column_in_use c t =
    t.table.primary_key == c
    || (any (λ (k : Index). k.column == c) t.indexes
        || any (λ (k : ForeignKey). k.column == c) t.table.foreign_keys)

-- Tables, indexes and types share their names: the type of a table's rows has the table's.
unfoldable pub is_free : Text → Schema → Bool
unfolding table_of any contains ends_with
is_free n v =
    valid_name n
    && (not (is_some (table_of n v))
        && (not (any (index_named n) v.tables) && not (contains v.types n)))

-- The key of a table is one of its columns and is not null.
abbrev is_key : Text → Column → Bool
is_key k c = c.name == k && not c.nullable

abbrev is_none_type : List Text → Bool
is_none_type [] = true
is_none_type (n ∷ ns) = false

-- When an operation is certain not to be refused by PostgreSQL: names are free or known and columns
-- have distinct ones, references lead to the key of a table by a column of its type, nothing refers
-- to a table that goes or is on a column that goes, a new column of a table with rows has a default
-- or may be null, and the types of a new table are new. A type is dropped whether it exists or not,
-- if no column has it.
unfoldable pub is_legal : Op → Schema → Bool
unfolding table_of types_of any all contains is_free refers_well all_distinct valid_column
is_legal (create_table t) v =
    is_free t.name v
    && (all valid_column t.columns
        && (leb (length t.columns) 250
            && (all_distinct (map (λ (c : Column). c.name) t.columns)
                && (all (refers_well v t) t.foreign_keys
                    && (any (is_key t.primary_key) t.columns
                        && all (λ n. is_free n v && not (n == t.name)) (types_of t.columns))))))
is_legal (create_index i) v =
    satisfies (λ t. has_column i.column t.table) (table_of i.table v) && is_free i.name v
is_legal (drop_index i n) v = satisfies (index_named i) (table_of n v)
is_legal (drop_table n) v =
    is_some (table_of n v)
    && not (any (λ (t : TableState). not (t.table.name == n) && refers_to n t) v.tables)
is_legal (add_column n c) v =
    satisfies
      (λ t.
        not (has_column c.name t.table)
        && (valid_column c
            && (leb (length t.table.columns) 250
                && (is_none_type (enum_names c.column_type)
                    && (c.nullable || is_some c.server_default)))))
      (table_of n v)
is_legal (drop_column n c) v =
    satisfies (λ t. has_column c t.table && not (column_in_use c t)) (table_of n v)
is_legal (drop_enum n) v =
    not (any (λ (t : TableState). contains (types_of t.table.columns) n) v.tables)

-- A database: its states, what it does at an operation, and the schema of a state.
pub record Database : Type 1 where
  pub State : Type 0
  pub run : Op → State → Outcome Text State
  pub schema : State → Schema

-- It does what PostgreSQL is documented to do where the operation is legal.
abbrev pub IsDocumented : Database → Type 0
IsDocumented db =
    (op : Op) (s : db.State)
    → is_legal op (db.schema s) ≡ true
    → (t : db.State) × (db.run op s ≡ ok t) × (db.schema t ≡ effect op (db.schema s))

unfoldable pub effects : List Op → Schema → Schema
unfolding effect
effects [] v = v
effects (op ∷ ops) v = effects ops (effect op v)

unfoldable pub all_legal : List Op → Schema → Bool
unfolding is_legal effect
all_legal [] v = true
all_legal (op ∷ ops) v = is_legal op v && all_legal ops (effect op v)

-- A script: its operations one after the other.
unfoldable pub run_script : (db : Database) → List Op → db.State → Outcome Text db.State
run_script db [] s = ok s
run_script db (op ∷ ops) s = db.run op s >>= run_script db ops

and_true : {a b : Bool} → (a && b) ≡ true → (a ≡ true) × (b ≡ true)
and_true {a = true} {b = true} h = (refl, refl)
and_true {a = true} {b = false} h = cc
and_true {a = false} h = cc

pub run_script-ok :
    (db : Database)
    → IsDocumented db
    → (ops : List Op) (s : db.State) (v : Schema) → db.schema s ≡ v
    → all_legal ops v ≡ true
    → (t : db.State) × (run_script db ops s ≡ ok t) × (db.schema t ≡ effects ops v)
unfolding run_script effects all_legal
run_script-ok db doc [] s v e h = (s, refl, e)
run_script-ok db doc (op ∷ ops) s v e h =
    let (legal, later) = and_true h in
    let (t, ran, shown) = doc op s (subst (λ w. is_legal op w ≡ true) (sym e) legal) in
    let (u, rest, shown') =
      run_script-ok db doc ops t (effect op v) (subst (λ w. db.schema t ≡ effect op w) e shown)
        later in
    (u, rw ran rest, shown')
