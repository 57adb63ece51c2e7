-- ===== src/Migration.antt =====
-- db/src/migration.ts: migrations as the calls that their callbacks make on a builder, the statements
-- of these calls, and the runner that applies migrations and rolls them back.
pub mod Diff
pub mod Database
pub mod Effects
pub mod Runner
mod Tests
use Prim.Native.String
use vais_lang.Prelude.{
  ◌&◌, String, Option, none, some, List, [], ◌∷◌, ◌++◌, map, Bool, true, false, ◌&&◌, not,
  if◌then◌else◌, or_else, str_eq,
}
use vais_lang.Prelude.JsMap.{JsMap}

-- A default value: a text, or the text that `String` gives for any other value.
pub data Default : Type 0 where
  quoted plain : String → Default

pub record Reference : Type 0 where
  pub table : String
  pub column : Option String

-- A missing flag is false.
pub record MigrationColumnDef : Type 0 where
  pub sql_type : String
  pub primary_key : Bool
  pub nullable : Bool
  pub default_value : Option Default
  pub unique : Bool
  pub references : Option Reference

abbrev pub Columns : Type 0
Columns = JsMap String MigrationColumnDef

-- A call of the builder.
pub data Operation : Type 0 where
  create_table : String → Columns → Operation
  drop_table : String → Operation
  add_column : String → String → MigrationColumnDef → Operation
  drop_column : String → String → Operation
  rename_column : String → String → String → Operation

-- `texts.join(separator)`
abbrev pub join : String → List String → String
join separator [] = ""
join separator (t ∷ []) = t
join separator (t ∷ ts) = t & separator & join separator ts

abbrev pub when : Bool → String → List String
when condition part = if condition then part ∷ [] else []

abbrev default_text : Default → String
default_text (quoted s) = if str_eq s "CURRENT_TIMESTAMP" then s else "'" & s & "'"
default_text (plain s) = s

abbrev default_part : Option Default → List String
default_part none = []
default_part (some d) = ("DEFAULT " & default_text d) ∷ []

-- `${table}(${refCol})`
abbrev target : Reference → String
target r = r.table & "(" & or_else r.column "id" & ")"

abbrev reference_part : Option Reference → List String
reference_part none = []
reference_part (some r) = ("REFERENCES " & target r) ∷ []

unfoldable pub column_ddl : String → MigrationColumnDef → String
column_ddl name def = join " " (
    name ∷ def.sql_type ∷ when def.primary_key "PRIMARY KEY"
    ++ (when (not def.nullable && not def.primary_key) "NOT NULL"
        ++ (when (def.unique && not def.primary_key) "UNIQUE"
            ++ (default_part def.default_value ++ reference_part def.references))))

abbrev fk_clauses : Columns → List String
fk_clauses [] = []
fk_clauses ((name, def) ∷ columns) = elim def.references [
  | none ↦ fk_clauses columns
  | some r ↦ ("  FOREIGN KEY (" & name & ") REFERENCES " & target r) ∷ fk_clauses columns
]

unfoldable pub statement : Operation → String
unfolding column_ddl
statement (create_table table columns) =
    "CREATE TABLE IF NOT EXISTS "
    & table
    & " (\n"
    & join ",\n" (map (λ entry. "  " & column_ddl entry.0 entry.1) columns ++ fk_clauses columns)
    & "\n);"
statement (drop_table table) = "DROP TABLE IF EXISTS " & table & ";"
statement (add_column table column def) =
    "ALTER TABLE " & table & " ADD COLUMN " & column_ddl column def & ";"
statement (drop_column table column) = "ALTER TABLE " & table & " DROP COLUMN " & column & ";"
statement (rename_column table old_name new_name) =
    "ALTER TABLE " & table & " RENAME COLUMN " & old_name & " TO " & new_name & ";"

-- `up` and `down` are the calls that the callbacks make.
pub record Migration : Type 0 where
  pub name : String
  pub version : String
  pub up : List Operation
  pub down : List Operation

pub record MigrationSql : Type 0 where
  pub up : String
  pub down : String
  pub version : String

-- `now` is the time of the call as an ISO text.
unfoldable pub create_migration :
    String → String → List Operation → List Operation → Option String → Migration
create_migration now name up down version = record {
  name = name;
  version = or_else version now;
  up = up;
  down = down;
}

unfoldable pub generate_migration_sql : Migration → MigrationSql
unfolding statement
generate_migration_sql m = record {
  up = join "\n" (map statement m.up);
  down = join "\n" (map statement m.down);
  version = m.version;
}
