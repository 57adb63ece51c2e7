-- ===== src/Migration/Diff.antt =====
-- `diffSchemas`: the migration from one schema of a table to another.
use Prim.Native.String
use vais_lang.Prelude.{
  String, Option, none, some, List, [], ◌∷◌, ◌++◌, if◌then◌else◌, str_eq, string_eq,
}
use vais_lang.Prelude.JsMap
use vais_lang.Prelude.JsMap.{JsMap}
use vais_lang.Migration.{
  Columns, MigrationColumnDef, Migration, Operation, create_table, drop_table, add_column,
  drop_column,
}

-- The columns of a table in order, already in the form of `toMigrationColDef`.
pub record CompiledSchema : Type 0 where
  pub name : String
  pub columns : List (String × MigrationColumnDef)

-- `Object.fromEntries` and `new Map` of entries: the last of a name wins.
abbrev pub collect : Columns → List (String × MigrationColumnDef) → Columns
collect m [] = m
collect m ((k, def) ∷ entries) = collect (JsMap.set k def m) entries

abbrev pub col_record : List (String × MigrationColumnDef) → Columns
col_record cols = collect [] cols

-- The columns of the second list that the first map does not have, each added.
unfoldable pub add_missing : String → Columns → Columns → List Operation
add_missing table present [] = []
add_missing table present ((k, def) ∷ wanted) =
    let rest = add_missing table present wanted in
    if JsMap.has k present then rest else add_column table k def ∷ rest

-- The columns of the second list that the first map does not have, each dropped.
unfoldable pub drop_missing : String → Columns → Columns → List Operation
drop_missing table wanted [] = []
drop_missing table wanted ((k, def) ∷ present) =
    let rest = drop_missing table wanted present in
    if JsMap.has k wanted then rest else drop_column table k ∷ rest

unfoldable pub diff_up : Option CompiledSchema → CompiledSchema → List Operation
unfolding add_missing drop_missing
diff_up none new_schema = create_table new_schema.name (col_record new_schema.columns) ∷ []
diff_up (some old_schema) new_schema =
    let old_cols = col_record old_schema.columns in
    let new_cols = col_record new_schema.columns in
    if str_eq old_schema.name new_schema.name
    then add_missing new_schema.name old_cols new_cols
      ++ drop_missing new_schema.name new_cols old_cols
    else drop_table old_schema.name ∷ create_table new_schema.name new_cols ∷ []

unfoldable pub diff_down : Option CompiledSchema → CompiledSchema → List Operation
unfolding add_missing drop_missing
diff_down none new_schema = drop_table new_schema.name ∷ []
diff_down (some old_schema) new_schema =
    let old_cols = col_record old_schema.columns in
    let new_cols = col_record new_schema.columns in
    if str_eq old_schema.name new_schema.name
    then drop_missing old_schema.name old_cols new_cols
      ++ add_missing old_schema.name new_cols old_cols
    else drop_table new_schema.name ∷ create_table old_schema.name old_cols ∷ []

-- `stamp` is the text of `Date.now()`, `now` the time as an ISO text.
unfoldable pub diff_schemas : String → String → Option CompiledSchema → CompiledSchema → Migration
unfolding diff_up diff_down
diff_schemas stamp now old_schema new_schema = record {
  name = String.◌++◌ "auto_" (String.◌++◌ new_schema.name (String.◌++◌ "_" stamp));
  version = now;
  up = diff_up old_schema new_schema;
  down = diff_down old_schema new_schema;
}
