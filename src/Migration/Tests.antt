-- ===== src/Migration/Tests.antt =====
-- Migrations at concrete inputs.
use vais_lang.Prelude.{
  ◌≡◌, refl, some, none, [], ◌∷◌, true, false, filter, str_eq, string_eq, if◌then◌else◌, ◌⊎◌,
}
use vais_lang.Prelude.JsMap
use vais_lang.Migration.{
  Columns, Migration, MigrationColumnDef, quoted, generate_migration_sql, create_table, drop_table,
  column_ddl,
}
use vais_lang.Migration.Diff.{CompiledSchema, col_record, diff_up, diff_down}
use vais_lang.Migration.Database.{Database, execute_all}
use vais_lang.Migration.Effects.{diff_up-columns, first_of}
use vais_lang.Migration.Runner.{Runner, migrate, rollback, pending, rollback-migrate}

abbrev id_column : MigrationColumnDef
id_column = record {
  sql_type = "INTEGER";
  primary_key = true;
  nullable = false;
  default_value = none;
  unique = false;
  references = none;
}

abbrev role_column : MigrationColumnDef
role_column = record {
  sql_type = "TEXT";
  primary_key = false;
  nullable = false;
  default_value = some (quoted "user");
  unique = true;
  references = some (record { table = "roles"; column = none });
}

role_ddl :
    column_ddl "role" role_column ≡ "role TEXT NOT NULL UNIQUE DEFAULT 'user' REFERENCES roles(id)"
unfolding column_ddl
role_ddl = refl

abbrev schema_one : CompiledSchema
schema_one = record { name = "users"; columns = ("id", id_column) ∷ ("gone", role_column) ∷ [] }

abbrev schema_two : CompiledSchema
schema_two = record { name = "users"; columns = ("id", id_column) ∷ ("role", role_column) ∷ [] }

abbrev database : Database
database = ("users", col_record schema_one.columns) ∷ ("roles", []) ∷ []

database_users : JsMap.get "users" database ≡ some (col_record schema_one.columns)
unfolding JsMap.get
database_users = refl

diff_up-columns_example :
    let before = col_record schema_one.columns in
    let wanted = col_record schema_two.columns in
    let up = execute_all (diff_up (some schema_one) schema_two) database in
    let down = execute_all (diff_down (some schema_one) schema_two) up in
    (after : Columns) × (back : Columns) × (JsMap.get "users" up ≡ some after)
    × (JsMap.get "users" down ≡ some back)
    × (JsMap.get "role" after ≡ (
        if JsMap.has "role" wanted
        then first_of (JsMap.get "role" before) (JsMap.get "role" wanted)
        else none))
    × (JsMap.get "role" back ≡ JsMap.get "role" before)
    × ((str_eq "users" "roles" ≡ true)
        ⊎ ((JsMap.get "roles" up ≡ JsMap.get "roles" database)
            × (JsMap.get "roles" down ≡ JsMap.get "roles" database)))
diff_up-columns_example =
    diff_up-columns schema_one schema_two database "role" "roles" refl database_users

abbrev users_migration : Migration
users_migration = record {
  name = "users";
  version = "001";
  up = create_table "users" (("id", id_column) ∷ []) ∷ [];
  down = drop_table "users" ∷ [];
}

abbrev roles_migration : Migration
roles_migration = record {
  name = "roles";
  version = "001";
  up = create_table "roles" (("id", id_column) ∷ []) ∷ [];
  down = drop_table "roles" ∷ [];
}

abbrev two : Runner
two = record { migrations = users_migration ∷ roles_migration ∷ []; applied = [] }

rollback-migrate_example :
    let s = rollback (migrate two).0 in
    (s.1 ≡ some (generate_migration_sql roles_migration))
    × (pending s.0 ≡ filter (λ n. str_eq "001" n.version) two.migrations)
rollback-migrate_example = rollback-migrate two roles_migration refl
