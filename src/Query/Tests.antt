-- ===== src/Query/Tests.antt =====
-- Statements of the builders, and their theorems at concrete inputs.
use vais_lang.Prelude.{String, ◌≡◌, refl, some, [], ◌∷◌}
use vais_lang.Query.{text, placeholder, single, many, absent, equal, in_list, is_null}
use vais_lang.Query.Builders.{
  QueryBuilder, InsertBuilder, UpdateBuilder, DeleteBuilder, create_query_builder, where_and,
  or_where, limit, query_sql,
}
use vais_lang.Query.Numbered.{query_sql-IsNumbered, IsNumbered}

abbrev users : QueryBuilder String
users = limit "10" (
    or_where "role" in_list (many ("a" ∷ "b" ∷ [])) (
      where_and "gone" is_null absent
        (where_and "id" equal (single "7") (create_query_builder "users"))))

select_users : query_sql users ≡ record {
  sql =
      text "SELECT "
      ∷ text "*"
      ∷ text " FROM "
      ∷ text "users"
      ∷ text " WHERE "
      ∷ text "id"
      ∷ text " "
      ∷ text "="
      ∷ text " "
      ∷ placeholder 1
      ∷ text " "
      ∷ text "AND"
      ∷ text " "
      ∷ text "gone"
      ∷ text " IS NULL"
      ∷ text " "
      ∷ text "OR"
      ∷ text " "
      ∷ text "role"
      ∷ text " IN ("
      ∷ placeholder 2
      ∷ text ", "
      ∷ placeholder 3
      ∷ text ")"
      ∷ text " LIMIT "
      ∷ placeholder 4
      ∷ [];
  params = some "7" ∷ some "a" ∷ some "b" ∷ some "10" ∷ [];
}
unfolding query_sql
select_users = refl

query_sql-IsNumbered_example : IsNumbered (query_sql users)
unfolding query_sql
query_sql-IsNumbered_example = query_sql-IsNumbered users (refl, (refl, (refl, tt))) tt

abbrev new_user : InsertBuilder String
new_user = record { table = "users"; row = ("id", "7") ∷ ("name", "x") ∷ []; returned = [] }

abbrev rename : UpdateBuilder String
rename = record { table = "users"; row = ("name", "y") ∷ []; conditions = users.conditions }

abbrev removal : DeleteBuilder String
removal = record { table = "users"; conditions = users.conditions }

abbrev quoted : String → String
quoted s = "'; DROP TABLE users; --"
