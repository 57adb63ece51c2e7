-- ===== src/Query/Builders.antt =====
-- The four builders and their `toSQL`.
use vais_lang.Prelude.{ℕ, suc, ◌+◌, String, Option, none, some, List, [], ◌∷◌, ◌++◌, map}
use vais_lang.Prelude.JsMap.{JsMap}
use vais_lang.Query.{
  Piece, text, placeholder, ComparisonOperator, ConditionConnector, and, or, Argument, Condition,
  SqlResult, Numbering, comma, params_of, placeholders, resolve_op, resolve_pending,
  resolve_conditions, connect,
}

pub data JoinType : Type 0 where
  inner left right : JoinType

pub data Direction : Type 0 where
  asc desc : Direction

pub record Join : Type 0 where
  pub join_type : JoinType
  pub table : String
  pub condition : String

pub record QueryBuilder (V : Type 0) : Type 0 where
  pub table : String
  pub columns : List String
  pub conditions : List (Condition V)
  pub orders : List (String × Direction)
  pub row_limit : Option V
  pub row_offset : Option V
  pub joins : List Join
  pub groups : List String
  pub having_conditions : List (Condition V)

pub record InsertBuilder (V : Type 0) : Type 0 where
  pub table : String
  pub row : JsMap String V
  pub returned : List String

pub record UpdateBuilder (V : Type 0) : Type 0 where
  pub table : String
  pub row : JsMap String V
  pub conditions : List (Condition V)

pub record DeleteBuilder (V : Type 0) : Type 0 where
  pub table : String
  pub conditions : List (Condition V)

abbrev pub join_text : JoinType → String
join_text inner = "INNER"
join_text left = "LEFT"
join_text right = "RIGHT"

abbrev pub direction_text : Direction → String
direction_text asc = "ASC"
direction_text desc = "DESC"

abbrev pub columns_text : List String → List Piece
columns_text [] = text "*" ∷ []
columns_text (c ∷ cs) = comma (c ∷ cs)

abbrev pub joins_text : List Join → List Piece
joins_text [] = []
joins_text (j ∷ js) =
    text " "
    ∷ text (join_text j.join_type)
    ∷ text " JOIN "
    ∷ text j.table
    ∷ text " ON "
    ∷ text j.condition
    ∷ joins_text js

abbrev pub clause : String → List String → List Piece
clause keyword [] = []
clause keyword (c ∷ cs) = text keyword ∷ comma (c ∷ cs)

abbrev pub order_list : List (String × Direction) → List Piece
order_list [] = []
order_list ((c, d) ∷ []) = text c ∷ text " " ∷ text (direction_text d) ∷ []
order_list ((c, d) ∷ os) = text c ∷ text " " ∷ text (direction_text d) ∷ text ", " ∷ order_list os

abbrev pub order_text : List (String × Direction) → List Piece
order_text [] = []
order_text (o ∷ os) = text " ORDER BY " ∷ order_list (o ∷ os)

module _ {V : Type 0} where
  abbrev pub create_query_builder : String → QueryBuilder V
  create_query_builder table = record {
    table = table;
    columns = [];
    conditions = [];
    orders = [];
    row_limit = none;
    row_offset = none;
    joins = [];
    groups = [];
    having_conditions = [];
  }

  abbrev pub select : List String → QueryBuilder V → QueryBuilder V
  select columns b = record b { columns = columns }

  abbrev pub add_condition :
      ConditionConnector
      → String
      → ComparisonOperator
      → Argument V
      → QueryBuilder V
      → QueryBuilder V
  add_condition connector column op value b = record b {
    conditions =
        b.conditions
        ++ record { connector = connector; column = column; op = op; params = params_of value }
          ∷ [];
  }

  abbrev pub where_and : String → ComparisonOperator → Argument V → QueryBuilder V → QueryBuilder V
  where_and column op value b = add_condition and column op value b

  abbrev pub or_where : String → ComparisonOperator → Argument V → QueryBuilder V → QueryBuilder V
  or_where column op value b = add_condition or column op value b

  abbrev pub join : String → String → JoinType → QueryBuilder V → QueryBuilder V
  join table condition join_type b = record b {
    joins = b.joins ++ record { join_type = join_type; table = table; condition = condition } ∷ [];
  }

  abbrev pub group_by : List String → QueryBuilder V → QueryBuilder V
  group_by columns b = record b { groups = columns }

  abbrev pub having : String → ComparisonOperator → Argument V → QueryBuilder V → QueryBuilder V
  having column op value b = record b {
    having_conditions =
        b.having_conditions
        ++ record { connector = and; column = column; op = op; params = params_of value } ∷ [];
  }

  abbrev pub order_by : String → Direction → QueryBuilder V → QueryBuilder V
  order_by column direction b = record b { orders = b.orders ++ (column, direction) ∷ [] }

  abbrev pub limit : V → QueryBuilder V → QueryBuilder V
  limit n b = record b { row_limit = some n }

  abbrev pub offset : V → QueryBuilder V → QueryBuilder V
  offset n b = record b { row_offset = some n }

  abbrev pub numbering : ℕ → List (Option V) → Numbering V
  numbering i params = record { param_index = i; all_params = params }

  -- A WHERE or HAVING clause, where there is a condition.
  unfoldable pub conditions_clause :
      (Condition V → Numbering V → List Piece × Numbering V)
      → String
      → List (Condition V)
      → Numbering V
      → List Piece × Numbering V
  unfolding resolve_conditions connect
  conditions_clause resolve keyword [] s = ([], s)
  conditions_clause resolve keyword (c ∷ cs) s =
      let (fragments, t) = resolve_conditions resolve (c ∷ cs) s in
      (text keyword ∷ connect (c ∷ cs) fragments, t)

  -- A LIMIT or OFFSET clause, where the number is set.
  unfoldable pub number_clause : String → Option V → Numbering V → List Piece × Numbering V
  number_clause keyword none s = ([], s)
  number_clause keyword (some n) s = (
    text keyword ∷ placeholder s.param_index ∷ [],
    record { param_index = s.param_index + 1; all_params = s.all_params ++ some n ∷ [] },
  )

  unfoldable pub query_sql : QueryBuilder V → SqlResult V
  unfolding conditions_clause number_clause resolve_pending
  query_sql b =
      let (wheres, s) = conditions_clause resolve_pending " WHERE " b.conditions (numbering 1 []) in
      let (havings, t) = conditions_clause resolve_pending " HAVING " b.having_conditions s in
      let (limits, u) = number_clause " LIMIT " b.row_limit t in
      let (offsets, v) = number_clause " OFFSET " b.row_offset u in
      record {
        sql =
            text "SELECT " ∷ columns_text b.columns
            ++ (text " FROM " ∷ text b.table ∷ joins_text b.joins
                ++ (wheres
                    ++ (clause " GROUP BY " b.groups
                        ++ (havings ++ (order_text b.orders ++ (limits ++ offsets))))));
        params = v.all_params;
      }

  abbrev pub values_of : JsMap String V → List V
  values_of row = map (λ entry. entry.1) row

  abbrev pub keys_of : JsMap String V → List String
  keys_of row = map (λ entry. entry.0) row

  -- `toSQL` of an INSERT after its guard.
  abbrev pub insert_row : InsertBuilder V → SqlResult V
  insert_row b = record {
    sql =
        text "INSERT INTO " ∷ text b.table ∷ text " (" ∷ comma (keys_of b.row)
        ++ (text ") VALUES (" ∷ placeholders 1 (values_of b.row)
            ++ (text ")" ∷ clause " RETURNING " b.returned));
    params = map some (values_of b.row);
  }

  -- `none` where there is no value, and the code throws.
  unfoldable pub insert_sql : InsertBuilder V → Option (SqlResult V)
  insert_sql b = elim b.row [ [] ↦ none | entry ∷ entries ↦ some (insert_row b) ]

  -- The assignments of an UPDATE, from the one numbered i on.
  abbrev pub set_clauses : ℕ → JsMap String V → List Piece
  set_clauses i [] = []
  set_clauses i ((k, v) ∷ []) = text k ∷ text " = " ∷ placeholder i ∷ []
  set_clauses i ((k, v) ∷ row) =
      text k ∷ text " = " ∷ placeholder i ∷ text ", " ∷ set_clauses (suc i) row

  abbrev pub count_keys : ℕ → JsMap String V → ℕ
  count_keys i [] = i
  count_keys i (entry ∷ row) = count_keys (suc i) row

  -- `toSQL` of an UPDATE after its guard.
  unfoldable pub update_row : UpdateBuilder V → SqlResult V
  unfolding conditions_clause resolve_op
  update_row b =
      let (wheres, s) =
        conditions_clause resolve_op " WHERE " b.conditions
          (numbering (count_keys 1 b.row) (map some (values_of b.row))) in
      record {
        sql = text "UPDATE " ∷ text b.table ∷ text " SET " ∷ set_clauses 1 b.row ++ wheres;
        params = s.all_params;
      }

  -- `none` where there is nothing to set, and the code throws.
  unfoldable pub update_sql : UpdateBuilder V → Option (SqlResult V)
  unfolding update_row
  update_sql b = elim b.row [ [] ↦ none | entry ∷ entries ↦ some (update_row b) ]

  unfoldable pub delete_sql : DeleteBuilder V → SqlResult V
  unfolding conditions_clause resolve_op
  delete_sql b =
      let (wheres, s) = conditions_clause resolve_op " WHERE " b.conditions (numbering 1 []) in
      record { sql = text "DELETE FROM " ∷ text b.table ∷ wheres; params = s.all_params }
