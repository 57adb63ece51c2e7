-- ===== src/Query/Natural.antt =====
-- The text of a statement does not depend on the values, which are its parameters as they are.
use vais_lang.Prelude.{
  head?, inl, inr, Bool-cases, ap, sym, ℕ, suc, ◌+◌, ◌≡◌, refl, String, Option, none, some, List,
  [], ◌∷◌, ◌++◌, map,
}
use mathlib.Core.List.{map-append}
use vais_lang.Query.{
  connector_text, op_text, text, placeholder, resolve_single, equal, not_equal, less, greater,
  less_equal, greater_equal, like, in_list, is_null, is_not_null, ComparisonOperator, Piece,
  Condition, SqlResult, Numbering, placeholders, count_from, matches_pending, resolve_as,
  resolve_op, resolve_pending, resolve_conditions, connect_rest,
}
use vais_lang.Query.Builders.{QueryBuilder, numbering, conditions_clause, number_clause, query_sql}

abbrev pub map_option : {A B : Type 0} → (A → B) → Option A → Option B
map_option f none = none
map_option f (some a) = some (f a)

module _ {V W : Type 0} (f : V → W) where
  abbrev pub map_condition : Condition V → Condition W
  map_condition c = record {
    connector = c.connector;
    column = c.column;
    op = c.op;
    params = map f c.params;
  }

  abbrev map_numbering : Numbering V → Numbering W
  map_numbering s = record {
    param_index = s.param_index;
    all_params = map (map_option f) s.all_params;
  }

  abbrev pub map_result : SqlResult V → SqlResult W
  map_result r = record { sql = r.sql; params = map (map_option f) r.params }

  -- The same builder with other values.
  abbrev pub map_query : QueryBuilder V → QueryBuilder W
  map_query b = record {
    table = b.table;
    columns = b.columns;
    conditions = map map_condition b.conditions;
    orders = b.orders;
    row_limit = map_option f b.row_limit;
    row_offset = map_option f b.row_offset;
    joins = b.joins;
    groups = b.groups;
    having_conditions = map map_condition b.having_conditions;
  }

  placeholders-map : (i : ℕ) (vs : List V) → placeholders i (map f vs) ≡ placeholders i vs
  placeholders-map i [] = refl
  placeholders-map i (v ∷ []) = refl
  placeholders-map i (v ∷ w ∷ vs) =
      ap (λ l. placeholder i ∷ text ", " ∷ l) (placeholders-map (suc i) (w ∷ vs))

  count_from-map : (i : ℕ) (vs : List V) → count_from i (map f vs) ≡ count_from i vs
  count_from-map i [] = refl
  count_from-map i (v ∷ vs) = count_from-map (suc i) vs

  map-some :
      (vs : List V) → map (λ w. some w) (map f vs) ≡ map (map_option f) (map (λ v. some v) vs)
  map-some [] = refl
  map-some (v ∷ vs) = ap (λ l. some (f v) ∷ l) (map-some vs)

  -- A step that numbers placeholders, over V and over W.
  abbrev Same : List Piece × Numbering W → List Piece × Numbering V → Type 0
  Same new old = new ≡ (old.0, map_numbering old.1)

  head?-map : (vs : List V) → head? (map f vs) ≡ map_option f (head? vs)
  head?-map [] = refl
  head?-map (v ∷ vs) = refl

  add_params :
      (all new : List (Option V)) (new' : List (Option W))
      → new' ≡ map (map_option f) new
      → map (map_option f) all ++ new' ≡ map (map_option f) (all ++ new)
  add_params all new new' h = rw h (sym (map-append (map_option f) all new))

  single-Same :
      (op : ComparisonOperator) (column : String) (params : List V) (s : Numbering V)
      → Same
          (resolve_single op column (map f params) (map_numbering s))
          (resolve_single op column params s)
  single-Same op column params s =
      ap
        (λ all. (
          text column ∷ text " " ∷ text (op_text op) ∷ text " " ∷ placeholder s.param_index ∷ [],
          record { param_index = s.param_index + 1; all_params = all },
        ))
        (add_params s.all_params (head? params ∷ []) (head? (map f params) ∷ [])
          (ap (λ o. o ∷ []) (head?-map params)))

  resolve_as-Same :
      (op : ComparisonOperator) (column : String) (params : List V) (s : Numbering V)
      → Same (resolve_as op column (map f params) (map_numbering s)) (resolve_as op column params s)
  resolve_as-Same is_null column params s = refl
  resolve_as-Same is_not_null column params s = refl
  resolve_as-Same in_list column params s =
      rw (placeholders-map s.param_index params, count_from-map s.param_index params)
        (ap
          (λ all. (
            text column ∷ text " IN (" ∷ placeholders s.param_index params ++ text ")" ∷ [],
            record { param_index = count_from s.param_index params; all_params = all },
          ))
          (add_params s.all_params (map (λ v. some v) params) (map (λ w. some w) (map f params))
            (map-some params)))
  resolve_as-Same equal column params s = single-Same equal column params s
  resolve_as-Same not_equal column params s = single-Same not_equal column params s
  resolve_as-Same less column params s = single-Same less column params s
  resolve_as-Same greater column params s = single-Same greater column params s
  resolve_as-Same less_equal column params s = single-Same less_equal column params s
  resolve_as-Same greater_equal column params s = single-Same greater_equal column params s
  resolve_as-Same like column params s = single-Same like column params s

  resolve_op-Same :
      (c : Condition V) (s : Numbering V)
      → Same (resolve_op (map_condition c) (map_numbering s)) (resolve_op c s)
  unfolding resolve_op
  resolve_op-Same c s = resolve_as-Same c.op c.column c.params s

  resolve_pending-Same :
      (c : Condition V) (s : Numbering V)
      → Same (resolve_pending (map_condition c) (map_numbering s)) (resolve_pending c s)
  unfolding resolve_pending
  resolve_pending-Same c s = elim (Bool-cases (matches_pending c.column)) [
    | inl e ↦ rw (e, resolve_pending) (resolve_op-Same c s)
    | inr e ↦
        rw (e, resolve_pending)
          (ap
            (λ all. (
              text "__PENDING__:" ∷ text c.column ∷ text ":" ∷ text (op_text c.op) ∷ [],
              record { param_index = s.param_index; all_params = all },
            ))
            (add_params s.all_params (map (λ v. some v) c.params)
              (map (λ w. some w) (map f c.params)) (map-some c.params)))
  ]

  module _ (new : Condition W → Numbering W → List Piece × Numbering W)
      (old : Condition V → Numbering V → List Piece × Numbering V)
      (same : (c : Condition V) (s : Numbering V)
        → Same (new (map_condition c) (map_numbering s)) (old c s)) where
    resolve_conditions-Same :
        (cs : List (Condition V)) (s : Numbering V)
        → resolve_conditions new (map map_condition cs) (map_numbering s)
          ≡ ((resolve_conditions old cs s).0, map_numbering (resolve_conditions old cs s).1)
    unfolding resolve_conditions
    resolve_conditions-Same [] s = refl
    resolve_conditions-Same (c ∷ cs) s = rw (same c s, resolve_conditions-Same cs (old c s).1) refl

    connect_rest-map :
        (cs : List (Condition V)) (fs : List (List Piece))
        → connect_rest (map map_condition cs) fs ≡ connect_rest cs fs
    connect_rest-map [] fs = refl
    connect_rest-map (c ∷ cs) [] = refl
    connect_rest-map (c ∷ cs) (f ∷ fs) =
        ap (λ l. text " " ∷ text (connector_text c.connector) ∷ text " " ∷ (f ++ l))
          (connect_rest-map cs fs)

    conditions_clause-Same :
        (keyword : String) (cs : List (Condition V)) (s : Numbering V)
        → Same
            (conditions_clause new keyword (map map_condition cs) (map_numbering s))
            (conditions_clause old keyword cs s)
    unfolding conditions_clause
    conditions_clause-Same keyword [] s = refl
    conditions_clause-Same keyword (c ∷ cs) s =
        rw
          (
            same c s,
            resolve_conditions-Same cs (old c s).1,
            connect_rest-map cs (resolve_conditions old cs (old c s).1).0,
          )
          refl

  number_clause-Same :
      (keyword : String) (o : Option V) (s : Numbering V)
      → Same (number_clause keyword (map_option f o) (map_numbering s)) (number_clause keyword o s)
  unfolding number_clause
  number_clause-Same keyword none s = refl
  number_clause-Same keyword (some v) s =
      ap
        (λ all. (
          text keyword ∷ placeholder s.param_index ∷ [],
          record { param_index = s.param_index + 1; all_params = all },
        ))
        (add_params s.all_params (some v ∷ []) (some (f v) ∷ []) refl)

  -- For any change of the values, however it is made: the SELECT statement of the changed builder has
  -- the same text, and its parameters are those from before, changed in the same way. So no value gets
  -- into the text, and each reaches the driver as it is.
  pub query_sql-map : (b : QueryBuilder V) → query_sql (map_query b) ≡ map_result (query_sql b)
  unfolding query_sql
  query_sql-map b =
      let s0 : Numbering V = numbering 1 [] in
      let s1 = (conditions_clause resolve_pending " WHERE " b.conditions s0).1 in
      let s2 = (conditions_clause resolve_pending " HAVING " b.having_conditions s1).1 in
      let s3 = (number_clause " LIMIT " b.row_limit s2).1 in
      rw
        (
          conditions_clause-Same resolve_pending resolve_pending resolve_pending-Same " WHERE "
              b.conditions s0,
          conditions_clause-Same resolve_pending resolve_pending resolve_pending-Same " HAVING "
              b.having_conditions s1,
          number_clause-Same " LIMIT " b.row_limit s2,
          number_clause-Same " OFFSET " b.row_offset s3,
        )
        refl
