-- ===== src/Query/Numbered.antt =====
-- The placeholders of a statement and its parameters belong together.
use vais_lang.Prelude.{
  All-map, append-nil, ◌∙◌, ap, ap₂, ℕ, zero, suc, ◌+◌, ◌≡◌, refl, String, Option, none, some, List,
  [], ◌∷◌, ◌++◌, map, length, head?, length-append, true, All, arith,
}
use vais_lang.Query.{
  connector_text, equal, not_equal, less, greater, less_equal, greater_equal, like, in_list,
  is_null, is_not_null, resolve_as, resolve_single, ComparisonOperator, Piece, text, placeholder,
  Condition, SqlResult, Numbering, comma, placeholders, count_from, matches_pending, resolve_op,
  resolve_pending, resolve_conditions, connect_rest,
}
use vais_lang.Query.Builders.{
  keys_of, update_row, insert_row, values_of, set_clauses, count_keys, UpdateBuilder, DeleteBuilder,
  InsertBuilder, delete_sql, update_sql, insert_sql, QueryBuilder, Join, Direction, columns_text,
  joins_text, clause, order_list, order_text, numbering, conditions_clause, number_clause,
  query_sql,
}
use vais_lang.Prelude.JsMap.{JsMap}

-- The numbers of the placeholders, in order.
abbrev pub numbers : List Piece → List ℕ
numbers [] = []
numbers (text s ∷ ps) = numbers ps
numbers (placeholder i ∷ ps) = i ∷ numbers ps

-- i, i + 1 and so on, n numbers.
abbrev pub from : ℕ → ℕ → List ℕ
from i zero = []
from i (suc n) = i ∷ from (suc i) n

numbers-append : (ps qs : List Piece) → numbers (ps ++ qs) ≡ numbers ps ++ numbers qs
numbers-append [] qs = refl
numbers-append (text s ∷ ps) qs = numbers-append ps qs
numbers-append (placeholder i ∷ ps) qs = ap (λ l. i ∷ l) (numbers-append ps qs)

from-append : (i m n : ℕ) → from i m ++ from (m + i) n ≡ from i (m + n)
from-append i zero n = ap₂ (λ j k. from j k) (omega arith) (omega arith)
from-append i (suc m) n =
    let e : suc m + i ≡ m + suc i = omega arith in
    let f : suc (m + n) ≡ suc m + n = omega arith in
    ap (λ l. i ∷ l) (ap (λ j. from (suc i) m ++ from j n) e ∙ from-append (suc i) m n)
    ∙ ap (λ k. from i k) f

length-map {ℓ κ} :
    {A : Type ℓ} {B : Type κ} (f : A → B) (xs : List A) → length (map f xs) ≡ length xs
length-map f [] = refl
length-map f (x ∷ xs) = ap suc (length-map f xs)

numbers-comma : (ns : List String) → numbers (comma ns) ≡ []
numbers-comma [] = refl
numbers-comma (n ∷ []) = refl
numbers-comma (n ∷ m ∷ ns) = numbers-comma (m ∷ ns)

numbers-clause : (keyword : String) (ns : List String) → numbers (clause keyword ns) ≡ []
numbers-clause keyword [] = refl
numbers-clause keyword (n ∷ ns) = numbers-comma (n ∷ ns)

numbers-columns_text : (ns : List String) → numbers (columns_text ns) ≡ []
numbers-columns_text [] = refl
numbers-columns_text (n ∷ ns) = numbers-comma (n ∷ ns)

numbers-joins_text : (js : List Join) → numbers (joins_text js) ≡ []
numbers-joins_text [] = refl
numbers-joins_text (j ∷ js) = numbers-joins_text js

numbers-order_list : (os : List (String × Direction)) → numbers (order_list os) ≡ []
numbers-order_list [] = refl
numbers-order_list ((c, d) ∷ []) = refl
numbers-order_list ((c, d) ∷ o ∷ os) = numbers-order_list (o ∷ os)

numbers-order_text : (os : List (String × Direction)) → numbers (order_text os) ≡ []
numbers-order_text [] = refl
numbers-order_text (o ∷ os) = numbers-order_list (o ∷ os)

-- The pieces have the next n numbers, and n parameters are added.
record Adds {V : Type 0} (ps : List Piece) (s t : Numbering V) (n : ℕ) : Type 0 where
  numbered : numbers ps ≡ from s.param_index n
  next : t.param_index ≡ n + s.param_index
  added : length t.all_params ≡ n + length s.all_params

adds :
    {V : Type 0} {ps : List Piece} {s t : Numbering V} {n : ℕ}
    → numbers ps ≡ from s.param_index n
    → t.param_index ≡ n + s.param_index
    → length t.all_params ≡ n + length s.all_params
    → Adds ps s t n
adds a b c = record { numbered = a; next = b; added = c }

Adds-text :
    {V : Type 0} {ps : List Piece} {s t : Numbering V} {n : ℕ} (w : String)
    → Adds ps s t n
    → Adds (text w ∷ ps) s t n
Adds-text w a = record { numbered = a.numbered; next = a.next; added = a.added }

Adds-append :
    {V : Type 0} {ps qs : List Piece} {s t u : Numbering V} {m n : ℕ}
    → Adds ps s t m
    → Adds qs t u n
    → Adds (ps ++ qs) s u (m + n)
Adds-append {ps} {qs} {s} {m} {n} a b = record {
  numbered =
      numbers-append ps qs
      ∙ (ap₂ (λ k l. k ++ l) a.numbered (b.numbered ∙ ap (λ i. from i n) a.next)
          ∙ from-append s.param_index m n);
  next = omega (arith, a.next, b.next);
  added = omega (arith, a.added, b.added);
}

module _ {V : Type 0} where
  Adds-texts : (ps : List Piece) {s : Numbering V} → numbers ps ≡ [] → Adds ps s s 0
  Adds-texts ps h = adds h (omega arith) (omega arith)

  numbers-placeholders : (i : ℕ) (vs : List V) → numbers (placeholders i vs) ≡ from i (length vs)
  numbers-placeholders i [] = refl
  numbers-placeholders i (v ∷ []) = refl
  numbers-placeholders i (v ∷ w ∷ vs) = ap (λ l. i ∷ l) (numbers-placeholders (suc i) (w ∷ vs))

  count_from_lem : (i : ℕ) (vs : List V) → count_from i vs ≡ length vs + i
  count_from_lem i [] = omega arith
  count_from_lem i (v ∷ vs) = omega (arith, count_from_lem (suc i) vs)

  -- How many placeholders a condition has.
  abbrev arity_as : ComparisonOperator → List V → ℕ
  arity_as is_null params = 0
  arity_as is_not_null params = 0
  arity_as in_list params = length params
  arity_as op params = 1

  single-Adds :
      (op : ComparisonOperator) (column : String) (params : List V) (s : Numbering V)
      → Adds (resolve_single op column params s).0 s (resolve_single op column params s).1 1
  single-Adds op column params s =
      adds refl (omega arith) (omega (arith, length-append s.all_params (head? params ∷ [])))

  resolve_as-Adds :
      (op : ComparisonOperator) (column : String) (params : List V) (s : Numbering V)
      → Adds
          (resolve_as op column params s).0
          s
          (resolve_as op column params s).1
          (arity_as op params)
  resolve_as-Adds is_null column params s = adds refl (omega arith) (omega arith)
  resolve_as-Adds is_not_null column params s = adds refl (omega arith) (omega arith)
  resolve_as-Adds in_list column params s =
      adds
        (numbers-append (placeholders s.param_index params) (text ")" ∷ [])
          ∙ (append-nil (numbers (placeholders s.param_index params))
              ∙ numbers-placeholders s.param_index params))
        (count_from_lem s.param_index params)
        (omega
          (arith, length-append s.all_params (map some params), length-map {A = V} some params))
  resolve_as-Adds equal column params s = single-Adds equal column params s
  resolve_as-Adds not_equal column params s = single-Adds not_equal column params s
  resolve_as-Adds less column params s = single-Adds less column params s
  resolve_as-Adds greater column params s = single-Adds greater column params s
  resolve_as-Adds less_equal column params s = single-Adds less_equal column params s
  resolve_as-Adds greater_equal column params s = single-Adds greater_equal column params s
  resolve_as-Adds like column params s = single-Adds like column params s

  -- A way to resolve conditions that numbers as many placeholders as it adds parameters.
  abbrev Resolves : (Condition V → Numbering V → List Piece × Numbering V) → Condition V → Type 0
  Resolves resolve c = (s : Numbering V) → (n : ℕ) × Adds (resolve c s).0 s (resolve c s).1 n

  resolve_op-Resolves : (c : Condition V) → Resolves resolve_op c
  unfolding resolve_op
  resolve_op-Resolves c s = (arity_as c.op c.params, resolve_as-Adds c.op c.column c.params s)

  resolve_pending-Resolves :
      (c : Condition V) → matches_pending c.column ≡ true → Resolves resolve_pending c
  unfolding resolve_pending
  resolve_pending-Resolves c h s = rw (h, resolve_pending) (resolve_op-Resolves c s)

  module _ (resolve : Condition V → Numbering V → List Piece × Numbering V) where
    connect_rest-Adds :
        (cs : List (Condition V)) (s : Numbering V)
        → All (Resolves resolve) cs
        → (n : ℕ) × Adds
            (connect_rest cs (resolve_conditions resolve cs s).0)
            s
            (resolve_conditions resolve cs s).1
            n
    unfolding resolve_conditions
    connect_rest-Adds [] s h = (0, adds refl (omega arith) (omega arith))
    connect_rest-Adds (c ∷ cs) s (h, hs) =
        let (m, a) = h s in
        let (n, b) = connect_rest-Adds cs (resolve c s).1 hs in
        (
          m + n,
          Adds-text " " (Adds-text (connector_text c.connector) (Adds-text " " (Adds-append a b))),
        )

    conditions_clause-Adds :
        (keyword : String) (cs : List (Condition V)) (s : Numbering V)
        → All (Resolves resolve) cs
        → (n : ℕ) × Adds
            (conditions_clause resolve keyword cs s).0
            s
            (conditions_clause resolve keyword cs s).1
            n
    unfolding conditions_clause
    conditions_clause-Adds keyword [] s h = (0, adds refl (omega arith) (omega arith))
    conditions_clause-Adds keyword (c ∷ cs) s (h, hs) =
        let (m, a) = h s in
        let (n, b) = connect_rest-Adds cs (resolve c s).1 hs in
        (m + n, Adds-text keyword (Adds-append a b))

  number_clause-Adds :
      (keyword : String) (o : Option V) (s : Numbering V)
      → (n : ℕ) × Adds (number_clause keyword o s).0 s (number_clause keyword o s).1 n
  unfolding number_clause
  number_clause-Adds keyword none s = (0, adds refl (omega arith) (omega arith))
  number_clause-Adds keyword (some v) s =
      (1, adds refl (omega arith) (omega (arith, length-append s.all_params (some v ∷ []))))

  -- The placeholders are $1, $2 and so on, one for each parameter.
  abbrev pub IsNumbered : SqlResult V → Type 0
  IsNumbered r = numbers r.sql ≡ from 1 (length r.params)

  start-IsNumbered :
      {ps : List Piece} {t : Numbering V} {n : ℕ}
      → Adds ps (numbering 1 []) t n
      → IsNumbered (record { sql = ps; params = t.all_params })
  start-IsNumbered {t} {n} a =
      let e : n ≡ length t.all_params = omega (arith, a.added) in a.numbered ∙ ap (from 1) e

  -- In a SELECT statement whose conditions have columns that are not empty and on one line, the
  -- placeholders are $1, $2 and so on in the order of the text, one for each parameter.
  pub query_sql-IsNumbered :
      (b : QueryBuilder V)
      → All (λ c. matches_pending c.column ≡ true) b.conditions
      → All (λ c. matches_pending c.column ≡ true) b.having_conditions
      → IsNumbered (query_sql b)
  unfolding query_sql
  query_sql-IsNumbered b h k =
      let where_part = conditions_clause resolve_pending " WHERE " b.conditions (numbering 1 []) in
      let having_part =
        conditions_clause resolve_pending " HAVING " b.having_conditions where_part.1 in
      let limit_part = number_clause " LIMIT " b.row_limit having_part.1 in
      let (i, wheres) =
        conditions_clause-Adds resolve_pending " WHERE " b.conditions (numbering 1 [])
          (All-map _ _ resolve_pending-Resolves b.conditions h) in
      let (j, havings) =
        conditions_clause-Adds resolve_pending " HAVING " b.having_conditions where_part.1
          (All-map _ _ resolve_pending-Resolves b.having_conditions k) in
      let (l, limits) = number_clause-Adds " LIMIT " b.row_limit having_part.1 in
      let (m, offsets) = number_clause-Adds " OFFSET " b.row_offset limit_part.1 in
      let orders = Adds-texts (order_text b.orders) (numbers-order_text b.orders) in
      let groups =
        Adds-texts (clause " GROUP BY " b.groups) (numbers-clause " GROUP BY " b.groups) in
      let joins = Adds-texts (joins_text b.joins) (numbers-joins_text b.joins) in
      let columns = Adds-texts (columns_text b.columns) (numbers-columns_text b.columns) in
      start-IsNumbered (
        Adds-append (Adds-text "SELECT " columns) (
          Adds-text " FROM " (
            Adds-text b.table (
              Adds-append joins (
                Adds-append wheres (
                  Adds-append groups
                    (Adds-append havings (Adds-append orders (Adds-append limits offsets)))))))))

  count_keys-length : (i : ℕ) (row : JsMap String V) → count_keys i row ≡ length row + i
  count_keys-length i [] = omega arith
  count_keys-length i (entry ∷ row) = omega (arith, count_keys-length (suc i) row)

  numbers-set_clauses :
      (i : ℕ) (row : JsMap String V) → numbers (set_clauses i row) ≡ from i (length row)
  numbers-set_clauses i [] = refl
  numbers-set_clauses i ((k, v) ∷ []) = refl
  numbers-set_clauses i ((k, v) ∷ entry ∷ row) =
      ap (λ l. i ∷ l) (numbers-set_clauses (suc i) (entry ∷ row))

  length-values : (row : JsMap String V) → length (values_of row) ≡ length row
  length-values row = length-map (λ (entry : String × V). entry.1) row

  length-params :
      (row : JsMap String V) → length (map (λ (v : V). some v) (values_of row)) ≡ length row
  length-params row = length-map (λ v. some v) (values_of row) ∙ length-values row

  -- The numbering after the assignments of a row.
  abbrev after_row : JsMap String V → Numbering V
  after_row row = numbering (count_keys 1 row) (map some (values_of row))

  set_clauses-Adds :
      (row : JsMap String V)
      → Adds (set_clauses 1 row) (numbering 1 []) (after_row row) (length row)
  set_clauses-Adds row =
      adds (numbers-set_clauses 1 row) (count_keys-length 1 row) (omega (arith, length-params row))

  placeholders-Adds :
      (vs : List V)
      → Adds
          (placeholders 1 vs)
          (numbering 1 [])
          (numbering (count_from 1 vs) (map (λ v. some v) vs))
          (length vs)
  placeholders-Adds vs =
      adds (numbers-placeholders 1 vs) (count_from_lem 1 vs)
        (omega (arith, length-map (λ (v : V). some v) vs))

  All-of {ℓ} :
      {P : Condition V → Type ℓ} → ((c : Condition V) → P c) → (cs : List (Condition V)) → All P cs
  All-of p [] = tt
  All-of p (c ∷ cs) = (p c, All-of p cs)

  -- The same of a statement where there is one.
  abbrev pub IsNumberedIfAny : Option (SqlResult V) → Type 0
  IsNumberedIfAny none = Unit {0}
  IsNumberedIfAny (some r) = IsNumbered r

  unless_empty :
      (row : JsMap String V) (r : SqlResult V)
      → IsNumbered r
      → IsNumberedIfAny (elim row [ [] ↦ none | entry ∷ entries ↦ some r ])
  unless_empty [] r h = tt
  unless_empty (entry ∷ row) r h = h

  insert_row-IsNumbered : (b : InsertBuilder V) → IsNumbered (insert_row b)
  insert_row-IsNumbered b =
      let keys = Adds-texts (comma (keys_of b.row)) (numbers-comma (keys_of b.row)) in
      let returned =
        Adds-texts (clause " RETURNING " b.returned) (numbers-clause " RETURNING " b.returned) in
      start-IsNumbered (
        Adds-append (Adds-text "INSERT INTO " (Adds-text b.table (Adds-text " (" keys))) (
          Adds-text ") VALUES ("
            (Adds-append (placeholders-Adds (values_of b.row)) (Adds-text ")" returned))))

  update_row-IsNumbered : (b : UpdateBuilder V) → IsNumbered (update_row b)
  unfolding update_row
  update_row-IsNumbered b =
      let (n, a) =
        conditions_clause-Adds resolve_op " WHERE " b.conditions (after_row b.row)
          (All-of resolve_op-Resolves b.conditions) in
      start-IsNumbered (
        Adds-text "UPDATE "
          (Adds-text b.table (Adds-text " SET " (Adds-append (set_clauses-Adds b.row) a))))

  delete_sql-IsNumbered : (b : DeleteBuilder V) → IsNumbered (delete_sql b)
  unfolding delete_sql
  delete_sql-IsNumbered b =
      let (n, a) =
        conditions_clause-Adds resolve_op " WHERE " b.conditions (numbering 1 [])
          (All-of resolve_op-Resolves b.conditions) in
      start-IsNumbered (Adds-text "DELETE FROM " (Adds-text b.table a))

  -- In each INSERT, UPDATE and DELETE statement that a builder gives, the placeholders are $1, $2 and
  -- so on in the order of the text, one for each parameter.
  pub insert_sql-IsNumbered :
      (i : InsertBuilder V) (u : UpdateBuilder V) (d : DeleteBuilder V)
      → IsNumberedIfAny (insert_sql i) × IsNumberedIfAny (update_sql u) × IsNumbered (delete_sql d)
  unfolding insert_sql update_sql
  insert_sql-IsNumbered i u d = (
    unless_empty i.row (insert_row i) (insert_row-IsNumbered i),
    unless_empty u.row (update_row u) (update_row-IsNumbered u),
    delete_sql-IsNumbered d,
  )
