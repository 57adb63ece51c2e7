-- ===== src/Migration/Database.antt =====
-- What the statements of migrations do to a database.
use vais_lang.Prelude.{
  ◌⊎◌, sym, All, Option-cases, inl, inr, ◌∙◌, ap, String, Option, none, some, List, [], ◌∷◌, true,
  if◌then◌else◌, ◌≡◌, refl, arith, str_eq, string_eq, eq_iff,
}
use mathlib.Core.Option
use vais_lang.Prelude.JsMap
use vais_lang.Prelude.JsMap.{JsMap, get-set, get-delete, HasDistinctKeys, set-HasDistinctKeys}
use vais_lang.Migration.{
  Columns, Operation, create_table, drop_table, add_column, drop_column, rename_column,
}

-- The tables of a database by name, each with its columns.
abbrev pub Database : Type 0
Database = JsMap String Columns

abbrev pub alter_table : (Columns → Columns) → String → Database → Database
alter_table f table db = elim (JsMap.get table db) [
  | none ↦ db
  | some cs ↦ JsMap.set table (f cs) db
]

abbrev pub rename : String → String → Columns → Columns
rename k j [] = []
rename k j ((c, def) ∷ cs) = (if str_eq c k then j else c, def) ∷ rename k j cs

-- What the statement of an operation does to a database.
abbrev pub run : Operation → Database → Database
run (create_table table columns) db = JsMap.set table columns db
run (drop_table table) db = JsMap.delete table db
run (add_column table k def) db = alter_table (JsMap.set k def) table db
run (drop_column table k) db = alter_table (JsMap.delete k) table db
run (rename_column table k j) db = alter_table (rename k j) table db

abbrev pub execute_all : List Operation → Database → Database
execute_all [] db = db
execute_all (op ∷ ops) db = execute_all ops (run op db)

-- The columns of one table after operations that add and drop columns of it.
abbrev pub alter : List Operation → Columns → Columns
alter [] cs = cs
alter (add_column table k def ∷ ops) cs = alter ops (JsMap.set k def cs)
alter (drop_column table k ∷ ops) cs = alter ops (JsMap.delete k cs)
alter (create_table table columns ∷ ops) cs = alter ops cs
alter (drop_table table ∷ ops) cs = alter ops cs
alter (rename_column table k j ∷ ops) cs = alter ops cs

map_same : (o : Option Columns) → Option.map (λ cs. cs) o ≡ o
map_same none = refl
map_same (some cs) = refl

map-map :
    (f g : Columns → Columns) (o : Option Columns)
    → Option.map f (Option.map g o) ≡ Option.map (λ cs. f (g cs)) o
map-map f g none = refl
map-map f g (some cs) = refl

pub both : {A : Type 0} {x y z : Option Columns} → A ⊎ (x ≡ y) → A ⊎ (y ≡ z) → A ⊎ (x ≡ z)
both (inl a) q = inl a
both (inr p) (inl a) = inl a
both (inr p) (inr q) = inr (p ∙ q)

-- The operation adds or drops a column of the table.
abbrev pub AltersOnly : String → Operation → Type 0
AltersOnly table (add_column t k def) = str_eq t table ≡ true
AltersOnly table (drop_column t k) = str_eq t table ≡ true
AltersOnly table (create_table t columns) = ⊥
AltersOnly table (drop_table t) = ⊥
AltersOnly table (rename_column t k j) = ⊥

module _ (table : String) where
  get-alter_table :
      (f : Columns → Columns) (t other : String) (db : Database)
      → str_eq t table ≡ true
      → (JsMap.get table (alter_table f t db) ≡ Option.map f (JsMap.get table db))
        × ((str_eq table other ≡ true)
            ⊎ (JsMap.get other (alter_table f t db) ≡ JsMap.get other db))
  get-alter_table f t other db e = elim (Option-cases (JsMap.get t db)) [
    | inl h ↦ rw (alter_table, h) (ground (arith, eq_iff t table, e, h), inr refl)
    | inr (cs, h) ↦
        rw (alter_table, h)
          (
            ground (arith, eq_iff t table, e, h, get-set t table (f cs) db),
            ground (arith, eq_iff t table, eq_iff table other, e, get-set t other (f cs) db),
          )
  ]

  -- Such operations alter the columns of that table, and no other table.
  pub get-execute_all :
      (other : String) (ops : List Operation) (db : Database)
      → All (AltersOnly table) ops
      → (JsMap.get table (execute_all ops db) ≡ Option.map (alter ops) (JsMap.get table db))
        × ((str_eq table other ≡ true)
            ⊎ (JsMap.get other (execute_all ops db) ≡ JsMap.get other db))
  get-execute_all other [] db h = (sym (map_same (JsMap.get table db)), inr refl)
  get-execute_all other (add_column t k def ∷ ops) db (e, h) =
      let (a, b) = get-execute_all other ops (run (add_column t k def) db) h in
      let (c, d) = get-alter_table (JsMap.set k def) t other db e in
      (
        a
            ∙ ap (Option.map (alter ops)) c
            ∙ map-map (alter ops) (JsMap.set k def) (JsMap.get table db),
        both b d,
      )
  get-execute_all other (drop_column t k ∷ ops) db (e, h) =
      let (a, b) = get-execute_all other ops (run (drop_column t k) db) h in
      let (c, d) = get-alter_table (JsMap.delete k) t other db e in
      (
        a
            ∙ ap (Option.map (alter ops)) c
            ∙ map-map (alter ops) (JsMap.delete k) (JsMap.get table db),
        both b d,
      )
  get-execute_all other (create_table t columns ∷ ops) db (e, h) = absurd e
  get-execute_all other (drop_table t ∷ ops) db (e, h) = absurd e
  get-execute_all other (rename_column t k j ∷ ops) db (e, h) = absurd e
