-- ===== src/Migration/Effects.antt =====
-- What a migration from one schema to another does to a database.
use vais_lang.Prelude.{
  ◌⊎◌, sym, All, inl, inr, Bool-cases, ◌∙◌, ap, String, Option, none, some, List, [], ◌∷◌, ◌++◌,
  true, if◌then◌else◌, ◌≡◌, refl, arith, str_eq, string_eq, eq_iff,
}
use mathlib.Core.Option
use text.Mathlib.TextPositions.{eq_refl}
use vais_lang.Prelude.JsMap
use vais_lang.Prelude.JsMap.{JsMap, get-set, get-delete, HasDistinctKeys, set-HasDistinctKeys}
use vais_lang.Migration.{
  Columns, MigrationColumnDef, Operation, create_table, drop_table, add_column, drop_column,
  rename_column,
}
use vais_lang.Migration.Diff.{
  CompiledSchema, collect, col_record, add_missing, drop_missing, diff_up, diff_down,
}
use vais_lang.Migration.Database.{AltersOnly, Database, alter, execute_all, get-execute_all}

alter-append : (a b : List Operation) (cs : Columns) → alter (a ++ b) cs ≡ alter b (alter a cs)
alter-append [] b cs = refl
alter-append (add_column table k def ∷ a) b cs = alter-append a b (JsMap.set k def cs)
alter-append (drop_column table k ∷ a) b cs = alter-append a b (JsMap.delete k cs)
alter-append (create_table table columns ∷ a) b cs = alter-append a b cs
alter-append (drop_table table ∷ a) b cs = alter-append a b cs
alter-append (rename_column table k j ∷ a) b cs = alter-append a b cs

abbrev pub first_of :
    Option MigrationColumnDef → Option MigrationColumnDef → Option MigrationColumnDef
first_of (some d) o = some d
first_of none o = o

module _ (table k : String) where
  alter-add_missing :
      (present wanted cs : Columns)
      → HasDistinctKeys wanted
      → JsMap.get k (alter (add_missing table present wanted) cs) ≡ (
          if JsMap.has k present
          then JsMap.get k cs
          else first_of (JsMap.get k wanted) (JsMap.get k cs))
  unfolding add_missing JsMap.get
  alter-add_missing present [] cs h = ground arith
  alter-add_missing present ((j, d) ∷ wanted) cs (p, h) = elim (Bool-cases (JsMap.has j present)) [
    | inl e ↦
        rw (e, add_missing) (ground (arith, e, eq_iff j k, alter-add_missing present wanted cs h))
    | inr e ↦
        rw (e, add_missing)
          (ground (
            arith,
            e,
            p,
            eq_iff j k,
            get-set j k d cs,
            alter-add_missing present wanted (JsMap.set j d cs) h,
          ))
  ]

  alter-drop_missing :
      (wanted present cs : Columns)
      → JsMap.get k (alter (drop_missing table wanted present) cs) ≡ (
          if JsMap.has k wanted
          then JsMap.get k cs
          else if JsMap.has k present
          then none
          else JsMap.get k cs)
  unfolding drop_missing JsMap.get
  alter-drop_missing wanted [] cs = ground arith
  alter-drop_missing wanted ((j, d) ∷ present) cs = elim (Bool-cases (JsMap.has j wanted)) [
    | inl e ↦
        rw (e, drop_missing) (ground (arith, e, eq_iff j k, alter-drop_missing wanted present cs))
    | inr e ↦
        rw (e, drop_missing)
          (ground (
            arith,
            e,
            eq_iff j k,
            get-delete j k cs,
            alter-drop_missing wanted present (JsMap.delete j cs),
          ))
  ]

module _ (table : String) where
  add_missing-AltersOnly :
      (present wanted : Columns) → All (AltersOnly table) (add_missing table present wanted)
  unfolding add_missing
  add_missing-AltersOnly present [] = tt
  add_missing-AltersOnly present ((j, d) ∷ wanted) = elim (Bool-cases (JsMap.has j present)) [
    | inl e ↦ rw (e, add_missing) (add_missing-AltersOnly present wanted)
    | inr e ↦ rw (e, add_missing) (eq_refl table, add_missing-AltersOnly present wanted)
  ]

  drop_missing-AltersOnly :
      (wanted present : Columns) → All (AltersOnly table) (drop_missing table wanted present)
  unfolding drop_missing
  drop_missing-AltersOnly wanted [] = tt
  drop_missing-AltersOnly wanted ((j, d) ∷ present) = elim (Bool-cases (JsMap.has j wanted)) [
    | inl e ↦ rw (e, drop_missing) (drop_missing-AltersOnly wanted present)
    | inr e ↦ rw (e, drop_missing) (eq_refl table, drop_missing-AltersOnly wanted present)
  ]

collect-HasDistinctKeys :
    (entries : List (String × MigrationColumnDef)) (m : Columns)
    → HasDistinctKeys m
    → HasDistinctKeys (collect m entries)
collect-HasDistinctKeys [] m h = h
collect-HasDistinctKeys ((k, def) ∷ entries) m h =
    collect-HasDistinctKeys entries (JsMap.set k def m) (set-HasDistinctKeys k def m h)

-- The changes from the columns of one schema to those of another, which have distinct names.
module _ (k : String) (before wanted : Columns) (one : HasDistinctKeys before)
    (two : HasDistinctKeys wanted) where
  alter_forth :
      (table : String)
      → JsMap.get k
          (alter (add_missing table before wanted ++ drop_missing table wanted before) before)
        ≡ (if JsMap.has k wanted then first_of (JsMap.get k before) (JsMap.get k wanted) else none)
  alter_forth table =
      let added = alter (add_missing table before wanted) before in
      ap (JsMap.get k)
        (alter-append (add_missing table before wanted) (drop_missing table wanted before) before)
      ∙ (ground (
        arith,
        alter-drop_missing table k wanted before added,
        alter-add_missing table k before wanted before two,
      ))

  alter_back :
      (table : String) (after : Columns)
      → JsMap.get k after
        ≡ (if JsMap.has k wanted then first_of (JsMap.get k before) (JsMap.get k wanted) else none)
      → JsMap.get k
          (alter (drop_missing table before wanted ++ add_missing table wanted before) after)
        ≡ JsMap.get k before
  alter_back table after e =
      let dropped = alter (drop_missing table before wanted) after in
      ap (JsMap.get k)
        (alter-append (drop_missing table before wanted) (add_missing table wanted before) after)
      ∙ (ground (
        arith,
        e,
        alter-drop_missing table k before wanted after,
        alter-add_missing table k wanted before dropped one,
      ))

untouched :
    {A : Type 0} {x y z : Option Columns} → A ⊎ (y ≡ x) → A ⊎ (z ≡ y) → A ⊎ ((y ≡ x) × (z ≡ x))
untouched (inl a) q = inl a
untouched (inr p) (inl a) = inl a
untouched (inr p) (inr q) = inr (p, q ∙ p)

AltersOnly-append :
    (table : String) (a b : List Operation)
    → All (AltersOnly table) a
    → All (AltersOnly table) b
    → All (AltersOnly table) (a ++ b)
AltersOnly-append table [] b p q = q
AltersOnly-append table (op ∷ a) b (x, p) q = (x, AltersOnly-append table a b p q)

-- For a table that keeps its name, in a database that has it with the columns of the old schema: the
-- migration up leaves the table there, drops each column that the new schema does not have, adds each
-- that only the new one has, and keeps a column of both as it is in the old one; the migration down
-- after it gives back the columns of the old schema; and neither changes another table.
pub diff_up-columns :
    (old_schema new_schema : CompiledSchema) (db : Database) (k other : String)
    → str_eq old_schema.name new_schema.name ≡ true
    → JsMap.get old_schema.name db ≡ some (col_record old_schema.columns)
    → let before = col_record old_schema.columns in
      let wanted = col_record new_schema.columns in
      let up = execute_all (diff_up (some old_schema) new_schema) db in
      let down = execute_all (diff_down (some old_schema) new_schema) up in
      (after : Columns) × (back : Columns) × (JsMap.get old_schema.name up ≡ some after)
      × (JsMap.get old_schema.name down ≡ some back)
      × (JsMap.get k after ≡ (
          if JsMap.has k wanted then first_of (JsMap.get k before) (JsMap.get k wanted) else none))
      × (JsMap.get k back ≡ JsMap.get k before)
      × ((str_eq old_schema.name other ≡ true)
          ⊎ ((JsMap.get other up ≡ JsMap.get other db)
              × (JsMap.get other down ≡ JsMap.get other db)))
unfolding diff_up diff_down
diff_up-columns old_schema new_schema db k other same there_before =
    let before = col_record old_schema.columns in
    let wanted = col_record new_schema.columns in
    let one = collect-HasDistinctKeys old_schema.columns [] tt in
    let two = collect-HasDistinctKeys new_schema.columns [] tt in
    let name = old_schema.name in
    let named : new_schema.name ≡ name = sym ((eq_iff name new_schema.name).0 same) in
    let ups = add_missing name before wanted ++ drop_missing name wanted before in
    let downs = drop_missing name before wanted ++ add_missing name wanted before in
    let (a, b) = get-execute_all name other ups db (
      AltersOnly-append name (add_missing name before wanted) (drop_missing name wanted before)
        (add_missing-AltersOnly name before wanted) (drop_missing-AltersOnly name wanted before)) in
    let (c, d) = get-execute_all name other downs (execute_all ups db) (
      AltersOnly-append name (drop_missing name before wanted) (add_missing name wanted before)
        (drop_missing-AltersOnly name before wanted) (add_missing-AltersOnly name wanted before)) in
    let found = a ∙ ap (Option.map (alter ups)) there_before in
    let forth = alter_forth k before wanted one two name in
    rw (same, named)
      (
        alter ups before,
        alter downs (alter ups before),
        found,
        c ∙ ap (Option.map (alter downs)) found,
        forth,
        alter_back k before wanted one two name _ forth,
        untouched b d,
      )
