-- ===== src/Migration/Runner.antt =====
-- The class MigrationRunner. `before_or_same a b` is `a.localeCompare(b) <= 0`.
use vais_lang.Prelude.{
  All-In, subst, All-map, there, here, All, In, ◌∙◌, ap, sym, ◌≡◌, refl, String, Option, none, some,
  List, [], ◌∷◌, map, filter, last?, Bool, true, false, not, ◌||◌, if◌then◌else◌, string_eq, str_eq,
  arith, eq_iff,
}
use vais_lang.Prelude.JsSet
use vais_lang.Migration.{Migration, MigrationSql, generate_migration_sql}
use vais_lang.Prelude.JsSet.{has-delete, has-add}

pub record Runner : Type 0 where
  pub migrations : List Migration
  pub applied : List String

pub record MigrationStatus : Type 0 where
  pub name : String
  pub version : String
  pub applied : Bool

module _ (before_or_same : String → String → Bool) where
  -- A stable sort, as `sort` is.
  abbrev pub insert_by_version : Migration → List Migration → List Migration
  insert_by_version m [] = m ∷ []
  insert_by_version m (n ∷ ns) =
      let rest = insert_by_version m ns in
      if before_or_same m.version n.version then m ∷ n ∷ ns else n ∷ rest

  abbrev pub sort_by_version : List Migration → List Migration
  sort_by_version [] = []
  sort_by_version (m ∷ ms) = insert_by_version m (sort_by_version ms)

  unfoldable pub new_runner : List Migration → Runner
  new_runner migrations = record { migrations = sort_by_version migrations; applied = [] }

abbrev pub is_applied : Runner → Migration → Bool
is_applied r m = JsSet.has m.version r.applied

unfoldable pub status : Runner → List MigrationStatus
unfolding JsSet.has
status r =
    map (λ m. record { name = m.name; version = m.version; applied = is_applied r m }) r.migrations

unfoldable pub pending : Runner → List Migration
unfolding JsSet.has
pending r = filter (λ m. not (is_applied r m)) r.migrations

-- The loop of `migrate` over the pending migrations.
abbrev pub apply_each : List Migration → Runner → Runner × List MigrationSql
apply_each [] r = (r, [])
apply_each (m ∷ ms) r =
    let sql = generate_migration_sql m in
    let (s, results) = apply_each ms (record r { applied = JsSet.add m.version r.applied }) in
    (s, sql ∷ results)

unfoldable pub migrate : Runner → Runner × List MigrationSql
unfolding pending JsSet.add generate_migration_sql
migrate r = apply_each (pending r) r

unfoldable pub rollback : Runner → Runner × Option MigrationSql
unfolding JsSet.delete JsSet.has generate_migration_sql
rollback r = elim (last? (filter (is_applied r) r.migrations)) [
  | none ↦ (r, none)
  | some m ↦
      (record r { applied = JsSet.delete m.version r.applied }, some (generate_migration_sql m))
]

-- All versions that a list of migrations has are applied.
has_added :
    (ms : List Migration) (r : Runner) (v : String)
    → JsSet.has v (apply_each ms r).0.applied
      ≡ (JsSet.has v (map (λ m. m.version) ms) || JsSet.has v r.applied)
unfolding JsSet.has
has_added [] r v = refl
has_added (m ∷ ms) r v = ground (
  arith,
  has_added ms (record r { applied = JsSet.add m.version r.applied }) v,
  has-add m.version v r.applied,
)

apply_each-results :
    (ms : List Migration) (r : Runner)
    → ((apply_each ms r).0.migrations ≡ r.migrations)
      × ((apply_each ms r).1 ≡ map generate_migration_sql ms)
apply_each-results [] r = (refl, refl)
apply_each-results (m ∷ ms) r =
    let s : Runner = record r { applied = JsSet.add m.version r.applied } in
    (
      (apply_each-results ms s).0,
      ap (λ l. generate_migration_sql m ∷ l) (apply_each-results ms s).1,
    )

has_pending :
    (p : Migration → Bool) (n : Migration) (ms : List Migration)
    → In n ms
    → p n ≡ true
    → JsSet.has n.version (map (λ m. m.version) (filter p ms)) ≡ true
unfolding JsSet.has
has_pending p n [] i h = elim i [ ]
has_pending p n (m ∷ ms) (here e) h =
    ground (arith, ap p e, ap (λ x. x.version) e, eq_iff m.version n.version)
has_pending p n (m ∷ ms) (there i) h = ground (arith, has_pending p n ms i h)

migrate-applied :
    (r : Runner) (n : Migration)
    → In n r.migrations
    → JsSet.has n.version (migrate r).0.applied ≡ true
unfolding migrate
migrate-applied r n i = ground (
  arith,
  has_added (pending r) r n.version,
  has_pending (λ m. not (is_applied r m)) n r.migrations i,
)

filter-cong :
    (p q : Migration → Bool) (ms : List Migration)
    → All (λ m. p m ≡ q m) ms
    → filter p ms ≡ filter q ms
filter-cong p q [] h = refl
filter-cong p q (m ∷ ms) (e, h) = ground (arith, e, filter-cong p q ms h)

filter_none : (ms : List Migration) → filter (λ m. false) ms ≡ []
filter_none [] = refl
filter_none (m ∷ ms) = filter_none ms

filter_all : (ms : List Migration) → filter (λ m. true) ms ≡ ms
filter_all [] = refl
filter_all (m ∷ ms) = ap (λ l. m ∷ l) (filter_all ms)

migrate-results :
    (r : Runner)
    → ((migrate r).1 ≡ map generate_migration_sql (pending r))
      × ((migrate r).0.migrations ≡ r.migrations)
unfolding migrate
migrate-results r = ((apply_each-results (pending r) r).1, (apply_each-results (pending r) r).0)

migrated_versions :
    (r : Runner) → All (λ n. JsSet.has n.version (migrate r).0.applied ≡ true) r.migrations
migrated_versions r = All-map _ _ (migrate-applied r) r.migrations (All-In r.migrations)

pending-none :
    (r : Runner) → All (λ n. JsSet.has n.version r.applied ≡ true) r.migrations → pending r ≡ []
unfolding pending
pending-none r h =
    filter-cong _ (λ m. false) r.migrations (All-map _ _ (λ n e. ground (arith, e)) r.migrations h)
    ∙ filter_none r.migrations

rollback_last :
    (r : Runner) (m : Migration)
    → All (λ n. JsSet.has n.version r.applied ≡ true) r.migrations
    → last? r.migrations ≡ some m
    → ((rollback r).1 ≡ some (generate_migration_sql m))
      × (pending (rollback r).0 ≡ filter (λ n. str_eq m.version n.version) r.migrations)
unfolding rollback pending
rollback_last r m h e =
    let all_in : filter (is_applied r) r.migrations ≡ r.migrations =
      filter-cong _ (λ n. true) r.migrations h ∙ filter_all r.migrations in
    rw (all_in, e, rollback)
      (
        refl,
        filter-cong _ _ r.migrations (
            All-map _ _ (λ n k. ground (arith, k, has-delete m.version n.version r.applied))
              r.migrations h),
      )

-- `migrate` runs each pending migration once, in order, and leaves none pending; the migrations that
-- the runner has stay the same.
pub migrate-pending :
    (r : Runner)
    → ((migrate r).1 ≡ map generate_migration_sql (pending r))
      × (pending (migrate r).0 ≡ [])
      × ((migrate r).0.migrations ≡ r.migrations)
migrate-pending r = (
  (migrate-results r).0,
  pending-none (migrate r).0 (
      subst (λ ms. All (λ n. JsSet.has n.version (migrate r).0.applied ≡ true) ms)
        (sym (migrate-results r).1) (migrated_versions r)),
  (migrate-results r).1,
)

-- When all migrations are applied, `rollback` gives the statements of the last one; but afterwards
-- every migration that has its version is pending, also one that was not rolled back.
pub rollback-migrate :
    (r : Runner) (m : Migration)
    → last? r.migrations ≡ some m
    → let s = rollback (migrate r).0 in
      (s.1 ≡ some (generate_migration_sql m))
      × (pending s.0 ≡ filter (λ n. str_eq m.version n.version) r.migrations)
rollback-migrate r m h =
    let same = (migrate-results r).1 in
    let (a, b) =
      rollback_last (migrate r).0 m
        (subst (λ ms. All (λ n. JsSet.has n.version (migrate r).0.applied ≡ true) ms) (sym same)
          (migrated_versions r))
        (ap last? same ∙ h) in
    (a, b ∙ ap (filter (λ n. str_eq m.version n.version)) same)
