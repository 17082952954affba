-- ===== src/Migrations/Run.antt =====
-- src/migrations/runner.ts: backupDatabase and runMigrations.
use agent_control_center_cor.Base.{
  ℕ, ◌+◌, String, Bool, false, not, ◌||◌, Option, none, some, List, [], ◌∷◌, ◌++◌, ltb, leb, eqb,
  ◌==◌, is_some, select_where, if◌then◌else◌, Result, ok, err, map_err, ◌>>=◌, ◌>>◌,
}
use agent_control_center_cor.Migrations.{
  pos, Database, Migration, MigrationError, version_error, integrity_failed, thrown,
  MigrationRunResult, Counts, read_user_version, assert_migration_list, count_all_tables,
  assert_no_rows_lost,
}

-- What SQLite, the file system and other processes do around the migration of a version: the
-- commits of other connections before its transaction holds the write lock, the outcome of BEGIN
-- IMMEDIATE and of COMMIT, PRAGMA integrity_check, and the directory, the name and the VACUUM INTO
-- of the backup. The file's size is 0 where `stat` fails.
pub record World : Type 0 where
  pub others_commit : ℕ → Database → Database
  pub begin_immediate : ℕ → Result String (Unit {0})
  pub commit : ℕ → Result String (Unit {0})
  pub integrity_check : Database → Option String
  pub file_size : ℕ → ℕ
  pub vacuum_into : ℕ → Result String String

-- `RunMigrationsOptions`; the ACC home is a part of the world's backups.
pub record RunMigrationsOptions : Type 0 where
  pub migrations : List Migration
  pub database_path : Option String

abbrev pub total : Counts → ℕ
total [] = 0
total (x ∷ rest) = x.1 + total rest

unfoldable pub backup_database :
    World → RunMigrationsOptions → ℕ → Counts → Result MigrationError (Option String)
backup_database w options version pre =
    if not (is_some options.database_path) || (eqb (w.file_size version) 0 || eqb (total pre) 0)
    then ok none
    else map_err thrown (w.vacuum_into version) >>= λ path. ok (some path)

-- `options.migrations.at(-1)?.version ?? 0`
unfoldable pub newest_known : List Migration → ℕ
newest_known [] = 0
newest_known (m ∷ []) = m.version
newest_known (m ∷ n ∷ rest) = newest_known (n ∷ rest)

-- What a transaction does when it holds the lock: it rolls back, since the version is there, or
-- commits a database with these counts.
pub data Locked : Type 0 where
  skip : ℕ → Locked
  migrate : Database → Counts → Locked

-- `up`, PRAGMA user_version, the check of the rows, and COMMIT
unfoldable pub migrate_under_lock :
    World → Counts → Migration → Database → Result MigrationError (Database × Counts)
migrate_under_lock w pre m db = do
  changed ← map_err thrown (m.up db)
  let next = record changed { user_version = pos m.version }
  assert_no_rows_lost pre (count_all_tables next) m
  map_err thrown (w.commit m.version)
  ok (next, count_all_tables next)

unfoldable pub migrate_locked :
    World → ℕ → Counts → Migration → Database → Result MigrationError Locked
migrate_locked w newest pre m db = read_user_version db >>= λ current.
    if ltb newest current
    then err (version_error current newest)
    else if leb m.version current
    then ok (skip current)
    else migrate_under_lock w pre m db >>= λ x. ok (migrate x.0 x.1)

abbrev pub is_sound : Option String → Bool
is_sound none = false
is_sound (some message) = message == "ok"

abbrev pub add_backup : MigrationRunResult → Option String → MigrationRunResult
add_backup result none = result
add_backup result (some path) = record result { backup_paths = result.backup_paths ++ path ∷ [] }

-- An iteration goes on with the counts and the result that it leaves, or throws; the file is what
-- it left behind either way.
abbrev pub Outcome : Type 0 → Type 0
Outcome A = Result MigrationError A × Database

-- An error under the lock rolls back to `locked`.
unfoldable pub after_locked :
    World
    → MigrationRunResult
    → Option String
    → Migration
    → Database
    → Result MigrationError Locked
    → Outcome (Counts × MigrationRunResult)
after_locked w result backup m locked (err e) = (err e, locked)
after_locked w result backup m locked (ok (skip current)) =
    (ok (count_all_tables locked, record result { to_version = current }), locked)
after_locked w result backup m locked (ok (migrate next post)) =
    if is_sound (w.integrity_check next)
    then (
      ok (
        post,
        record result {
          applied_versions = result.applied_versions ++ m.version ∷ [];
          to_version = m.version;
        },
      ),
      next,
    )
    else (err (integrity_failed m.version (w.integrity_check next) backup), next)

unfoldable pub after_begin :
    World
    → ℕ
    → Counts
    → MigrationRunResult
    → Option String
    → Migration
    → Database
    → Result String (Unit {0})
    → Outcome (Counts × MigrationRunResult)
unfolding after_locked migrate_locked
after_begin w newest pre result backup m db (err message) = (err (thrown message), db)
after_begin w newest pre result backup m db (ok _) =
    after_locked w result backup m db (migrate_locked w newest pre m db)

-- One iteration of the loop over the pending migrations
unfoldable pub migrate_one :
    World
    → RunMigrationsOptions
    → Counts
    → MigrationRunResult
    → Migration
    → Database
    → Outcome (Counts × MigrationRunResult)
unfolding after_begin
migrate_one w options pre result m db = elim (backup_database w options m.version pre) [
  | err e ↦ (err e, db)
  | ok backup ↦
      after_begin w (newest_known options.migrations) pre (add_backup result backup) backup m
        (w.others_commit m.version db) (w.begin_immediate m.version)
]

abbrev pub next_iteration :
    (Counts → MigrationRunResult → Database → Outcome MigrationRunResult)
    → Outcome (Counts × MigrationRunResult)
    → Outcome MigrationRunResult
next_iteration go (ok (pre, result), db) = go pre result db
next_iteration go (err e, db) = (err e, db)

unfoldable pub run_pending :
    World
    → RunMigrationsOptions
    → List Migration
    → Counts
    → MigrationRunResult
    → Database
    → Outcome MigrationRunResult
run_pending w options [] pre result db = (ok result, db)
run_pending w options (m ∷ rest) pre result db =
    next_iteration (run_pending w options rest) (migrate_one w options pre result m db)

abbrev pub start : ℕ → MigrationRunResult
start version = record {
  from_version = version;
  to_version = version;
  applied_versions = [];
  backup_paths = [];
}

abbrev pub is_pending : ℕ → Migration → Bool
is_pending from m = ltb from m.version

unfoldable pub run_from : World → RunMigrationsOptions → ℕ → Database → Outcome MigrationRunResult
run_from w options from db =
    if ltb (newest_known options.migrations) from
    then (err (version_error from (newest_known options.migrations)), db)
    else run_pending w options (select_where (is_pending from) options.migrations)
        (count_all_tables db) (start from) db

unfoldable pub run_migrations : World → RunMigrationsOptions → Database → Outcome MigrationRunResult
run_migrations w options db =
    elim (assert_migration_list options.migrations >> read_user_version db) [
      | err e ↦ (err e, db)
      | ok from ↦ run_from w options from db
    ]
