-- ===== src/Migrations/Tests.antt =====
-- Runs of the migrations on small files.
use agent_control_center_cor.Base.{
  ℕ, ◌≤◌, String, Bool, true, false, Option, none, some, List, [], ◌∷◌, ◌++◌, select_where, arith,
  Result, ok, err, ◌≡◌, refl, All,
}
use agent_control_center_cor.Json.{null}
use agent_control_center_cor.Migrations.{
  ℤ, pos, negsuc, Table, Database, Migration, MigrationError, dropped_table, lost_rows,
  MigrationRunResult, thrown, version_error, read_user_version, count_all_tables,
  assert_migration_list,
}
use agent_control_center_cor.Migrations.Run.{
  World, RunMigrationsOptions, newest_known, run_migrations, is_pending,
}
use agent_control_center_cor.Migrations.Listed.{IsAscending, assert_migration_list_lem}
use agent_control_center_cor.Migrations.Committed.{Commits, run_migrations-Commits}
use agent_control_center_cor.Migrations.Forward.{MovesForward, run_migrations-forward}
use agent_control_center_cor.Migrations.Newest.{IsAt}
use agent_control_center_cor.Migrations.Completes.{run_migrations-newest}
use agent_control_center_cor.Migrations.Quiet.{IsQuiet, IsSafe, versions, run_migrations-completes}

abbrev tasks : Table
tasks = record { name = "tasks"; rows = null ∷ null ∷ [] }

abbrev runs : Table
runs = record { name = "runs"; rows = null ∷ [] }

abbrev fewer_tasks : Table
fewer_tasks = record { name = "tasks"; rows = null ∷ [] }

abbrev file : Database
file = record { user_version = pos 0; tables = tasks ∷ runs ∷ [] }

abbrev keeping : String → ℕ → Migration
keeping name version = record {
  version = version;
  name = name;
  expected_row_delta = [];
  up = λ db. ok db;
}

abbrev baseline : Migration
baseline = keeping "baseline" 1

abbrev usage : Migration
usage = keeping "run-usage" 3

-- a migration that deletes a task and drops the runs
abbrev deleting : List (String × ℤ) → Migration
deleting declared = record {
  version = 2;
  name = "deleting";
  expected_row_delta = declared;
  up = λ db. ok (record db { tables = fewer_tasks ∷ [] });
}

abbrev failing : Migration
failing = record {
  version = 2;
  name = "failing";
  expected_row_delta = [];
  up = λ db. err "no such column";
}

abbrev quiet : World
quiet = record {
  others_commit = λ v db. db;
  begin_immediate = λ v. ok tt;
  commit = λ v. ok tt;
  integrity_check = λ db. some "ok";
  file_size = λ v. 4096;
  vacuum_into = λ v. ok "pre.sqlite";
}

-- another daemon migrates the file before the lock on version 1
abbrev raced : World
raced = record quiet { others_commit = λ v db. record db { user_version = pos 1 } }

abbrev on_disk : List Migration → RunMigrationsOptions
on_disk ms = record { migrations = ms; database_path = some "acc.sqlite" }

abbrev both : RunMigrationsOptions
both = on_disk (baseline ∷ usage ∷ [])

abbrev migrated_file : Database
migrated_file = record { user_version = pos 3; tables = tasks ∷ runs ∷ [] }

abbrev both_applied : MigrationRunResult
both_applied = record {
  from_version = 0;
  to_version = 3;
  applied_versions = 1 ∷ 3 ∷ [];
  backup_paths = "pre.sqlite" ∷ "pre.sqlite" ∷ [];
}

both_run : run_migrations quiet both file ≡ (ok both_applied, migrated_file)
unfolding agent_control_center_cor.Base.Text.trim agent_control_center_cor.Base.Text.trim_end
    agent_control_center_cor.Base.Text.trim_start agent_control_center_cor.Base.Text.is_space
    agent_control_center_cor.Base.Text.like_longer agent_control_center_cor.Base.Text.text_before
    agent_control_center_cor.Base.select_where agent_control_center_cor.Base.order_by
    agent_control_center_cor.Base.insert_before agent_control_center_cor.Migrations.count_all_tables
    agent_control_center_cor.Migrations.assert_no_rows_lost
    agent_control_center_cor.Migrations.assert_ascending
    agent_control_center_cor.Migrations.check_table agent_control_center_cor.Migrations.is_below
    agent_control_center_cor.Migrations.Run.run_from
    agent_control_center_cor.Migrations.Run.run_pending
    agent_control_center_cor.Migrations.Run.migrate_one
    agent_control_center_cor.Migrations.Run.backup_database
    agent_control_center_cor.Migrations.Run.migrate_under_lock
    agent_control_center_cor.Migrations.Run.after_begin
    agent_control_center_cor.Migrations.Run.after_locked
    agent_control_center_cor.Migrations.Run.migrate_locked run_migrations assert_migration_list
    read_user_version newest_known
both_run = refl

raced_run :
    run_migrations raced both file
    ≡ (ok (record both_applied { applied_versions = 3 ∷ [] }), migrated_file)
unfolding agent_control_center_cor.Base.Text.trim agent_control_center_cor.Base.Text.trim_end
    agent_control_center_cor.Base.Text.trim_start agent_control_center_cor.Base.Text.is_space
    agent_control_center_cor.Base.Text.like_longer agent_control_center_cor.Base.Text.text_before
    agent_control_center_cor.Base.select_where agent_control_center_cor.Base.order_by
    agent_control_center_cor.Base.insert_before agent_control_center_cor.Migrations.count_all_tables
    agent_control_center_cor.Migrations.assert_no_rows_lost
    agent_control_center_cor.Migrations.assert_ascending
    agent_control_center_cor.Migrations.check_table agent_control_center_cor.Migrations.is_below
    agent_control_center_cor.Migrations.Run.run_from
    agent_control_center_cor.Migrations.Run.run_pending
    agent_control_center_cor.Migrations.Run.migrate_one
    agent_control_center_cor.Migrations.Run.backup_database
    agent_control_center_cor.Migrations.Run.migrate_under_lock
    agent_control_center_cor.Migrations.Run.after_begin
    agent_control_center_cor.Migrations.Run.after_locked
    agent_control_center_cor.Migrations.Run.migrate_locked run_migrations assert_migration_list
    read_user_version newest_known
raced_run = refl

-- rows that go without a declaration: nothing of the migration stays
deleting_run :
    run_migrations quiet (on_disk (baseline ∷ deleting [] ∷ [])) file
    ≡ (err (dropped_table 2 "runs"), record file { user_version = pos 1 })
unfolding agent_control_center_cor.Base.Text.trim agent_control_center_cor.Base.Text.trim_end
    agent_control_center_cor.Base.Text.trim_start agent_control_center_cor.Base.Text.is_space
    agent_control_center_cor.Base.Text.like_longer agent_control_center_cor.Base.Text.text_before
    agent_control_center_cor.Base.select_where agent_control_center_cor.Base.order_by
    agent_control_center_cor.Base.insert_before agent_control_center_cor.Migrations.count_all_tables
    agent_control_center_cor.Migrations.assert_no_rows_lost
    agent_control_center_cor.Migrations.assert_ascending
    agent_control_center_cor.Migrations.check_table agent_control_center_cor.Migrations.is_below
    agent_control_center_cor.Migrations.Run.run_from
    agent_control_center_cor.Migrations.Run.run_pending
    agent_control_center_cor.Migrations.Run.migrate_one
    agent_control_center_cor.Migrations.Run.backup_database
    agent_control_center_cor.Migrations.Run.migrate_under_lock
    agent_control_center_cor.Migrations.Run.after_begin
    agent_control_center_cor.Migrations.Run.after_locked
    agent_control_center_cor.Migrations.Run.migrate_locked run_migrations assert_migration_list
    read_user_version newest_known
deleting_run = refl

declared_run :
    (run_migrations quiet
      (on_disk (deleting (("tasks", negsuc 0) ∷ ("runs", pos 0) ∷ []) ∷ []))
      file).1
    ≡ record { user_version = pos 2; tables = fewer_tasks ∷ [] }
unfolding agent_control_center_cor.Base.Text.trim agent_control_center_cor.Base.Text.trim_end
    agent_control_center_cor.Base.Text.trim_start agent_control_center_cor.Base.Text.is_space
    agent_control_center_cor.Base.Text.like_longer agent_control_center_cor.Base.Text.text_before
    agent_control_center_cor.Base.select_where agent_control_center_cor.Base.order_by
    agent_control_center_cor.Base.insert_before agent_control_center_cor.Migrations.count_all_tables
    agent_control_center_cor.Migrations.assert_no_rows_lost
    agent_control_center_cor.Migrations.assert_ascending
    agent_control_center_cor.Migrations.check_table agent_control_center_cor.Migrations.is_below
    agent_control_center_cor.Migrations.Run.run_from
    agent_control_center_cor.Migrations.Run.run_pending
    agent_control_center_cor.Migrations.Run.migrate_one
    agent_control_center_cor.Migrations.Run.backup_database
    agent_control_center_cor.Migrations.Run.migrate_under_lock
    agent_control_center_cor.Migrations.Run.after_begin
    agent_control_center_cor.Migrations.Run.after_locked
    agent_control_center_cor.Migrations.Run.migrate_locked run_migrations assert_migration_list
    read_user_version newest_known
declared_run = refl

failing_run :
    run_migrations quiet (on_disk (baseline ∷ failing ∷ usage ∷ [])) file
    ≡ (err (thrown "no such column"), record file { user_version = pos 1 })
unfolding agent_control_center_cor.Base.Text.trim agent_control_center_cor.Base.Text.trim_end
    agent_control_center_cor.Base.Text.trim_start agent_control_center_cor.Base.Text.is_space
    agent_control_center_cor.Base.Text.like_longer agent_control_center_cor.Base.Text.text_before
    agent_control_center_cor.Base.select_where agent_control_center_cor.Base.order_by
    agent_control_center_cor.Base.insert_before agent_control_center_cor.Migrations.count_all_tables
    agent_control_center_cor.Migrations.assert_no_rows_lost
    agent_control_center_cor.Migrations.assert_ascending
    agent_control_center_cor.Migrations.check_table agent_control_center_cor.Migrations.is_below
    agent_control_center_cor.Migrations.Run.run_from
    agent_control_center_cor.Migrations.Run.run_pending
    agent_control_center_cor.Migrations.Run.migrate_one
    agent_control_center_cor.Migrations.Run.backup_database
    agent_control_center_cor.Migrations.Run.migrate_under_lock
    agent_control_center_cor.Migrations.Run.after_begin
    agent_control_center_cor.Migrations.Run.after_locked
    agent_control_center_cor.Migrations.Run.migrate_locked run_migrations assert_migration_list
    read_user_version newest_known
failing_run = refl

newer_run :
    run_migrations quiet both (record file { user_version = pos 4 })
    ≡ (err (version_error 4 3), record file { user_version = pos 4 })
unfolding agent_control_center_cor.Base.Text.trim agent_control_center_cor.Base.Text.trim_end
    agent_control_center_cor.Base.Text.trim_start agent_control_center_cor.Base.Text.is_space
    agent_control_center_cor.Base.Text.like_longer agent_control_center_cor.Base.Text.text_before
    agent_control_center_cor.Base.select_where agent_control_center_cor.Base.order_by
    agent_control_center_cor.Base.insert_before agent_control_center_cor.Migrations.count_all_tables
    agent_control_center_cor.Migrations.assert_no_rows_lost
    agent_control_center_cor.Migrations.assert_ascending
    agent_control_center_cor.Migrations.check_table agent_control_center_cor.Migrations.is_below
    agent_control_center_cor.Migrations.Run.run_from
    agent_control_center_cor.Migrations.Run.run_pending
    agent_control_center_cor.Migrations.Run.migrate_one
    agent_control_center_cor.Migrations.Run.backup_database
    agent_control_center_cor.Migrations.Run.migrate_under_lock
    agent_control_center_cor.Migrations.Run.after_begin
    agent_control_center_cor.Migrations.Run.after_locked
    agent_control_center_cor.Migrations.Run.migrate_locked run_migrations assert_migration_list
    read_user_version newest_known
newer_run = refl

-- another connection adds runs after the rows were counted, and the migration takes them away
abbrev added : World
added = record quiet {
  others_commit = λ v db. record db {
    tables = tasks ∷ record { name = "runs"; rows = null ∷ null ∷ null ∷ [] } ∷ [];
  };
}

abbrev trimming : Migration
trimming = record {
  version = 1;
  name = "trimming";
  expected_row_delta = [];
  up = λ db. ok (record db { tables = tasks ∷ runs ∷ [] });
}

uncounted_run :
    (run_migrations added (on_disk (trimming ∷ [])) file).1 ≡ record file { user_version = pos 1 }
unfolding agent_control_center_cor.Base.Text.trim agent_control_center_cor.Base.Text.trim_end
    agent_control_center_cor.Base.Text.trim_start agent_control_center_cor.Base.Text.is_space
    agent_control_center_cor.Base.Text.like_longer agent_control_center_cor.Base.Text.text_before
    agent_control_center_cor.Base.select_where agent_control_center_cor.Base.order_by
    agent_control_center_cor.Base.insert_before agent_control_center_cor.Migrations.count_all_tables
    agent_control_center_cor.Migrations.assert_no_rows_lost
    agent_control_center_cor.Migrations.assert_ascending
    agent_control_center_cor.Migrations.check_table agent_control_center_cor.Migrations.is_below
    agent_control_center_cor.Migrations.Run.run_from
    agent_control_center_cor.Migrations.Run.run_pending
    agent_control_center_cor.Migrations.Run.migrate_one
    agent_control_center_cor.Migrations.Run.backup_database
    agent_control_center_cor.Migrations.Run.migrate_under_lock
    agent_control_center_cor.Migrations.Run.after_begin
    agent_control_center_cor.Migrations.Run.after_locked
    agent_control_center_cor.Migrations.Run.migrate_locked run_migrations assert_migration_list
    read_user_version newest_known
uncounted_run = refl

reads_file : read_user_version file ≡ ok 0
unfolding agent_control_center_cor.Base.Text.trim agent_control_center_cor.Base.Text.trim_end
    agent_control_center_cor.Base.Text.trim_start agent_control_center_cor.Base.Text.is_space
    agent_control_center_cor.Base.Text.like_longer agent_control_center_cor.Base.Text.text_before
    agent_control_center_cor.Base.select_where agent_control_center_cor.Base.order_by
    agent_control_center_cor.Base.insert_before agent_control_center_cor.Migrations.count_all_tables
    agent_control_center_cor.Migrations.assert_no_rows_lost
    agent_control_center_cor.Migrations.assert_ascending
    agent_control_center_cor.Migrations.check_table agent_control_center_cor.Migrations.is_below
    agent_control_center_cor.Migrations.Run.run_from
    agent_control_center_cor.Migrations.Run.run_pending
    agent_control_center_cor.Migrations.Run.migrate_one
    agent_control_center_cor.Migrations.Run.backup_database
    agent_control_center_cor.Migrations.Run.migrate_under_lock
    agent_control_center_cor.Migrations.Run.after_begin
    agent_control_center_cor.Migrations.Run.after_locked
    agent_control_center_cor.Migrations.Run.migrate_locked run_migrations assert_migration_list
    read_user_version newest_known
reads_file = refl

quiet-IsQuiet : IsQuiet quiet
quiet-IsQuiet = record {
  alone = λ v db. refl;
  begins = λ v. refl;
  commits = λ v. refl;
  is_intact = λ db. refl;
  backs_up = λ v. ("pre.sqlite", refl);
}

run_migrations-Commits_example :
    (vs : List ℕ) × (Commits quiet
        (baseline ∷ deleting [] ∷ [])
        vs
        file
        (run_migrations quiet (on_disk (baseline ∷ deleting [] ∷ [])) file).1
      × ((result : MigrationRunResult)
          → (run_migrations quiet (on_disk (baseline ∷ deleting [] ∷ [])) file).0 ≡ ok result
          → result.applied_versions ≡ vs))
run_migrations-Commits_example =
    run_migrations-Commits quiet (on_disk (baseline ∷ deleting [] ∷ [])) file

run_migrations-forward_example :
    (vs : List ℕ) × (MovesForward 0 vs (run_migrations quiet both file).1
      × ((result : MigrationRunResult)
          → (run_migrations quiet both file).0 ≡ ok result
          → result.applied_versions ≡ vs))
run_migrations-forward_example =
    run_migrations-forward quiet (λ v db a h. (a, (h, omega arith))) both file 0 reads_file

run_migrations-newest_example : IsAt 3 both_applied migrated_file
unfolding agent_control_center_cor.Base.Text.trim agent_control_center_cor.Base.Text.trim_end
    agent_control_center_cor.Base.Text.trim_start agent_control_center_cor.Base.Text.is_space
    agent_control_center_cor.Base.Text.like_longer agent_control_center_cor.Base.Text.text_before
    agent_control_center_cor.Base.select_where agent_control_center_cor.Base.order_by
    agent_control_center_cor.Base.insert_before agent_control_center_cor.Migrations.count_all_tables
    agent_control_center_cor.Migrations.assert_no_rows_lost
    agent_control_center_cor.Migrations.assert_ascending
    agent_control_center_cor.Migrations.check_table agent_control_center_cor.Migrations.is_below
    agent_control_center_cor.Migrations.Run.run_from
    agent_control_center_cor.Migrations.Run.run_pending
    agent_control_center_cor.Migrations.Run.migrate_one
    agent_control_center_cor.Migrations.Run.backup_database
    agent_control_center_cor.Migrations.Run.migrate_under_lock
    agent_control_center_cor.Migrations.Run.after_begin
    agent_control_center_cor.Migrations.Run.after_locked
    agent_control_center_cor.Migrations.Run.migrate_locked run_migrations assert_migration_list
    read_user_version newest_known
run_migrations-newest_example =
    run_migrations-newest quiet both file both_applied migrated_file both_run

abbrev HasTables : Database → Type 0
HasTables db = db.tables ≡ tasks ∷ runs ∷ []

both_accepted : assert_migration_list (baseline ∷ usage ∷ []) ≡ ok tt
unfolding agent_control_center_cor.Base.Text.trim agent_control_center_cor.Base.Text.trim_end
    agent_control_center_cor.Base.Text.trim_start agent_control_center_cor.Base.Text.is_space
    agent_control_center_cor.Base.Text.like_longer agent_control_center_cor.Base.Text.text_before
    agent_control_center_cor.Base.select_where agent_control_center_cor.Base.order_by
    agent_control_center_cor.Base.insert_before agent_control_center_cor.Migrations.count_all_tables
    agent_control_center_cor.Migrations.assert_no_rows_lost
    agent_control_center_cor.Migrations.assert_ascending
    agent_control_center_cor.Migrations.check_table agent_control_center_cor.Migrations.is_below
    agent_control_center_cor.Migrations.Run.run_from
    agent_control_center_cor.Migrations.Run.run_pending
    agent_control_center_cor.Migrations.Run.migrate_one
    agent_control_center_cor.Migrations.Run.backup_database
    agent_control_center_cor.Migrations.Run.migrate_under_lock
    agent_control_center_cor.Migrations.Run.after_begin
    agent_control_center_cor.Migrations.Run.after_locked
    agent_control_center_cor.Migrations.Run.migrate_locked run_migrations assert_migration_list
    read_user_version newest_known
both_accepted = refl

assert_migration_list_lem_example : IsAscending 0 (baseline ∷ usage ∷ [])
assert_migration_list_lem_example =
    (assert_migration_list_lem (baseline ∷ usage ∷ [])).0 both_accepted

keeping-IsSafe : (name : String) (version : ℕ) → IsSafe HasTables (keeping name version)
unfolding agent_control_center_cor.Base.Text.trim agent_control_center_cor.Base.Text.trim_end
    agent_control_center_cor.Base.Text.trim_start agent_control_center_cor.Base.Text.is_space
    agent_control_center_cor.Base.Text.like_longer agent_control_center_cor.Base.Text.text_before
    agent_control_center_cor.Base.select_where agent_control_center_cor.Base.order_by
    agent_control_center_cor.Base.insert_before agent_control_center_cor.Migrations.count_all_tables
    agent_control_center_cor.Migrations.assert_no_rows_lost
    agent_control_center_cor.Migrations.assert_ascending
    agent_control_center_cor.Migrations.check_table agent_control_center_cor.Migrations.is_below
    agent_control_center_cor.Migrations.Run.run_from
    agent_control_center_cor.Migrations.Run.run_pending
    agent_control_center_cor.Migrations.Run.migrate_one
    agent_control_center_cor.Migrations.Run.backup_database
    agent_control_center_cor.Migrations.Run.migrate_under_lock
    agent_control_center_cor.Migrations.Run.after_begin
    agent_control_center_cor.Migrations.Run.after_locked
    agent_control_center_cor.Migrations.Run.migrate_locked run_migrations assert_migration_list
    read_user_version newest_known
keeping-IsSafe name version db good =
    let before : count_all_tables db ≡ ("runs", 1) ∷ ("tasks", 2) ∷ [] =
      rw (count_all_tables, good) refl in
    (db, (refl, (rw before (omega arith, (omega arith, tt)), good)))

run_migrations-completes_example :
    (result : MigrationRunResult) × ((after : Database) × ((run_migrations quiet both file
          ≡ (ok result, after))
        × ((result.applied_versions
              ≡ versions (select_where (is_pending 0) (baseline ∷ usage ∷ [])))
            × IsAt (newest_known (baseline ∷ usage ∷ [])) result after)))
run_migrations-completes_example =
    run_migrations-completes HasTables quiet both file 0 quiet-IsQuiet
      (keeping-IsSafe "baseline" 1, (keeping-IsSafe "run-usage" 3, tt)) refl both_accepted
      reads_file (omega arith)
