-- ===== src/Migrations/Iteration.antt =====
-- One iteration of runMigrations, with what it returns or throws and the file that it leaves.
use agent_control_center_cor.Base.{
  ℕ, ◌<◌, ◌≤◌, String, Option, none, some, [], ◌∷◌, ◌++◌, ltb, leb, Result, ok, err, bind-returns,
  map_err-returns, map_err, ◌>>=◌, ◌>>◌, if_lem, leb→le, leb→lt, ltb→le, if◌then◌else◌, ◌≡◌, refl,
  sym, ap, ◌∙◌,
}
use agent_control_center_cor.Migrations.{
  pos, Database, Migration, MigrationError, MigrationRunResult, Counts, thrown, version_error,
  read_user_version, count_all_tables, assert_no_rows_lost,
}
use agent_control_center_cor.Migrations.Rows.{KeepsRows, assert_no_rows_lost-KeepsRows}
use agent_control_center_cor.Migrations.Run.{
  World, RunMigrationsOptions, Locked, skip, migrate, migrate_under_lock, migrate_locked,
  after_locked, after_begin, migrate_one, backup_database, newest_known, is_sound, add_backup,
}

abbrev pub stamped : Migration → Database → Database
stamped m changed = record changed { user_version = pos m.version }

-- A migration under the lock: the version was below its own, and `up` kept the rows that were
-- there before the lock.
pub record IsMigrated (m : Migration) (before locked after : Database) : Type 0 where
  pub current : ℕ
  pub is_current : read_user_version locked ≡ ok current
  pub is_older : current < m.version
  pub changed : Database
  pub is_changed : m.up locked ≡ ok changed
  pub keeps_rows : KeepsRows m (count_all_tables before) (count_all_tables (stamped m changed))
  pub is_stamped : after ≡ stamped m changed

commits_what_it_checked :
    (checked committed : Result MigrationError (Unit {0})) (after next : Database × Counts)
    → checked >> (committed >> ok next) ≡ ok after
    → (checked ≡ ok tt) × (after ≡ next)
commits_what_it_checked (ok x) (ok y) after next h = (refl, cc)
commits_what_it_checked (ok x) (err e) after next h = cc
commits_what_it_checked (err e) committed after next h = cc

migrate_under_lock-IsMigrated :
    (w : World) (m : Migration) (before locked after : Database) (post : Counts) (current : ℕ)
    → read_user_version locked ≡ ok current
    → current < m.version
    → migrate_under_lock w (count_all_tables before) m locked ≡ ok (after, post)
    → IsMigrated m before locked after × (post ≡ count_all_tables after)
unfolding migrate_under_lock
migrate_under_lock-IsMigrated w m before locked after post current is_current is_older h =
    let (changed, (up_ok, rest)) = bind-returns (map_err thrown (m.up locked)) _ _ h in
    let counts : Counts = count_all_tables (stamped m changed) in
    let (kept, is_next) =
      commits_what_it_checked (assert_no_rows_lost (count_all_tables before) counts m)
        (map_err thrown (w.commit m.version)) (after, post) (stamped m changed, counts) rest in
    let is_stamped : after ≡ stamped m changed = ap (λ x. x.0) is_next in
    (
      record {
        current = current;
        is_current = is_current;
        is_older = is_older;
        changed = changed;
        is_changed = map_err-returns thrown (m.up locked) changed up_ok;
        keeps_rows =
            assert_no_rows_lost-KeepsRows m (count_all_tables before)
              (count_all_tables (stamped m changed)) kept;
        is_stamped = is_stamped;
      },
      ap (λ x. x.1) is_next ∙ ap count_all_tables (sym is_stamped),
    )

-- What one iteration does, by what it returns or throws and the file that it leaves.
pub data Iteration (w : World) (newest : ℕ) (m : Migration) (result : MigrationRunResult)
    (before : Database)
    : Result MigrationError (Counts × MigrationRunResult) × Database → Type 0 where
  threw_early : {e : MigrationError} → Iteration w newest m result before (err e, before)
  rolled_back :
      {e : MigrationError}
      → Iteration w newest m result before (err e, w.others_commit m.version before)
  unsound :
      {e : MigrationError} {after : Database}
      → IsMigrated m before (w.others_commit m.version before) after
      → Iteration w newest m result before (err e, after)
  skipped :
      {result' : MigrationRunResult} {current : ℕ}
      → read_user_version (w.others_commit m.version before) ≡ ok current
      → m.version ≤ current
      → current ≤ newest
      → result'.applied_versions ≡ result.applied_versions
      → result'.to_version ≡ current
      → Iteration w newest m result before (
        ok (count_all_tables (w.others_commit m.version before), result'),
        w.others_commit m.version before,
      )
  migrated :
      {result' : MigrationRunResult} {after : Database} {post : Counts}
      → IsMigrated m before (w.others_commit m.version before) after
      → post ≡ count_all_tables after
      → result'.applied_versions ≡ result.applied_versions ++ m.version ∷ []
      → result'.to_version ≡ m.version
      → Iteration w newest m result before (ok (post, result'), after)

-- What happens under the lock
pub data Decided (newest : ℕ) (m : Migration) (before locked : Database)
    : Result MigrationError Locked → Type 0 where
  throws : {e : MigrationError} → Decided newest m before locked (err e)
  skips :
      {current : ℕ}
      → read_user_version locked ≡ ok current
      → m.version ≤ current
      → current ≤ newest
      → Decided newest m before locked (ok (skip current))
  migrates :
      {after : Database} {post : Counts}
      → IsMigrated m before locked after
      → post ≡ count_all_tables after
      → Decided newest m before locked (ok (migrate after post))

migrate_under_lock-Decided :
    (w : World) (newest : ℕ) (m : Migration) (before locked : Database) (current : ℕ)
    → read_user_version locked ≡ ok current
    → current < m.version
    → (r : Result MigrationError (Database × Counts))
    → migrate_under_lock w (count_all_tables before) m locked ≡ r
    → Decided newest m before locked (r >>= λ x. ok (migrate x.0 x.1))
migrate_under_lock-Decided w newest m before locked current is_current is_older (err e) h = throws
migrate_under_lock-Decided w newest m before locked current is_current is_older (ok (after, post))
      h =
    let (is_migrated, is_counted) =
      migrate_under_lock-IsMigrated w m before locked after post current is_current is_older h in
    migrates is_migrated is_counted

migrate_locked-Decided :
    (w : World) (newest : ℕ) (m : Migration) (before locked : Database)
    → Decided newest m before locked (migrate_locked w newest (count_all_tables before) m locked)
unfolding migrate_locked
migrate_locked-Decided w newest m before locked = decided (read_user_version locked) refl
  where
    decided :
        (r : Result MigrationError ℕ)
        → read_user_version locked ≡ r
        → Decided newest m before locked (
            r >>= λ current.
            if ltb newest current
            then err (version_error current newest)
            else if leb m.version current
            then ok (skip current)
            else migrate_under_lock w (count_all_tables before) m locked >>= λ x.
                ok (migrate x.0 x.1))
    decided (err e) h = throws
    decided (ok current) h =
        if_lem (Decided newest m before locked) (ltb newest current) _ _ (λ newer. throws)
          λ known.
            if_lem (Decided newest m before locked) (leb m.version current) _ _
              (λ there. skips h (leb→le m.version current there) (ltb→le newest current known))
              λ missing.
                migrate_under_lock-Decided w newest m before locked current h
                  (leb→lt m.version current missing)
                  (migrate_under_lock w (count_all_tables before) m locked) refl

after_locked-Iteration :
    (w : World) (newest : ℕ) (m : Migration) (first result : MigrationRunResult)
    (backup : Option String) (before : Database) (r : Result MigrationError Locked)
    → result.applied_versions ≡ first.applied_versions
    → Decided newest m before (w.others_commit m.version before) r
    → Iteration w newest m first before
        (after_locked w result backup m (w.others_commit m.version before) r)
unfolding after_locked
after_locked-Iteration w newest m first result backup before (err e) same throws = rolled_back
after_locked-Iteration w newest m first result backup before (ok (skip current)) same
      (skips is_current there known) =
    skipped is_current there known same refl
after_locked-Iteration w newest m first result backup before (ok (migrate next post)) same
      (migrates is_migrated is_counted) =
    if_lem (Iteration w newest m first before) (is_sound (w.integrity_check next)) _ _
      (λ sound. migrated is_migrated is_counted (ap (λ vs. vs ++ m.version ∷ []) same) refl)
      (λ broken. unsound is_migrated)

after_begin-Iteration :
    (w : World) (newest : ℕ) (m : Migration) (first result : MigrationRunResult)
    (backup : Option String) (before : Database) (r : Result String (Unit {0}))
    → result.applied_versions ≡ first.applied_versions
    → Iteration w newest m first before (
        after_begin w newest
          (count_all_tables before)
          result
          backup
          m
          (w.others_commit m.version before)
          r)
unfolding after_begin
after_begin-Iteration w newest m first result backup before (err message) same = rolled_back
after_begin-Iteration w newest m first result backup before (ok x) same =
    after_locked-Iteration w newest m first result backup before
      (migrate_locked w newest (count_all_tables before) m (w.others_commit m.version before)) same
      (migrate_locked-Decided w newest m before (w.others_commit m.version before))

pub add_backup-applied :
    (result : MigrationRunResult) (backup : Option String)
    → (add_backup result backup).applied_versions ≡ result.applied_versions
add_backup-applied result none = refl
add_backup-applied result (some path) = refl

pub migrate_one-Iteration :
    (w : World) (options : RunMigrationsOptions) (m : Migration) (result : MigrationRunResult)
    (before : Database)
    → Iteration w
        (newest_known options.migrations)
        m
        result
        before
        (migrate_one w options (count_all_tables before) result m before)
unfolding migrate_one
migrate_one-Iteration w options m result before =
    elim (backup_database w options m.version (count_all_tables before))
      as (λ r. Iteration w (newest_known options.migrations) m result before (elim r [
        | err e ↦ (err e, before)
        | ok backup ↦
            after_begin w (newest_known options.migrations) (count_all_tables before)
              (add_backup result backup) backup m (w.others_commit m.version before)
              (w.begin_immediate m.version)
      ])) [
        | err e ↦ threw_early
        | ok backup ↦
            after_begin-Iteration w (newest_known options.migrations) m result
              (add_backup result backup) backup before (w.begin_immediate m.version)
              (add_backup-applied result backup)
      ]
