-- ===== src/Migrations/Quiet.antt =====
-- runMigrations where nothing fails: it returns, with every pending migration applied.
use agent_control_center_cor.Base.{
  String, not, ◌||◌, is_some, eqb, All, ℕ, ◌<◌, ◌≤◌, ltb, leb, arith, true, false, Option, none,
  some, List, [], ◌∷◌, ◌++◌, ok, Bool-cases, ltb→lt, ltb→le, inl, inr, ◌≡◌, ◌≢◌, refl, sym, ap, ◌∙◌,
  subst, if_lem, select_where,
}
use agent_control_center_cor.Json.{max_safe_integer}
use mathlib.Core.List.{append_assoc, append-nil}
use agent_control_center_cor.Migrations.{
  pos, Database, Migration, MigrationRunResult, Counts, read_user_version, assert_migration_list,
  count_all_tables,
}
use agent_control_center_cor.Migrations.Listed.{IsAscending, assert_migration_list_lem}
use agent_control_center_cor.Migrations.Rows.{KeepsRows, KeepsRows-assert_no_rows_lost}
use agent_control_center_cor.Migrations.Forward.{IsAscending-weaken}
use agent_control_center_cor.Migrations.Completes.{
  version-newest_known, newest_known-pending, nothing_pending, run_migrations-run_from,
  run_migrations-newest,
}
use agent_control_center_cor.Migrations.Newest.{IsAt, cons≢nil}
use agent_control_center_cor.Migrations.Iteration.{stamped, add_backup-applied}
use agent_control_center_cor.Migrations.Run.{
  is_sound, backup_database, total, migrate_locked, migrate_under_lock, migrate, after_begin,
  after_locked, add_backup, World, RunMigrationsOptions, Outcome, run_migrations, run_from,
  run_pending, newest_known, migrate_one, next_iteration, is_pending, start,
}

-- On the files with `Good`, `up` returns, keeps the rows but for the changes that the migration
-- declares, and leaves a file with `Good`.
abbrev pub IsSafe : (Database → Type 0) → Migration → Type 0
IsSafe Good m =
    (db : Database)
    → Good db
    → (changed : Database) × ((m.up db ≡ ok changed)
        × (KeepsRows m (count_all_tables db) (count_all_tables (stamped m changed))
            × Good (stamped m changed)))

abbrev pub versions : List Migration → List ℕ
versions [] = []
versions (m ∷ ms) = m.version ∷ versions ms

IsAscending-fewer :
    (previous from : ℕ) (ms : List Migration)
    → IsAscending previous ms
    → IsAscending previous (select_where (is_pending from) ms)
unfolding select_where
IsAscending-fewer previous from [] up = tt
IsAscending-fewer previous from (m ∷ ms) up =
    let fewer = IsAscending-fewer m.version from ms up.1.1 in
    let above = up.0.0 in
    if_lem (IsAscending previous) (is_pending from m) _ _ (λ pending. (up.0, (up.1.0, fewer)))
      (λ applied.
        IsAscending-weaken previous m.version (select_where (is_pending from) ms) (omega arith)
          fewer)

IsAscending-select_where :
    (previous from : ℕ) (ms : List Migration)
    → IsAscending previous ms
    → IsAscending from (select_where (is_pending from) ms)
unfolding select_where
IsAscending-select_where previous from [] up = tt
IsAscending-select_where previous from (m ∷ ms) up =
    if_lem (IsAscending from) (is_pending from m) _ _
      (λ pending. (
        (ltb→lt from m.version pending, up.0.1),
        (up.1.0, IsAscending-fewer m.version from ms up.1.1),
      ))
      (λ applied. IsAscending-select_where m.version from ms up.1.1)

All-pending :
    (P : Migration → Type 0) (from : ℕ) (ms : List Migration)
    → All P ms
    → All P (select_where (is_pending from) ms)
unfolding select_where
All-pending P from [] h = tt
All-pending P from (m ∷ ms) h =
    if_lem (All P) (is_pending from m) _ _ (λ pending. (h.0, All-pending P from ms h.1))
      (λ applied. All-pending P from ms h.1)

-- Nothing fails around the migrations, and no other connection commits.
pub record IsQuiet (w : World) : Type 0 where
  pub alone : (v : ℕ) (db : Database) → w.others_commit v db ≡ db
  pub begins : (v : ℕ) → w.begin_immediate v ≡ ok tt
  pub commits : (v : ℕ) → w.commit v ≡ ok tt
  pub is_intact : (db : Database) → is_sound (w.integrity_check db) ≡ true
  pub backs_up : (v : ℕ) → (path : String) × (w.vacuum_into v ≡ ok path)

backup_database-returns :
    (w : World) (options : RunMigrationsOptions) (version : ℕ) (pre : Counts)
    → IsQuiet w
    → (backup : Option String) × (backup_database w options version pre ≡ ok backup)
unfolding backup_database
backup_database-returns w options version pre quiet =
    let (path, copied) = quiet.backs_up version in
    if_lem (λ r. (backup : Option String) × (r ≡ ok backup))
      (not (is_some options.database_path) || (eqb (w.file_size version) 0 || eqb (total pre) 0)) _
      _ (λ skipped. (none, refl)) (λ needed. (some path, rw copied refl))

migrate_locked-returns :
    (Good : Database → Type 0) (w : World) (newest : ℕ) (m : Migration) (db : Database)
    (current : ℕ)
    → IsQuiet w
    → IsSafe Good m
    → Good db
    → read_user_version db ≡ ok current
    → current < m.version
    → m.version ≤ newest
    → (changed : Database) × (Good (stamped m changed)
        × (migrate_locked w newest (count_all_tables db) m db
            ≡ ok (migrate (stamped m changed) (count_all_tables (stamped m changed)))))
unfolding migrate_locked migrate_under_lock
migrate_locked-returns Good w newest m db current quiet safe good reads older known =
    let (changed, (is_changed, (kept, stays))) = safe db good in
    let is_known : ltb newest current ≡ false = ground arith in
    let is_older : leb m.version current ≡ false = ground arith in
    let checked =
      KeepsRows-assert_no_rows_lost m (count_all_tables db) (count_all_tables (stamped m changed))
        kept in
    (
      changed,
      (stays, rw (reads, is_known, is_older, is_changed, checked, quiet.commits m.version) refl),
    )

-- An iteration that returns, with the version of its migration added
pub record Applied (Good : Database → Type 0) (w : World) (m : Migration)
    (result : MigrationRunResult) (out : Outcome (Counts × MigrationRunResult)) : Type 0 where
  pub result' : MigrationRunResult
  pub after : Database
  pub returns : out ≡ (ok (count_all_tables after, result'), after)
  pub stays : Good after
  pub is_stamped : after.user_version ≡ pos m.version
  pub is_added : result'.applied_versions ≡ result.applied_versions ++ m.version ∷ []

migrate_one-Applied :
    (Good : Database → Type 0) (w : World) (options : RunMigrationsOptions)
    (result : MigrationRunResult) (m : Migration) (db : Database) (current : ℕ)
    → IsQuiet w
    → IsSafe Good m
    → Good db
    → read_user_version db ≡ ok current
    → current < m.version
    → m.version ≤ newest_known options.migrations
    → Applied Good w m result (migrate_one w options (count_all_tables db) result m db)
unfolding migrate_one after_begin after_locked
migrate_one-Applied Good w options result m db current quiet safe good reads older known =
    let newest = newest_known options.migrations in
    let (backup, backed_up) =
      backup_database-returns w options m.version (count_all_tables db) quiet in
    let (changed, (stays, locked)) =
      migrate_locked-returns Good w newest m db current quiet safe good reads older known in
    let next = stamped m changed in
    record {
      result' = record (add_backup result backup) {
        applied_versions = (add_backup result backup).applied_versions ++ m.version ∷ [];
        to_version = m.version;
      };
      after = next;
      returns =
          rw
            (
              migrate_one,
              backed_up,
              quiet.begins m.version,
              quiet.alone m.version db,
              after_begin,
              locked,
              after_locked,
              quiet.is_intact next,
            )
            refl;
      is_stamped = refl;
      stays = stays;
      is_added = ap (λ vs. vs ++ m.version ∷ []) (add_backup-applied result backup);
    }

user_version-reads :
    (db : Database) (v : ℕ)
    → v ≤ max_safe_integer
    → db.user_version ≡ pos v
    → read_user_version db ≡ ok v
unfolding read_user_version
user_version-reads db v safe h =
    let is_safe : leb v max_safe_integer ≡ true = ground arith in rw (h, is_safe) refl

-- The end of a run that returns, with these versions applied
abbrev pub Returns : List ℕ → Outcome MigrationRunResult → Type 0
Returns vs out =
    (result : MigrationRunResult) × ((after : Database) × ((out ≡ (ok result, after))
        × (result.applied_versions ≡ vs)))

newest_known-rest :
    (m : Migration) (ms : List Migration) (newest : ℕ)
    → ((m ∷ ms) ≢ [] → newest_known (m ∷ ms) ≡ newest)
    → ms ≢ []
    → newest_known ms ≡ newest
unfolding newest_known
newest_known-rest m [] newest last ne = absurd (ne refl)
newest_known-rest m (n ∷ ms) newest last ne = last cons≢nil

run_pending-Returns :
    (Good : Database → Type 0) (w : World) (options : RunMigrationsOptions)
    (result : MigrationRunResult) (ms : List Migration) (db : Database) (current : ℕ)
    → IsQuiet w
    → All (IsSafe Good) ms
    → Good db
    → read_user_version db ≡ ok current
    → IsAscending current ms
    → (ms ≢ [] → newest_known ms ≡ newest_known options.migrations)
    → Returns
        (result.applied_versions ++ versions ms)
        (run_pending w options ms (count_all_tables db) result db)
unfolding run_pending
run_pending-Returns Good w options result [] db current quiet safe good reads up last =
    (result, (db, (refl, sym (append-nil result.applied_versions))))
run_pending-Returns Good w options result (m ∷ ms) db current quiet safe good reads up last =
    let known : m.version ≤ newest_known options.migrations =
      subst (λ n. m.version ≤ n) (last cons≢nil) (version-newest_known current m ms up) in
    let one =
      migrate_one-Applied Good w options result m db current quiet safe.0 good reads up.0.0 known in
    let (end, (after, (returns, is_added))) =
      run_pending-Returns Good w options one.result' ms one.after m.version quiet safe.1 one.stays
        (user_version-reads one.after m.version up.0.1 one.is_stamped) up.1.1
        (newest_known-rest m ms (newest_known options.migrations) last) in
    (
      end,
      (
        after,
        (
          ap (next_iteration (run_pending w options ms)) one.returns ∙ returns,
          is_added
              ∙ (ap (λ vs. vs ++ versions ms) one.is_added
                  ∙ append_assoc result.applied_versions (m.version ∷ []) (versions ms)),
        ),
      ),
    )

run_from-Returns :
    (Good : Database → Type 0) (w : World) (options : RunMigrationsOptions) (db : Database)
    (from : ℕ)
    → IsQuiet w
    → All (IsSafe Good) options.migrations
    → Good db
    → read_user_version db ≡ ok from
    → IsAscending 0 options.migrations
    → from ≤ newest_known options.migrations
    → Returns
        (versions (select_where (is_pending from) options.migrations))
        (run_from w options from db)
unfolding run_from
run_from-Returns Good w options db from quiet safe good reads up known =
    if_lem (Returns (versions pending)) (ltb (newest_known options.migrations) from) _ _
      (λ newer. absurd (omega (arith, ltb→lt (newest_known options.migrations) from newer)))
      (λ older.
        run_pending-Returns Good w options (start from) pending db from quiet
          (All-pending (IsSafe Good) from options.migrations safe) good reads
          (IsAscending-select_where 0 from options.migrations up) reaches)
  where
    pending : List Migration
    pending = select_where (is_pending from) options.migrations

    reaches :
        select_where (is_pending from) options.migrations ≢ []
        → newest_known (select_where (is_pending from) options.migrations)
          ≡ newest_known options.migrations
    reaches ne = elim (Bool-cases (ltb from (newest_known options.migrations))) [
      | inl older ↦ newest_known-pending from options.migrations (ltb→lt from _ older)
      | inr newer ↦ absurd (ne (nothing_pending 0 from options.migrations up (ltb→le from _ newer)))
    ]

-- Where nothing fails around the migrations, no other connection commits, and every `up` returns
-- and keeps its rows on the files with a property that the file has and every `up` keeps,
-- a run of an accepted list on a file that is not newer than the list returns: it has applied
-- the migrations above the file's version, each once and in the order of the list, and the file
-- is at the newest version.
pub run_migrations-completes :
    (Good : Database → Type 0) (w : World) (options : RunMigrationsOptions) (db : Database)
    (from : ℕ)
    → IsQuiet w
    → All (IsSafe Good) options.migrations
    → Good db
    → assert_migration_list options.migrations ≡ ok tt
    → read_user_version db ≡ ok from
    → from ≤ newest_known options.migrations
    → (result : MigrationRunResult) × ((after : Database) × ((run_migrations w options db
            ≡ (ok result, after))
          × ((result.applied_versions
                ≡ versions (select_where (is_pending from) options.migrations))
              × IsAt (newest_known options.migrations) result after)))
run_migrations-completes Good w options db from quiet safe good accepted reads known =
    let (result, (after, (returns, applied))) =
      run_from-Returns Good w options db from quiet safe good reads
        ((assert_migration_list_lem options.migrations).0 accepted) known in
    let ends = run_migrations-run_from w options db from accepted reads ∙ returns in
    (result, (after, (ends, (applied, run_migrations-newest w options db result after ends))))
