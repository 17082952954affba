-- ===== src/Migrations/Committed.antt =====
-- runMigrations as a sequence of whole migrations: what is committed, in which order, and that a
-- migration which throws commits nothing.
use agent_control_center_cor.Base.{
  ℕ, Bool, true, false, List, [], ◌∷◌, ◌++◌, ltb, Result, ok, err, ◌>>◌, if_lem, if◌then◌else◌,
  select_where, ◌≡◌, sym, ap, ◌∙◌, subst,
}
use mathlib.Core.List.{append_assoc, append-nil}
use agent_control_center_cor.Migrations.{
  assert_migration_list, Database, Migration, MigrationError, MigrationRunResult, Counts,
  read_user_version, count_all_tables,
}
use agent_control_center_cor.Migrations.Iteration.{
  IsMigrated, Iteration, threw_early, rolled_back, unsound, skipped, migrated,
  migrate_one-Iteration,
}
use agent_control_center_cor.Migrations.Run.{
  World, RunMigrationsOptions, migrate_one, run_pending, is_pending, start, run_from,
  run_migrations, newest_known, next_iteration, Outcome,
}

-- The files that the migrations lead to, with the versions that were committed: nothing
-- more happens, the first migration is passed over, with what other connections commit or without,
-- or it is committed.
pub data Commits (w : World) : List Migration → List ℕ → Database → Database → Type 0 where
  stop : {ms : List Migration} {db : Database} → Commits w ms [] db db
  drop :
      {m : Migration} {ms : List Migration} {vs : List ℕ} {a c : Database}
      → Commits w ms vs a c
      → Commits w (m ∷ ms) vs a c
  pass :
      {m : Migration} {ms : List Migration} {vs : List ℕ} {a c : Database}
      → Commits w ms vs (w.others_commit m.version a) c
      → Commits w (m ∷ ms) vs a c
  commit :
      {m : Migration} {ms : List Migration} {vs : List ℕ} {a b c : Database}
      → IsMigrated m a (w.others_commit m.version a) b
      → Commits w ms vs b c
      → Commits w (m ∷ ms) (m.version ∷ vs) a c

-- A run over pending migrations, from `first` and with `first`'s result, that ended with `out`
pub record Ran (w : World) (ms : List Migration) (result : MigrationRunResult) (before : Database)
    (out : Outcome MigrationRunResult) : Type 0 where
  pub versions : List ℕ
  pub commits : Commits w ms versions before out.1
  pub reports :
      (result' : MigrationRunResult)
      → out.0 ≡ ok result'
      → result'.applied_versions ≡ result.applied_versions ++ versions

stopped :
    (w : World) (ms : List Migration) (result : MigrationRunResult) (before after : Database)
    (e : MigrationError) (vs : List ℕ)
    → Commits w ms vs before after
    → Ran w ms result before (err e, after)
stopped w ms result before after e vs commits = record {
  versions = vs;
  commits = commits;
  reports = λ result' h. cc;
}

Ran-step :
    (w : World) (options : RunMigrationsOptions) (m : Migration) (rest : List Migration)
    (newest : ℕ) (result : MigrationRunResult) (before : Database)
    (out : Outcome (Counts × MigrationRunResult))
    → ((next : MigrationRunResult) (db : Database)
        → Ran w rest next db (run_pending w options rest (count_all_tables db) next db))
    → Iteration w newest m result before out
    → Ran w (m ∷ rest) result before (next_iteration (run_pending w options rest) out)
Ran-step w options m rest newest result before _ later threw_early =
    stopped w (m ∷ rest) result before before _ [] stop
Ran-step w options m rest newest result before _ later rolled_back =
    stopped w (m ∷ rest) result before (w.others_commit m.version before) _ [] (pass stop)
Ran-step w options m rest newest result before _ later (unsound {e} {after} is_migrated) =
    stopped w (m ∷ rest) result before after e (m.version ∷ []) (commit is_migrated stop)
Ran-step w options m rest newest result before _ later
      (skipped {result' = next} is_current there known same to) =
    let ran = later next (w.others_commit m.version before) in
    record {
      versions = ran.versions;
      commits = pass ran.commits;
      reports = λ result' h. ran.reports result' h ∙ ap (λ vs. vs ++ ran.versions) same;
    }
Ran-step w options m rest newest result before _ later
      (migrated {result' = next} {after} {post} is_migrated is_counted added to) =
    subst (λ counts. Ran w (m ∷ rest) result before (run_pending w options rest counts next after))
      (sym is_counted)
      (let ran = later next after in
        record {
          versions = m.version ∷ ran.versions;
          commits = commit is_migrated ran.commits;
          reports = λ result' h.
              ran.reports result' h
              ∙ (ap (λ vs. vs ++ ran.versions) added
                  ∙ append_assoc result.applied_versions (m.version ∷ []) ran.versions);
        })

same_result :
    (result' result : MigrationRunResult)
    → ◌≡◌ {A = Result MigrationError MigrationRunResult} (ok result) (ok result')
    → result' ≡ result
same_result result' result h = cc

pub run_pending-Ran :
    (w : World) (options : RunMigrationsOptions) (ms : List Migration) (result : MigrationRunResult)
    (before : Database)
    → Ran w ms result before (run_pending w options ms (count_all_tables before) result before)
unfolding run_pending
run_pending-Ran w options [] result before = record {
  versions = [];
  commits = stop;
  reports = λ result' h.
      ap (λ r. r.applied_versions) (same_result result' result h)
      ∙ sym (append-nil result.applied_versions);
}
run_pending-Ran w options (m ∷ rest) result before =
    Ran-step w options m rest (newest_known options.migrations) result before
      (migrate_one w options (count_all_tables before) result m before)
      (run_pending-Ran w options rest) (migrate_one-Iteration w options m result before)

under_head :
    (w : World) (m : Migration) (fewer ms : List Migration)
    → ((vs : List ℕ) (a c : Database) → Commits w fewer vs a c → Commits w ms vs a c)
    → (vs : List ℕ) (a c : Database) → Commits w (m ∷ fewer) vs a c
    → Commits w (m ∷ ms) vs a c
under_head w m fewer ms widen _ a _ stop = stop
under_head w m fewer ms widen vs a c (drop h) = drop (widen vs a c h)
under_head w m fewer ms widen vs a c (pass h) = pass (widen vs (w.others_commit m.version a) c h)
under_head w m fewer ms widen _ a c (commit {vs = vs} {b = b} is_migrated h) =
    commit is_migrated (widen vs b c h)

Commits-select_where :
    (w : World) (from : ℕ) (ms : List Migration) (vs : List ℕ) (a c : Database)
    → Commits w (select_where (is_pending from) ms) vs a c
    → Commits w ms vs a c
unfolding select_where
Commits-select_where w from [] vs a c h = h
Commits-select_where w from (m ∷ ms) vs a c h =
    selected (Commits-select_where w from ms) (is_pending from m) h
  where
    selected :
        ((vs : List ℕ) (a c : Database)
          → Commits w (select_where (is_pending from) ms) vs a c
          → Commits w ms vs a c)
        → (b : Bool)
        → Commits w
            (if b then m ∷ select_where (is_pending from) ms else select_where (is_pending from) ms)
            vs
            a
            c
        → Commits w (m ∷ ms) vs a c
    selected widen true k = under_head w m (select_where (is_pending from) ms) ms widen vs a c k
    selected widen false k = drop (widen vs a c k)

-- A run of the migrations, as a whole
pub run_migrations-Ran :
    (w : World) (options : RunMigrationsOptions) (db : Database)
    → Ran w options.migrations (start 0) db (run_migrations w options db)
unfolding run_migrations run_from
run_migrations-Ran w options db =
    checked (assert_migration_list options.migrations >> read_user_version db)
  where
    refused : (e : MigrationError) → Ran w options.migrations (start 0) db (err e, db)
    refused e = stopped w options.migrations (start 0) db db e [] stop

    known : (from : ℕ) → Ran w options.migrations (start 0) db (run_from w options from db)
    known from =
        if_lem (Ran w options.migrations (start 0) db) (ltb (newest_known options.migrations) from)
          _ _ (λ newer. refused _)
          λ older.
            let ran =
              run_pending-Ran w options (select_where (is_pending from) options.migrations)
                (start from) db in
            record {
              versions = ran.versions;
              commits =
                  Commits-select_where w from options.migrations ran.versions db _ ran.commits;
              reports = ran.reports;
            }

    checked :
        (r : Result MigrationError ℕ)
        → Ran w options.migrations
            (start 0)
            db
            (elim r [ err e ↦ (err e, db) | ok from ↦ run_from w options from db ])
    checked (err e) = refused e
    checked (ok from) = known from

-- Whatever a run returns or throws, the file that it leaves is the result of whole migrations of
-- the list, each in its place: every one of them found under the lock a version below its own,
-- `up` returned, the rows that were counted before the lock are kept but for the declared changes,
-- and the version is stamped. A run that returns reports exactly these migrations.
pub run_migrations-Commits :
    (w : World) (options : RunMigrationsOptions) (db : Database)
    → (vs : List ℕ) × (Commits w options.migrations vs db (run_migrations w options db).1
        × ((result : MigrationRunResult)
            → (run_migrations w options db).0 ≡ ok result
            → result.applied_versions ≡ vs))
run_migrations-Commits w options db =
    let ran = run_migrations-Ran w options db in (ran.versions, (ran.commits, ran.reports))
