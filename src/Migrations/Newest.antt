-- ===== src/Migrations/Newest.antt =====
-- A run that returns has brought the file to the newest version that the list knows.
use agent_control_center_cor.Base.{
  ℕ, leb, arith, List, [], ◌∷◌, Result, ok, err, ◌≡◌, ◌≢◌, refl, sym, ap, ◌∙◌, subst, if◌then◌else◌,
}
use agent_control_center_cor.Json.{max_safe_integer}
use agent_control_center_cor.Migrations.{
  ℤ, pos, negsuc, Database, Migration, MigrationError, MigrationRunResult, Counts,
  read_user_version, invalid_user_version, count_all_tables,
}
use agent_control_center_cor.Migrations.Forward.{err≢ok}
use agent_control_center_cor.Migrations.Iteration.{
  IsMigrated, Iteration, threw_early, rolled_back, unsound, skipped, migrated,
  migrate_one-Iteration,
}
use agent_control_center_cor.Migrations.Run.{
  World, RunMigrationsOptions, Outcome, run_pending, newest_known, migrate_one, next_iteration,
}

-- The file and the result both say the version.
abbrev pub IsAt : ℕ → MigrationRunResult → Database → Type 0
IsAt version result db = (db.user_version ≡ pos version) × (result.to_version ≡ version)

pub read_user_version-pos :
    (db : Database) (v : ℕ) → read_user_version db ≡ ok v → db.user_version ≡ pos v
unfolding read_user_version
read_user_version-pos db v h = read (db.user_version) h
  where
    read :
        (z : ℤ)
        → ◌≡◌ {A = Result MigrationError ℕ}
            (elim z [
              | pos version ↦
                  if leb version max_safe_integer
                  then ok version
                  else err (invalid_user_version (pos version))
              | negsuc k ↦ err (invalid_user_version (negsuc k))
            ])
            (ok v)
        → z ≡ pos v
    read (pos n) k = ground arith
    read (negsuc n) k = cc

IsMigrated-version :
    (m : Migration) (before locked after : Database)
    → IsMigrated m before locked after
    → after.user_version ≡ pos m.version
IsMigrated-version m before locked after h = ap (λ db. db.user_version) h.is_stamped

-- The file and the result after an iteration that goes on
pub data WentOn (newest : ℕ) (m : Migration) : Outcome (Counts × MigrationRunResult) → Type 0 where
  threw : {e : MigrationError} {db : Database} → WentOn newest m (err e, db)
  at_version :
      {v : ℕ} {counts : Counts} {result : MigrationRunResult} {db : Database}
      → IsAt v result db
      → counts ≡ count_all_tables db
      → (m.version ≡ newest → v ≡ newest)
      → WentOn newest m (ok (counts, result), db)

Iteration-WentOn :
    (w : World) (newest : ℕ) (m : Migration) (result : MigrationRunResult) (before : Database)
    (out : Outcome (Counts × MigrationRunResult))
    → Iteration w newest m result before out
    → WentOn newest m out
Iteration-WentOn w newest m result before _ threw_early = threw
Iteration-WentOn w newest m result before _ rolled_back = threw
Iteration-WentOn w newest m result before _ (unsound h) = threw
Iteration-WentOn w newest m result before _
      (skipped {current = current} reads there known same to) =
    at_version (read_user_version-pos (w.others_commit m.version before) current reads, to) refl
      (λ last. omega arith)
Iteration-WentOn w newest m result before _ (migrated {after = after} h counted added to) =
    at_version (IsMigrated-version m before (w.others_commit m.version before) after h, to) counted
      (λ last. last)

pub IsAt-returned :
    (version : ℕ) (result result' : MigrationRunResult) (db db' : Database)
    → IsAt version result db
    → ◌≡◌ {A = Outcome MigrationRunResult} (ok result, db) (ok result', db')
    → IsAt version result' db'
IsAt-returned version result result' db db' (at_file, at_result) h =
    let same_db : db ≡ db' = ap (λ o. o.1) h in
    let same_result : result ≡ result' = cc in
    (
      ap (λ x. x.user_version) (sym same_db) ∙ at_file,
      ap (λ x. x.to_version) (sym same_result) ∙ at_result,
    )

pub cons≢nil : {A : Type 0} {x : A} {xs : List A} → (x ∷ xs) ≢ []
cons≢nil h = cc

-- The migrations that are left bring the file and the result to the newest version.
abbrev pub EndsAtNewest : World → RunMigrationsOptions → ℕ → List Migration → Type 0
EndsAtNewest w options newest ms =
    (result : MigrationRunResult) (before : Database) (result' : MigrationRunResult)
    (after : Database)
    → run_pending w options ms (count_all_tables before) result before ≡ (ok result', after)
    → IsAt newest result' after

after_iteration :
    (w : World) (options : RunMigrationsOptions) (newest : ℕ) (m : Migration)
    (rest : List Migration)
    → newest_known (m ∷ rest) ≡ newest
    → (rest ≢ [] → EndsAtNewest w options newest rest)
    → (out : Outcome (Counts × MigrationRunResult)) (result' : MigrationRunResult)
      (after : Database)
    → WentOn newest m out
    → next_iteration (run_pending w options rest) out ≡ (ok result', after)
    → IsAt newest result' after
unfolding newest_known run_pending
after_iteration w options newest m rest last later _ result' after (threw {e} {db}) h =
    absurd (err≢ok e result' (ap (λ o. o.0) h))
after_iteration w options newest m [] last later _ result' after
      (at_version {v} {counts} {result} {db} is_at counted ends) h =
    IsAt-returned newest result result' db after (subst (λ n. IsAt n result db) (ends last) is_at) h
after_iteration w options newest m (n ∷ rest) last later _ result' after
      (at_version {v} {counts} {result} {db} is_at counted ends) h =
    later (λ e. cons≢nil e) result db result' after
      (ap (λ c. run_pending w options (n ∷ rest) c result db) (sym counted) ∙ h)

pub run_pending-newest :
    (w : World) (options : RunMigrationsOptions) (m : Migration) (rest : List Migration)
    → newest_known (m ∷ rest) ≡ newest_known options.migrations
    → EndsAtNewest w options (newest_known options.migrations) (m ∷ rest)
unfolding run_pending newest_known
run_pending-newest w options m [] last result before result' after h =
    let newest = newest_known options.migrations in
    let out = migrate_one w options (count_all_tables before) result m before in
    after_iteration w options newest m [] last (λ ne. absurd (ne refl)) out result' after
      (Iteration-WentOn w newest m result before out
        (migrate_one-Iteration w options m result before))
      h
run_pending-newest w options m (n ∷ rest) last result before result' after h =
    let newest = newest_known options.migrations in
    let out = migrate_one w options (count_all_tables before) result m before in
    after_iteration w options newest m (n ∷ rest) last
      (λ ne. run_pending-newest w options n rest last) out result' after
      (Iteration-WentOn w newest m result before out
        (migrate_one-Iteration w options m result before))
      h
