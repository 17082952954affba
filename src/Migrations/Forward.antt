-- ===== src/Migrations/Forward.antt =====
-- runMigrations moves the file's version forward only, and commits each migration at most once.
use agent_control_center_cor.Base.{
  ℕ, ◌<◌, ◌≤◌, leb, arith, true, List, [], ◌∷◌, Result, ok, err, Result-cases, inl, inr, ◌≢◌, ◌≡◌,
  refl, sym, ap, ◌∙◌,
}
use agent_control_center_cor.Json.{max_safe_integer}
use agent_control_center_cor.Migrations.{
  Database, Migration, MigrationError, MigrationRunResult, read_user_version, assert_migration_list,
}
use agent_control_center_cor.Migrations.Listed.{IsAscending, assert_migration_list_lem}
use agent_control_center_cor.Migrations.Iteration.{IsMigrated}
use agent_control_center_cor.Migrations.Committed.{
  Commits, stop, drop, pass, commit, run_migrations-Commits,
}
use agent_control_center_cor.Migrations.Run.{World, RunMigrationsOptions, run_migrations}

-- From the first version up through those in between, each above the one before, to the last
abbrev pub Ascends : ℕ → List ℕ → ℕ → Type 0
Ascends from [] to = from ≤ to
Ascends from (v ∷ vs) to = (from < v) × Ascends v vs to

-- What the file reads and is, on the way to `to`
abbrev pub MovesForward : ℕ → List ℕ → Database → Type 0
MovesForward from vs db = (to : ℕ) × ((read_user_version db ≡ ok to) × Ascends from vs to)

Ascends-weaken :
    (lower from : ℕ) (vs : List ℕ) (to : ℕ)
    → lower ≤ from
    → Ascends from vs to
    → Ascends lower vs to
Ascends-weaken lower from [] to h k = omega arith
Ascends-weaken lower from (v ∷ vs) to h k = (omega (arith, h, k.0), k.1)

MovesForward-weaken :
    (lower from : ℕ) (vs : List ℕ) (db : Database)
    → lower ≤ from
    → MovesForward from vs db
    → MovesForward lower vs db
MovesForward-weaken lower from vs db h (to, (reads, ascends)) =
    (to, (reads, Ascends-weaken lower from vs to h ascends))

pub IsAscending-weaken :
    (lower from : ℕ) (ms : List Migration)
    → lower ≤ from
    → IsAscending from ms
    → IsAscending lower ms
IsAscending-weaken lower from [] h k = tt
IsAscending-weaken lower from (m ∷ ms) h ((above, safe), later) = ((omega arith, safe), later)

pub IsMigrated-reads :
    (m : Migration) (before locked after : Database)
    → m.version ≤ max_safe_integer
    → IsMigrated m before locked after
    → read_user_version after ≡ ok m.version
unfolding read_user_version
IsMigrated-reads m before locked after safe h =
    let is_safe : leb m.version max_safe_integer ≡ true = ground arith in
    rw (h.is_stamped, is_safe) refl

Commits-forward :
    (w : World)
    → ((v : ℕ) (db : Database) (a : ℕ)
        → read_user_version db ≡ ok a
        → (b : ℕ) × ((read_user_version (w.others_commit v db) ≡ ok b) × (a ≤ b)))
    → (lower : ℕ) (ms : List Migration) → IsAscending lower ms
    → (vs : List ℕ) (a c : Database) (from : ℕ) → read_user_version a ≡ ok from
    → Commits w ms vs a c
    → MovesForward from vs c
Commits-forward w others lower ms up _ a _ from reads stop = (from, (reads, omega arith))
Commits-forward w others lower (m ∷ ms) up vs a c from reads (drop h) =
    Commits-forward w others m.version ms up.1.1 vs a c from reads h
Commits-forward w others lower (m ∷ ms) up vs a c from reads (pass h) =
    let (now, (now_reads, later)) = others m.version a from reads in
    MovesForward-weaken from now vs c later (
      Commits-forward w others m.version ms up.1.1 vs (w.others_commit m.version a) c now now_reads
        h)
Commits-forward w others lower (m ∷ ms) up _ a c from reads
      (commit {vs = vs} {b = b} is_migrated h) =
    let (now, (now_reads, later)) = others m.version a from reads in
    let (to, (to_reads, ascends)) =
      Commits-forward w others m.version ms up.1.1 vs b c m.version
        (IsMigrated-reads m a (w.others_commit m.version a) b up.0.1 is_migrated) h in
    let same : now ≡ is_migrated.current =
      same_value now is_migrated.current (sym now_reads ∙ is_migrated.is_current) in
    let older = is_migrated.is_older in (to, (to_reads, (omega arith, ascends)))
  where
    same_value : (a b : ℕ) → ◌≡◌ {A = Result MigrationError ℕ} (ok a) (ok b) → a ≡ b
    same_value a b h = cc

pub err≢ok :
    (e : MigrationError) (result : MigrationRunResult)
    → ◌≢◌ {A = Result MigrationError MigrationRunResult} (err e) (ok result)
err≢ok e result h = cc

-- A run whose list is refused writes nothing.
pub refused_list :
    (w : World) (options : RunMigrationsOptions) (db : Database) (e : MigrationError)
    → assert_migration_list options.migrations ≡ err e
    → run_migrations w options db ≡ (err e, db)
unfolding run_migrations
refused_list w options db e h = rw (run_migrations, h) refl

-- Where no other process lowers the version of the file, no run does: the version that the file
-- has at its end is reached from the first one through the versions of the committed
-- migrations, each above the one before, so that none is committed twice; a run that returns
-- reports these versions.
pub run_migrations-forward :
    (w : World)
    → ((v : ℕ) (db : Database) (a : ℕ)
        → read_user_version db ≡ ok a
        → (b : ℕ) × ((read_user_version (w.others_commit v db) ≡ ok b) × (a ≤ b)))
    → (options : RunMigrationsOptions) (db : Database) (from : ℕ) → read_user_version db ≡ ok from
    → (vs : List ℕ) × (MovesForward from vs (run_migrations w options db).1
        × ((result : MigrationRunResult)
            → (run_migrations w options db).0 ≡ ok result
            → result.applied_versions ≡ vs))
run_migrations-forward w others options db from reads =
    elim (Result-cases (assert_migration_list options.migrations)) [
      | inl (_, accepted) ↦
          let (vs, (commits, reports)) = run_migrations-Commits w options db in
          (
            vs,
            (
              Commits-forward w others 0 options.migrations
                  ((assert_migration_list_lem options.migrations).0 accepted) vs db
                  (run_migrations w options db).1 from reads commits,
              reports,
            ),
          )
      | inr (e, refused) ↦
          let unchanged = refused_list w options db e refused in
          (
            [],
            (
              (from, (ap (λ o. read_user_version o.1) unchanged ∙ reads, omega arith)),
              λ result h. absurd (err≢ok e result (sym (ap (λ o. o.0) unchanged) ∙ h)),
            ),
          )
    ]
