-- ===== src/Migrations/Completes.antt =====
-- runMigrations as a whole: a run that returns ends at the newest version of the list.
use agent_control_center_cor.Base.{
  ℕ, ◌<◌, ◌≤◌, ltb, arith, true, false, List, [], ◌∷◌, ok, err, Result-cases, Bool-cases, ltb→lt,
  ltb→le, inl, inr, ◌≡◌, refl, sym, ap, ◌∙◌, subst, if_lem, select_where,
}
use agent_control_center_cor.Migrations.{
  pos, Database, Migration, MigrationError, MigrationRunResult, read_user_version,
  assert_migration_list, count_all_tables,
}
use agent_control_center_cor.Migrations.Listed.{IsAscending, assert_migration_list_lem}
use agent_control_center_cor.Migrations.Forward.{err≢ok, refused_list}
use agent_control_center_cor.Migrations.Newest.{
  IsAt, IsAt-returned, cons≢nil, run_pending-newest, read_user_version-pos,
}
use agent_control_center_cor.Migrations.Run.{
  World, RunMigrationsOptions, run_migrations, run_from, run_pending, newest_known, is_pending,
  start,
}

pub newest_known-cons :
    (m : Migration) (ms : List Migration)
    → 0 < newest_known ms
    → newest_known (m ∷ ms) ≡ newest_known ms
unfolding newest_known
newest_known-cons m [] h = omega arith
newest_known-cons m (n ∷ ms) h = refl

-- The newest migration is pending as soon as the file is older than it.
pub newest_known-pending :
    (from : ℕ) (ms : List Migration)
    → from < newest_known ms
    → newest_known (select_where (is_pending from) ms) ≡ newest_known ms
unfolding newest_known select_where
newest_known-pending from [] h = omega arith
newest_known-pending from (m ∷ []) h =
    let pending : ltb from m.version ≡ true = ground arith in rw pending refl
newest_known-pending from (m ∷ n ∷ ms) h =
    let later = newest_known-pending from (n ∷ ms) h in
    if_lem (λ ps. newest_known ps ≡ newest_known (n ∷ ms)) (is_pending from m) _ _
      (λ pending.
        newest_known-cons m (select_where (is_pending from) (n ∷ ms)) (omega arith) ∙ later)
      (λ applied. later)

pub version-newest_known :
    (previous : ℕ) (m : Migration) (ms : List Migration)
    → IsAscending previous (m ∷ ms)
    → m.version ≤ newest_known (m ∷ ms)
unfolding newest_known
version-newest_known previous m [] up = omega arith
version-newest_known previous m (n ∷ ms) up =
    let later = version-newest_known m.version n ms up.1.1 in let above = up.1.1.0.0 in omega arith

pub nothing_pending :
    (previous from : ℕ) (ms : List Migration)
    → IsAscending previous ms
    → newest_known ms ≤ from
    → select_where (is_pending from) ms ≡ []
unfolding newest_known select_where
nothing_pending previous from [] up h = refl
nothing_pending previous from (m ∷ []) up h =
    let applied : ltb from m.version ≡ false = ground arith in rw applied refl
nothing_pending previous from (m ∷ n ∷ ms) up h =
    let below = version-newest_known previous m (n ∷ ms) up in
    let applied : ltb from m.version ≡ false = ground arith in
    let later = nothing_pending m.version from (n ∷ ms) up.1.1 h in rw applied later

selected-IsAt :
    (w : World) (options : RunMigrationsOptions) (from : ℕ) (db : Database) (ms : List Migration)
    → IsAscending 0 options.migrations
    → db.user_version ≡ pos from
    → from ≤ newest_known options.migrations
    → select_where (is_pending from) options.migrations ≡ ms
    → (result : MigrationRunResult) (after : Database)
    → run_pending w options ms (count_all_tables db) (start from) db ≡ (ok result, after)
    → IsAt (newest_known options.migrations) result after
unfolding run_pending newest_known
selected-IsAt w options from db [] up at_from known selected result after h =
    let is_newest : from ≡ newest_known options.migrations =
      elim (Bool-cases (ltb from (newest_known options.migrations))) [
        | inl is_older ↦
            let older = ltb→lt from (newest_known options.migrations) is_older in
            let last = newest_known-pending from options.migrations older in
            let none_there : newest_known (select_where (is_pending from) options.migrations) ≡ 0 =
              ap newest_known selected in
            omega arith
        | inr is_newer ↦
            let newer = ltb→le from (newest_known options.migrations) is_newer in omega arith
      ] in
    IsAt-returned (newest_known options.migrations) (start from) result db after
      (subst (λ n. IsAt n (start from) db) is_newest (at_from, refl)) h
selected-IsAt w options from db (m ∷ rest) up at_from known selected result after h =
    elim (Bool-cases (ltb from (newest_known options.migrations))) [
      | inl is_older ↦
          let older = ltb→lt from (newest_known options.migrations) is_older in
          run_pending-newest w options m rest
            (ap newest_known (sym selected) ∙ newest_known-pending from options.migrations older)
            (start from) db result after h
      | inr is_newer ↦
          let newer = ltb→le from (newest_known options.migrations) is_newer in
          absurd (cons≢nil (sym selected ∙ nothing_pending 0 from options.migrations up newer))
    ]

pub run_migrations-unread :
    (w : World) (options : RunMigrationsOptions) (db : Database) (e : MigrationError)
    → assert_migration_list options.migrations ≡ ok tt
    → read_user_version db ≡ err e
    → run_migrations w options db ≡ (err e, db)
unfolding run_migrations
run_migrations-unread w options db e accepted unread = rw (run_migrations, accepted, unread) refl

pub run_migrations-run_from :
    (w : World) (options : RunMigrationsOptions) (db : Database) (from : ℕ)
    → assert_migration_list options.migrations ≡ ok tt
    → read_user_version db ≡ ok from
    → run_migrations w options db ≡ run_from w options from db
unfolding run_migrations
run_migrations-run_from w options db from accepted reads = rw (run_migrations, accepted, reads) refl

run_from-newest :
    (w : World) (options : RunMigrationsOptions) (db : Database) (from : ℕ)
    → assert_migration_list options.migrations ≡ ok tt
    → read_user_version db ≡ ok from
    → (result : MigrationRunResult) (after : Database)
    → run_from w options from db ≡ (ok result, after)
    → IsAt (newest_known options.migrations) result after
unfolding run_from
run_from-newest w options db from accepted reads result after =
    if_lem (λ out. out ≡ (ok result, after) → IsAt (newest_known options.migrations) result after)
      (ltb (newest_known options.migrations) from) _ _
      (λ newer h. absurd (err≢ok _ result (ap (λ o. o.0) h)))
      (λ known h.
        selected-IsAt w options from db (select_where (is_pending from) options.migrations)
          ((assert_migration_list_lem options.migrations).0 accepted)
          (read_user_version-pos db from reads)
          (ltb→le (newest_known options.migrations) from known) refl result after h)

-- A run that returns has brought the file to the newest version of the list, and says so; if no
-- migration was pending, that was the file's version already.
pub run_migrations-newest :
    (w : World) (options : RunMigrationsOptions) (db : Database) (result : MigrationRunResult)
    (after : Database)
    → run_migrations w options db ≡ (ok result, after)
    → IsAt (newest_known options.migrations) result after
run_migrations-newest w options db result after h =
    elim (Result-cases (assert_migration_list options.migrations)) [
      | inr (e, refused) ↦
          absurd (err≢ok e result (ap (λ o. o.0) (sym (refused_list w options db e refused) ∙ h)))
      | inl (_, accepted) ↦ elim (Result-cases (read_user_version db)) [
        | inr (e, unread) ↦ absurd (
            err≢ok e result
              (ap (λ o. o.0) (sym (run_migrations-unread w options db e accepted unread) ∙ h)))
        | inl (from, reads) ↦
            run_from-newest w options db from accepted reads result after
              (sym (run_migrations-run_from w options db from accepted reads) ∙ h)
      ]
    ]
