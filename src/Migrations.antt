-- ===== src/Migrations.antt =====
-- src/migrations/runner.ts: the migration runner that PRAGMA user_version drives.
pub mod Run
pub mod Rows
pub mod Iteration
pub mod Committed
pub mod Listed
pub mod Forward
pub mod Newest
pub mod Completes
pub mod Quiet
pub mod Tests
use agent_control_center_cor.Base.{
  ℕ, suc, ◌+◌, String, Bool, true, false, not, ◌&&◌, Option, none, some, List, [], ◌∷◌, ◌++◌, ltb,
  leb, eqb, ◌==◌, length, order_by, select_where, if◌then◌else◌, Result, ok, err, map_err, map,
  ◌>>=◌, ◌>>◌, require,
}
use agent_control_center_cor.Base.Text.{trim, text_before, like_longer}
use agent_control_center_cor.Json.{Json, max_safe_integer}

pub data ℤ : Type 0 where
  pos : ℕ → ℤ
  negsuc : ℕ → ℤ

pub record Table : Type 0 where
  pub name : String
  pub rows : List Json

-- What a connection sees of the file: PRAGMA user_version and the tables of sqlite_master.
pub record Database : Type 0 where
  pub user_version : ℤ
  pub tables : List Table

-- `Migration`. A version below 1 is 0 here, which the check of the list refuses as it does any
-- version below 1. `up` throws, or leaves what its transaction then holds.
pub record Migration : Type 0 where
  pub version : ℕ
  pub name : String
  pub expected_row_delta : List (String × ℤ)
  pub up : Database → Result String Database

-- `MigrationVersionError`, the cases of `MigrationIntegrityError`, and what else is thrown
pub data MigrationError : Type 0 where
  not_positive : ℕ → MigrationError
  not_ascending : ℕ → ℕ → MigrationError
  unnamed : ℕ → MigrationError
  version_error : ℕ → ℕ → MigrationError
  invalid_user_version : ℤ → MigrationError
  dropped_table : ℕ → String → MigrationError
  lost_rows : ℕ → String → ℕ → ℕ → MigrationError
  integrity_failed : ℕ → Option String → Option String → MigrationError
  thrown : String → MigrationError

pub record MigrationRunResult : Type 0 where
  pub from_version : ℕ
  pub to_version : ℕ
  pub applied_versions : List ℕ
  pub backup_paths : List String

-- `assertMigrationList`, after the migrations whose last version is `previous`
unfoldable pub assert_ascending : ℕ → List Migration → Result MigrationError (Unit {0})
assert_ascending previous [] = ok tt
assert_ascending previous (m ∷ rest) = do
  require (leb m.version max_safe_integer && leb 1 m.version) (not_positive m.version)
  require (ltb previous m.version) (not_ascending m.version previous)
  require (not (trim m.name == "")) (unnamed m.version)
  assert_ascending m.version rest

unfoldable pub assert_migration_list : List Migration → Result MigrationError (Unit {0})
unfolding assert_ascending
assert_migration_list migrations = assert_ascending 0 migrations

unfoldable pub read_user_version : Database → Result MigrationError ℕ
read_user_version db = elim db.user_version [
  | pos version ↦
      if leb version max_safe_integer then ok version else err (invalid_user_version (pos version))
  | negsuc k ↦ err (invalid_user_version (negsuc k))
]

abbrev pub Counts : Type 0
Counts = List (String × ℕ)

-- `name NOT LIKE 'sqlite_%'`: in LIKE the underscore is any one character, and the case of
-- ASCII letters is folded.
abbrev pub is_user_table : Table → Bool
is_user_table table = not (like_longer "sqlite" table.name)

abbrev pub count_rows : Table → String × ℕ
count_rows table = (table.name, length table.rows)

unfoldable pub count_all_tables : Database → Counts
count_all_tables db =
    map count_rows
      (order_by (λ a b. text_before a.name b.name) (select_where is_user_table db.tables))

-- `record[name]` or `map.get(name)`
abbrev pub entry {ℓ} : {A : Type ℓ} → String → List (String × A) → Option A
entry name [] = none
entry name (x ∷ rest) = if x.0 == name then some x.1 else entry name rest

-- `next < previous + delta`
unfoldable pub is_below : ℕ → ℕ → ℤ → Bool
is_below next previous (pos d) = ltb next (previous + d)
is_below next previous (negsuc k) = ltb (next + suc k) previous

-- The loop's body, for a table that had `previous` rows
unfoldable pub check_table :
    Migration → String → ℕ → Option ℕ → Option ℤ → Result MigrationError (Unit {0})
unfolding is_below
check_table m table previous none (some declared) = ok tt
check_table m table previous none none = err (dropped_table m.version table)
check_table m table previous (some next) none =
    require (not (is_below next previous (pos 0))) (lost_rows m.version table previous next)
check_table m table previous (some next) (some declared) =
    require (not (is_below next previous declared)) (lost_rows m.version table previous next)

unfoldable pub assert_no_rows_lost : Counts → Counts → Migration → Result MigrationError (Unit {0})
unfolding check_table
assert_no_rows_lost [] after m = ok tt
assert_no_rows_lost (x ∷ before) after m = do
  check_table m x.0 x.1 (entry x.0 after) (entry x.0 m.expected_row_delta)
  assert_no_rows_lost before after m
