-- ===== src/Migrations/Listed.antt =====
-- assertMigrationList against a description of the lists that it accepts.
use agent_control_center_cor.Base.{
  ℕ, ◌<◌, ◌≤◌, true, false, not, ◌&&◌, List, [], ◌∷◌, ltb, leb, ◌==◌, arith, ok, bind-returns,
  require, require-returns, ◌≡◌, refl, ◌↔◌, ltb→lt, leb→le,
}
use agent_control_center_cor.Base.Text.{trim}
use agent_control_center_cor.Json.{max_safe_integer}
use agent_control_center_cor.Migrations.{
  Migration, not_positive, not_ascending, unnamed, assert_ascending, assert_migration_list,
}

-- The versions go up from above `previous`, none is past the safe integers, and each has a name.
abbrev pub IsAscending : ℕ → List Migration → Type 0
IsAscending previous [] = Unit
IsAscending previous (m ∷ rest) =
    ((previous < m.version) × (m.version ≤ max_safe_integer))
    × (((trim m.name == "") ≡ false) × IsAscending m.version rest)

pub assert_ascending-IsAscending :
    (previous : ℕ) (ms : List Migration)
    → assert_ascending previous ms ≡ ok tt
    → IsAscending previous ms
unfolding assert_ascending
assert_ascending-IsAscending previous [] h = tt
assert_ascending-IsAscending previous (m ∷ rest) h =
    let (_, (positive, h1)) =
      bind-returns
        (require (leb m.version max_safe_integer && leb 1 m.version) (not_positive m.version)) _ _
        h in
    let (_, (ascending, h2)) =
      bind-returns (require (ltb previous m.version) (not_ascending m.version previous)) _ _ h1 in
    let (_, (named, h3)) =
      bind-returns (require (not (trim m.name == "")) (unnamed m.version)) _ _ h2 in
    let safe = require-returns _ _ _ positive in
    let has_name = require-returns _ _ _ named in
    (
      (
        ltb→lt previous m.version (require-returns _ _ _ ascending),
        leb→le m.version max_safe_integer (ground arith),
      ),
      (ground arith, assert_ascending-IsAscending m.version rest h3),
    )

IsAscending-assert_ascending :
    (previous : ℕ) (ms : List Migration)
    → IsAscending previous ms
    → assert_ascending previous ms ≡ ok tt
unfolding assert_ascending
IsAscending-assert_ascending previous [] h = refl
IsAscending-assert_ascending previous (m ∷ rest) ((above, safe), (named, later)) =
    let positive : (leb m.version max_safe_integer && leb 1 m.version) ≡ true = ground arith in
    let ascending : ltb previous m.version ≡ true = ground arith in
    let checked : assert_ascending m.version rest ≡ ok tt =
      IsAscending-assert_ascending m.version rest later in
    rw (positive, ascending, named, checked) refl

-- The check of the list accepts exactly the lists whose versions are positive safe integers that go
-- up and whose names are not blank.
pub assert_migration_list_lem :
    (migrations : List Migration)
    → (assert_migration_list migrations ≡ ok tt) ↔ IsAscending 0 migrations
unfolding assert_migration_list
assert_migration_list_lem migrations =
    (assert_ascending-IsAscending 0 migrations, IsAscending-assert_ascending 0 migrations)
