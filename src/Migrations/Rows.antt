-- ===== src/Migrations/Rows.antt =====
-- The check of the rows: what assertNoRowsLost lets through.
use agent_control_center_cor.Base.{
  ℕ, ◌+◌, ◌≤◌, String, Option, none, some, [], ◌∷◌, arith, ok, bind-returns, ◌≡◌, refl, All,
}
use agent_control_center_cor.Migrations.{
  ℤ, pos, negsuc, Migration, Counts, assert_no_rows_lost, check_table, entry,
}

-- A table keeps its rows, but for the change that the migration declares; it goes away only if the
-- migration declares a change of it.
abbrev pub KeepsTable : ℕ → Option ℕ → Option ℤ → Type 0
KeepsTable previous none none = ⊥
KeepsTable previous none (some declared) = Unit
KeepsTable previous (some next) none = previous ≤ next
KeepsTable previous (some next) (some (pos d)) = previous + d ≤ next
KeepsTable previous (some next) (some (negsuc k)) = previous ≤ next + (k + 1)

abbrev pub KeepsRows : Migration → Counts → Counts → Type 0
KeepsRows m before after =
    All (λ x. KeepsTable x.1 (entry x.0 after) (entry x.0 m.expected_row_delta)) before

check_table-KeepsTable :
    (m : Migration) (table : String) (previous : ℕ) (next : Option ℕ) (declared : Option ℤ)
    → check_table m table previous next declared ≡ ok tt
    → KeepsTable previous next declared
unfolding check_table
check_table-KeepsTable m table previous none none h = cc
check_table-KeepsTable m table previous none (some declared) h = tt
check_table-KeepsTable m table previous (some next) none h = ground arith
check_table-KeepsTable m table previous (some next) (some (pos d)) h = ground arith
check_table-KeepsTable m table previous (some next) (some (negsuc k)) h = ground arith

pub assert_no_rows_lost-KeepsRows :
    (m : Migration) (before after : Counts)
    → assert_no_rows_lost before after m ≡ ok tt
    → KeepsRows m before after
unfolding assert_no_rows_lost
assert_no_rows_lost-KeepsRows m [] after h = tt
assert_no_rows_lost-KeepsRows m (x ∷ before) after h =
    let (_, (checked, rest)) =
      bind-returns (check_table m x.0 x.1 (entry x.0 after) (entry x.0 m.expected_row_delta))
        (λ _. assert_no_rows_lost before after m) tt h in
    (
      check_table-KeepsTable m x.0 x.1 (entry x.0 after) (entry x.0 m.expected_row_delta) checked,
      assert_no_rows_lost-KeepsRows m before after rest,
    )

KeepsTable-check_table :
    (m : Migration) (table : String) (previous : ℕ) (next : Option ℕ) (declared : Option ℤ)
    → KeepsTable previous next declared
    → check_table m table previous next declared ≡ ok tt
unfolding check_table
KeepsTable-check_table m table previous none none h = absurd h
KeepsTable-check_table m table previous none (some declared) h = refl
KeepsTable-check_table m table previous (some next) none h = ground arith
KeepsTable-check_table m table previous (some next) (some (pos d)) h = ground arith
KeepsTable-check_table m table previous (some next) (some (negsuc k)) h = ground arith

pub KeepsRows-assert_no_rows_lost :
    (m : Migration) (before after : Counts)
    → KeepsRows m before after
    → assert_no_rows_lost before after m ≡ ok tt
unfolding assert_no_rows_lost
KeepsRows-assert_no_rows_lost m [] after h = refl
KeepsRows-assert_no_rows_lost m (x ∷ before) after h =
    let checked =
      KeepsTable-check_table m x.0 x.1 (entry x.0 after) (entry x.0 m.expected_row_delta) h.0 in
    rw (checked, KeepsRows-assert_no_rows_lost m before after h.1) refl
