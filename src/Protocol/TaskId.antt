-- ===== src/Protocol/TaskId.antt =====
-- TaskIdSchema of src/protocol.ts: the steps of the zod chain in order.
mod Tests
use Prim.Native.Char.{code}
use Prim.Native.String.{[], ◌∷◌}
use agent_control_center_cor.Base.{
  ℕ, ◌≤◌, String, ◌≡◌, ◌≢◌, Bool, true, false, not, ◌&&◌, ◌||◌, Option, none, some, arith, leb, eqb,
  ◌==◌, eq_iff, if◌then◌else◌,
}
use agent_control_center_cor.Base.Text.{trim, length}

is_alphanumeric : ℕ → Bool
is_alphanumeric c =
    (leb b'A' c && leb c b'Z') || (leb b'a' c && leb c b'z') || (leb b'0' c && leb c b'9')

is_id_char : ℕ → Bool
unfolding is_alphanumeric
is_id_char c = is_alphanumeric c || eqb c b'.' || eqb c b'_' || eqb c b'-'

every_id_char : String → Bool
every_id_char [] = true
every_id_char (c ∷ s) = is_id_char (code c) && every_id_char s

-- /^[A-Za-z0-9][A-Za-z0-9._-]*$/
matches_task_id : String → Bool
unfolding is_alphanumeric every_id_char is_id_char
matches_task_id [] = false
matches_task_id (c ∷ s) = is_alphanumeric (code c) && every_id_char s

is_task_id : String → Bool
is_task_id value =
    leb 1 (length value)
    && leb (length value) 160
    && matches_task_id value
    && not (value == ".")
    && not (value == "..")

-- `none` is a refusal by the schema; the value that passes is the trimmed text.
pub parse_task_id : String → Option String
parse_task_id raw = let value = trim raw in if is_task_id value then some value else none

-- Every character is one that a path component may hold: no slash, no backslash, no NUL.
abbrev pub HasNoSeparator : String → Type 0
HasNoSeparator [] = Unit
HasNoSeparator (c ∷ s) = (code c ≢ b'/') × (code c ≢ b'\\') × (code c ≢ 0) × HasNoSeparator s

every_id_char-HasNoSeparator : (s : String) → every_id_char s ≡ true → HasNoSeparator s
unfolding every_id_char is_id_char is_alphanumeric
every_id_char-HasNoSeparator [] h = tt
every_id_char-HasNoSeparator (c ∷ s) h = ground (arith, every_id_char-HasNoSeparator s)

matches_task_id-HasNoSeparator : (s : String) → matches_task_id s ≡ true → HasNoSeparator s
unfolding matches_task_id
matches_task_id-HasNoSeparator [] h = cc
matches_task_id-HasNoSeparator (c ∷ s) h = ground (arith, every_id_char-HasNoSeparator s)

pub record IsStorageKey (id : String) : Type 0 where
  pub plain : HasNoSeparator id
  pub not_dot : id ≢ "."
  pub not_dots : id ≢ ".."
  pub not_empty : 1 ≤ length id
  pub bounded : length id ≤ 160

is_task_id-IsStorageKey : (id : String) → is_task_id id ≡ true → IsStorageKey id
unfolding is_task_id
is_task_id-IsStorageKey id h =
    ground (arith, matches_task_id-HasNoSeparator id, eq_iff id ".", eq_iff id "..")

-- An id that the schema accepts is one path component: it holds no slash, backslash or NUL, is
-- neither "." nor "..", and has between 1 and 160 UTF-16 code units.
pub parse_task_id-IsStorageKey : (raw id : String) → parse_task_id raw ≡ some id → IsStorageKey id
unfolding parse_task_id
parse_task_id-IsStorageKey raw id h = ground (arith, is_task_id-IsStorageKey (trim raw))
