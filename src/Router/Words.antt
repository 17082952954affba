-- ===== src/Router/Words.antt =====
-- Regular expressions of src/router.ts without repetition, as JavaScript tests them: `\b(…)\b` with the
-- flag `i`, which folds the case of ASCII letters.
use Prim.Native.Char.{code}
use Prim.Native.String.{String, [], ◌∷◌}
use agent_control_center_cor.Base.{
  ℕ, ◌+◌, Bool, false, not, ◌&&◌, ◌||◌, Option, none, some, leb, eqb, if◌then◌else◌,
}

pub data Pattern : Type 0 where
  text : String → Pattern
  one_of : String → Pattern
  optional : Pattern → Pattern
  followed_by : Pattern → Pattern → Pattern
  either : Pattern → Pattern → Pattern
  never : Pattern

abbrev pub fold_case : ℕ → ℕ
fold_case c = if leb b'A' c && leb c b'Z' then c + 32 else c

abbrev pub is_word_code : ℕ → Bool
is_word_code c =
    (leb b'a' c && leb c b'z')
    || ((leb b'A' c && leb c b'Z') || ((leb b'0' c && leb c b'9') || eqb c b'_'))

-- Whether a character stands there that `\w` takes.
abbrev pub is_word : Option ℕ → Bool
is_word none = false
is_word (some c) = is_word_code c

abbrev pub next_code : String → Option ℕ
next_code [] = none
next_code (c ∷ s) = some (code c)

-- `\b`: of the characters before and after, one is of a word and one is not.
abbrev pub is_boundary : Option ℕ → String → Bool
is_boundary before s = if is_word before then not (is_word (next_code s)) else is_word (next_code s)

abbrev pub is_among : ℕ → String → Bool
is_among c [] = false
is_among c (d ∷ ds) = eqb (fold_case (code d)) (fold_case c) || is_among c ds

-- What follows is tried with the character before it and the text that is left.
unfoldable pub match_text : String → Option ℕ → String → (Option ℕ → String → Bool) → Bool
match_text [] before s follow = follow before s
match_text (c ∷ rest) before [] follow = false
match_text (c ∷ rest) before (d ∷ s) follow =
    eqb (fold_case (code c)) (fold_case (code d)) && match_text rest (some (code d)) s follow

abbrev pub match_one : String → String → (Option ℕ → String → Bool) → Bool
match_one choices [] follow = false
match_one choices (d ∷ s) follow = is_among (code d) choices && follow (some (code d)) s

unfoldable pub match_pattern : Pattern → Option ℕ → String → (Option ℕ → String → Bool) → Bool
unfolding match_text
match_pattern (text word) before s follow = match_text word before s follow
match_pattern (one_of choices) before s follow = match_one choices s follow
match_pattern (optional p) before s follow = match_pattern p before s follow || follow before s
match_pattern (followed_by p q) before s follow =
    match_pattern p before s (λ b t. match_pattern q b t follow)
match_pattern (either p q) before s follow =
    match_pattern p before s follow || match_pattern q before s follow
match_pattern never before s follow = false

-- `/\bp\b/i.test(s)` after the character `before`
unfoldable pub tests_from : Pattern → Option ℕ → String → Bool
unfolding match_pattern
tests_from p before [] = is_boundary before [] && match_pattern p before [] is_boundary
tests_from p before (c ∷ s) =
    (is_boundary before (c ∷ s) && match_pattern p before (c ∷ s) is_boundary)
    || tests_from p (some (code c)) s

unfoldable pub tests : Pattern → String → Bool
unfolding tests_from
tests p s = tests_from p none s
