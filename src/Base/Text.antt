-- ===== src/Base/Text.antt =====
-- JavaScript's string operations that the code uses, over native strings.
use Prim.Native.Char.{Char, code}
use Prim.Native.Nat.{ℕ, ◌+◌}
use Prim.Native.String.{String, [], ◌∷◌}
use mathlib.Core.Bool.{Bool, true, false, ◌&&◌, ◌||◌}
use agent_control_center_cor.Base.Tests.{leb, ltb, eqb, if◌then◌else◌}

-- White space and line ends of ECMAScript, as `trim` removes them.
unfoldable pub is_space : ℕ → Bool
is_space c =
    (leb 9 c && leb c 13)
    || eqb c 32
    || eqb c 0xa0
    || eqb c 0x1680
    || (leb 0x2000 c && leb c 0x200a)
    || eqb c 0x2028
    || eqb c 0x2029
    || eqb c 0x202f
    || eqb c 0x205f
    || eqb c 0x3000
    || eqb c 0xfeff

unfoldable pub trim_start : String → String
unfolding is_space
trim_start [] = []
trim_start (c ∷ s) = if is_space (code c) then trim_start s else c ∷ s

push_unless_blank : Char → String → String
unfolding is_space
push_unless_blank c [] = if is_space (code c) then [] else c ∷ []
push_unless_blank c (d ∷ s) = c ∷ d ∷ s

unfoldable pub trim_end : String → String
unfolding push_unless_blank
trim_end [] = []
trim_end (c ∷ s) = push_unless_blank c (trim_end s)

unfoldable pub trim : String → String
unfolding trim_start trim_end
trim s = trim_end (trim_start s)

-- `s.length`: UTF-16 code units
unfoldable pub length : String → ℕ
length [] = 0
length (c ∷ s) = (if leb 0x10000 (code c) then 2 else 1) + length s

-- `x LIKE '%needle%'`: LIKE folds the case of ASCII letters.
lower : ℕ → ℕ
lower c = if leb b'A' c && leb c b'Z' then c + 32 else c

prefix_of : String → String → Bool
unfolding lower
prefix_of [] s = true
prefix_of (c ∷ needle) [] = false
prefix_of (c ∷ needle) (d ∷ s) = eqb (lower (code c)) (lower (code d)) && prefix_of needle s

unfoldable pub contains : String → String → Bool
unfolding prefix_of
contains needle [] = prefix_of needle []
contains needle (c ∷ s) = prefix_of needle (c ∷ s) || contains needle s

-- the BINARY collation: by code points
unfoldable pub text_before : String → String → Bool
text_before [] [] = false
text_before [] (d ∷ t) = true
text_before (c ∷ s) [] = false
text_before (c ∷ s) (d ∷ t) =
    let rest = text_before s t in
    if ltb (code c) (code d) then true else if eqb (code c) (code d) then rest else false

-- `s.startsWith(prefix)`
unfoldable pub starts_with : String → String → Bool
starts_with [] s = true
starts_with (c ∷ prefix) [] = false
starts_with (c ∷ prefix) (d ∷ s) = eqb (code c) (code d) && starts_with prefix s

-- `s LIKE 'prefix_%'`, where the underscore is any one character
unfoldable pub like_longer : String → String → Bool
unfolding lower
like_longer [] [] = false
like_longer [] (d ∷ s) = true
like_longer (c ∷ prefix) [] = false
like_longer (c ∷ prefix) (d ∷ s) = eqb (lower (code c)) (lower (code d)) && like_longer prefix s

-- `s.includes(needle)`
unfoldable pub includes : String → String → Bool
unfolding starts_with
includes needle [] = starts_with needle []
includes needle (c ∷ s) = starts_with needle (c ∷ s) || includes needle s
