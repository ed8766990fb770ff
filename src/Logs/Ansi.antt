-- ===== src/Logs/Ansi.antt =====
-- `stripAnsi` of frontend/app/(dashboard)/logs/page.tsx: the texts of colours are taken out.
use ventopanel.Base.{
  ℕ, zero, suc, ◌==◌, leb, if◌then◌else◌, Bool, true, false, ◌&&◌, ◌||◌, Option, none, some, [],
  ◌∷◌, ◌++◌, Text,
}
use mathlib.Core.Option

abbrev pub is_parameter : ℕ → Bool
is_parameter c = (leb b'0' c && leb c b'9') || (c == b';')

abbrev pub is_letter : ℕ → Bool
is_letter c = (leb b'A' c && leb c b'Z') || (leb b'a' c && leb c b'z')

-- How long a match of `[0-9;]*[A-Za-z]` is here.
abbrev pub code_length : Text → Option ℕ
code_length [] = none
code_length (c ∷ s) = elim (is_parameter c) [
  | true ↦ Option.map suc (code_length s)
  | false ↦ if is_letter c then some 1 else none
]

abbrev pub escape : ℕ
escape = 27

-- How long a match is after its escape character.
abbrev pub after_escape : Text → Option ℕ
after_escape [] = none
after_escape (c ∷ s) = if c == b'[' then Option.map suc (code_length s) else none

-- The characters of a match still to be skipped are counted down.
unfoldable pub strip_from : ℕ → Text → Text
strip_from skip [] = []
strip_from (suc skip) (c ∷ s) = strip_from skip s
strip_from zero (c ∷ s) = elim (if c == escape then after_escape s else none) [
  | some skip ↦ strip_from skip s
  | none ↦ c ∷ strip_from 0 s
]

unfoldable pub strip_ansi : Text → Text
strip_ansi s = strip_from 0 s

-- The text of a colour: escape, bracket, parameters, letter.
abbrev pub colour : Text → ℕ → Text
colour parameters letter = escape ∷ b'[' ∷ parameters ++ letter ∷ []
