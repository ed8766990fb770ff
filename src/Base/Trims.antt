-- ===== src/Base/Trims.antt =====
-- What `trim` and `toUpperCase` of JavaScript leave.
use Prim.Native.Nat.{ℕ, ◌-◌}
use mathlib.Core.Path.{◌≡◌, refl, ap, ◌∙◌}
use mathlib.Core.Logic.{inl, inr}
use mathlib.Core.Bool.{false, not, ◌&&◌}
use mathlib.Core.List.{[], ◌∷◌, map}
use native.Mathlib.Omega.{arith}
use ventopanel.Base.Tests.{leb, if◌then◌else◌, Bool-cases}
use ventopanel.Base.Texts.{Text, truthy}
use ventopanel.Base.Lists.{All}
use ventopanel.Base.Strings.{is_space, lower_char, to_lower, trim_start, trim_end, trim}

trim_end-trim_end : (s : Text) → trim_end (trim_end s) ≡ trim_end s
trim_end-trim_end [] = refl
trim_end-trim_end (c ∷ s) = elim (Bool-cases (is_space c && not (truthy (trim_end s)))) [
  | inl e ↦ rw e refl
  | inr e ↦ rw e (rw (trim_end-trim_end s) (rw e refl))
]

-- A text that does not begin with a space.
BeginsWell : Text → Type 0
BeginsWell [] = Unit
BeginsWell (c ∷ s) = is_space c ≡ false

trim_start-BeginsWell : (s : Text) → BeginsWell (trim_start s)
unfolding BeginsWell
trim_start-BeginsWell [] = tt
trim_start-BeginsWell (c ∷ s) = elim (Bool-cases (is_space c)) [
  | inl e ↦ rw e (trim_start-BeginsWell s)
  | inr e ↦ rw e e
]

trim_start-trim_end : (s : Text) → BeginsWell s → trim_start (trim_end s) ≡ trim_end s
unfolding BeginsWell
trim_start-trim_end [] h = refl
trim_start-trim_end (c ∷ s) h = rw h (rw h refl)

-- A text without spaces at its ends.
abbrev pub IsTrimmed : Text → Type 0
IsTrimmed s = trim s ≡ s

pub trim-IsTrimmed : (s : Text) → IsTrimmed (trim s)
trim-IsTrimmed s =
    ap trim_end (trim_start-trim_end (trim_start s) (trim_start-BeginsWell s))
    ∙ trim_end-trim_end (trim_start s)

-- `toUpperCase` on the letters of ASCII.
abbrev pub upper_char : ℕ → ℕ
upper_char c = if leb b'a' c && leb c b'z' then c - 32 else c

abbrev pub to_upper : Text → Text
to_upper s = map upper_char s

-- No letter from `a` to `z` is left.
abbrev pub IsUpper : Text → Type 0
IsUpper = All (λ c. (leb b'a' c && leb c b'z') ≡ false)

pub to_upper-IsUpper : (s : Text) → IsUpper (to_upper s)
to_upper-IsUpper [] = tt
to_upper-IsUpper (c ∷ s) = (ground arith, to_upper-IsUpper s)

upper_char-is_space : (c : ℕ) → is_space (upper_char c) ≡ is_space c
upper_char-is_space c = ground arith

lower_char-is_space : (c : ℕ) → is_space (lower_char c) ≡ is_space c
lower_char-is_space c = ground arith

-- A change of each character that neither makes nor removes spaces goes with `trim`.
module _ (f : ℕ → ℕ) (keeps : (c : ℕ) → is_space (f c) ≡ is_space c) where
  truthy-map : (s : Text) → truthy (map f s) ≡ truthy s
  truthy-map [] = refl
  truthy-map (c ∷ s) = refl

  trim_start-map : (s : Text) → trim_start (map f s) ≡ map f (trim_start s)
  trim_start-map [] = refl
  trim_start-map (c ∷ s) = elim (Bool-cases (is_space c)) [
    | inl e ↦ rw (keeps c, e) (trim_start-map s)
    | inr e ↦ rw (keeps c, e) refl
  ]

  trim_end-map : (s : Text) → trim_end (map f s) ≡ map f (trim_end s)
  trim_end-map [] = refl
  trim_end-map (c ∷ s) = elim (Bool-cases (is_space c && not (truthy (trim_end s)))) [
    | inl e ↦ rw (trim_end-map s, truthy-map (trim_end s), keeps c, e) refl
    | inr e ↦ rw (trim_end-map s, truthy-map (trim_end s), keeps c, e) refl
  ]

  map-trim-IsTrimmed : (s : Text) → IsTrimmed (map f (trim s))
  map-trim-IsTrimmed s =
      ap trim_end (trim_start-map (trim s))
      ∙ trim_end-map (trim_start (trim s))
      ∙ ap (map f) (trim-IsTrimmed s)

pub to_upper-trim-IsTrimmed : (s : Text) → IsTrimmed (to_upper (trim s))
to_upper-trim-IsTrimmed = map-trim-IsTrimmed upper_char upper_char-is_space

pub to_lower-trim-IsTrimmed : (s : Text) → IsTrimmed (to_lower (trim s))
to_lower-trim-IsTrimmed = map-trim-IsTrimmed lower_char lower_char-is_space

-- No letter from `A` to `Z` is left.
abbrev pub IsLower : Text → Type 0
IsLower = All (λ c. (leb b'A' c && leb c b'Z') ≡ false)

pub to_lower-IsLower : (s : Text) → IsLower (to_lower s)
to_lower-IsLower [] = tt
to_lower-IsLower (c ∷ s) = (ground arith, to_lower-IsLower s)
