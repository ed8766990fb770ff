-- ===== src/Base/Texts.antt =====
-- Text is the list of its characters' numbers. JavaScript counts UTF-16 units, and this model counts
-- the code points of a literal; they agree on every text that the code writes out itself.
use Prim.Native.Nat.{ℕ, zero, suc, ◌+◌, ◌/◌, ◌%◌, ◌≤◌}
use Prim.Native.Char.{code}
use Prim.Native.String.{String}
use mathlib.Core.Path.{◌≡◌, refl}
use mathlib.Core.Logic.{◌↔◌}
use mathlib.Core.Bool.{Bool, true, false, ◌&&◌}
use mathlib.Core.List.{List, [], ◌∷◌, ◌++◌}
use native.Mathlib.Omega.{arith}
use mathlib.Core.Logic.{◌≢◌}
use ventopanel.Base.Tests.{◌==◌, ltb, if◌then◌else◌}
use ventopanel.Base.Lists.{All}

abbrev pub Text : Type 0
Text = List ℕ

abbrev pub text : String → Text
text String.[] = []
text (String.◌∷◌ c s) = code c ∷ text s

-- `===` on texts
abbrev pub text_eq : Text → Text → Bool
text_eq [] [] = true
text_eq [] (d ∷ t) = false
text_eq (c ∷ s) [] = false
text_eq (c ∷ s) (d ∷ t) = c == d && text_eq s t

pub text_eq_iff : (s t : Text) → (text_eq s t ≡ true) ↔ (s ≡ t)
text_eq_iff [] [] = ((λ _. refl), (λ _. refl))
text_eq_iff [] (d ∷ t) = ((λ e. cc), (λ e. cc))
text_eq_iff (c ∷ s) [] = ((λ e. cc), (λ e. cc))
text_eq_iff (c ∷ s) (d ∷ t) = ground (arith, text_eq_iff s t)

pub text_eq_refl : (s : Text) → text_eq s s ≡ true
text_eq_refl s = (text_eq_iff s s).1 refl

-- `Boolean(s)`: the empty text is false
abbrev pub truthy : Text → Bool
truthy [] = false
truthy (c ∷ s) = true

-- A character in front of the first part.
abbrev pub lengthen : ℕ → List Text → List Text
lengthen c [] = (c ∷ []) ∷ []
lengthen c (part ∷ parts) = (c ∷ part) ∷ parts

-- `s.split(d)` for a separator of one character
abbrev pub split_on : ℕ → Text → List Text
split_on d [] = [] ∷ []
split_on d (c ∷ s) = if c == d then [] ∷ split_on d s else lengthen c (split_on d s)

abbrev pub Without : ℕ → Text → Type 0
Without d = All (λ c. c ≢ d)

pub split_on-append :
    (d : ℕ) (s t : Text) → Without d s → split_on d (s ++ d ∷ t) ≡ s ∷ split_on d t
split_on-append d [] t h = ground arith
split_on-append d (c ∷ s) t (h, k) = ground (arith, split_on-append d s t k)

pub split_on_of_Without : (d : ℕ) (s : Text) → Without d s → split_on d s ≡ s ∷ []
split_on_of_Without d [] h = refl
split_on_of_Without d (c ∷ s) (h, k) = ground (arith, split_on_of_Without d s k)

-- Decimal digits, put in front of what is shown. A number has fewer digits than its value plus one, so
-- that many rounds are enough.
show_from : ℕ → ℕ → Text → Text
show_from zero n shown = shown
show_from (suc rounds) n shown = elim (ltb n 10) [
  | true ↦ (b'0' + n) ∷ shown
  | false ↦ show_from rounds (n / 10) ((b'0' + n % 10) ∷ shown)
]

-- `String(n)`
unfoldable pub show : ℕ → Text
unfolding show_from
show n = show_from (suc n) n []

-- A character from `0` to `9`.
abbrev pub IsDigit : ℕ → Type 0
IsDigit c = (b'0' ≤ c) × (c ≤ b'9')

show_from-digits :
    (rounds n : ℕ) (shown : Text) → All IsDigit shown → All IsDigit (show_from rounds n shown)
unfolding show_from
show_from-digits zero n shown h = h
show_from-digits (suc rounds) n shown h =
    ground (arith, show_from-digits rounds (n / 10) ((b'0' + n % 10) ∷ shown) (omega arith, h))

pub show-digits : (n : ℕ) → All IsDigit (show n)
unfolding show
show-digits n = show_from-digits (suc n) n [] tt
