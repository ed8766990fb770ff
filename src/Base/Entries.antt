-- ===== src/Base/Entries.antt =====
-- What holds of the entries of lists and objects that are found.
use mathlib.Core.Path.{◌≡◌, sym, ap, subst, ◌∙◌}
use mathlib.Core.Bool.{true}
use mathlib.Core.Option.{Option, none, some}
use mathlib.Core.List.{List, [], ◌∷◌}
use native.Mathlib.Omega.{arith}
use mathlib.Core.Logic.{inl, inr}
use ventopanel.Base.Tests.{if◌then◌else◌, Bool-cases}
use ventopanel.Base.Lists.{All}
use ventopanel.Base.Texts.{Text, text_eq, text_eq_iff}
use ventopanel.Base.Dict.{lookup, includes}

-- What holds of each text of a list holds of a text that the list includes.
pub All-includes :
    (P : Text → Type 0) (ts : List Text) (s : Text) → includes ts s ≡ true → All P ts → P s
All-includes P [] s e h = cc
All-includes P (t ∷ ts) s e (h, k) = elim (Bool-cases (text_eq t s)) [
  | inl same ↦ subst P ((text_eq_iff t s).0 same) h
  | inr other ↦ All-includes P ts s (ground arith) k
]

abbrev InSome : {V : Type 0} → (V → Type 0) → Option V → Type 0
InSome Q none = Unit {0}
InSome Q (some v) = Q v

-- What holds of each entry of an object holds of a key and the value that is found there.
pub All-lookup :
    {V : Type 0} (P : Text → V → Type 0) (entries : List (Text × V)) (key : Text) (value : V)
    → lookup key entries ≡ some value
    → All (λ e. P e.0 e.1) entries
    → P key value
unfolding lookup
All-lookup P [] key value e h = cc
All-lookup P ((k, v) ∷ entries) key value e (h, hs) = elim (Bool-cases (text_eq k key)) [
  | inl same ↦
      let found : some v ≡ some value =
        ap (λ b. if b then some v else lookup key entries) (sym same) ∙ e in
      subst (λ t. P t value) ((text_eq_iff k key).0 same) (subst (InSome (P k)) found h)
  | inr other ↦ All-lookup P entries key value (ground arith) hs
]
