-- ===== src/Base/Dict.antt =====
-- Objects used as dictionaries: association lists with text keys. Writing a key that is there keeps
-- its place, as in JavaScript.
use mathlib.Core.Path.{◌≡◌, refl}
use mathlib.Core.Bool.{Bool, false, ◌||◌}
use mathlib.Core.Option.{Option, none, some}
use mathlib.Core.List.{List, [], ◌∷◌}
use native.Mathlib.Omega.{arith}
use ventopanel.Base.Tests.{if◌then◌else◌}
use ventopanel.Base.Texts.{Text, text_eq, text_eq_iff}

module _ {ℓ} {V : Type ℓ} where
  -- `object[name]`
  unfoldable pub lookup : Text → List (Text × V) → Option V
  lookup name [] = none
  lookup name (entry ∷ object) =
      let rest = lookup name object in if text_eq entry.0 name then some entry.1 else rest

  -- `object[name] = value`
  unfoldable pub insert : Text → V → List (Text × V) → List (Text × V)
  insert name value [] = (name, value) ∷ []
  insert name value (entry ∷ object) =
      let rest = insert name value object in
      if text_eq entry.0 name then (entry.0, value) ∷ object else entry ∷ rest

  -- `{ ...object, ...other }`
  unfoldable pub spread : List (Text × V) → List (Text × V) → List (Text × V)
  spread object [] = object
  spread object (entry ∷ other) = spread (insert entry.0 entry.1 object) other

  -- Reading a name after another was written.
  pub lookup-insert :
      (written read : Text) (value : V) (object : List (Text × V))
      → lookup read (insert written value object)
        ≡ (if text_eq written read then some value else lookup read object)
  unfolding lookup insert
  lookup-insert written read value [] = refl
  lookup-insert written read value ((name, old) ∷ object) = ground (
    arith,
    lookup-insert written read value object,
    text_eq_iff written read,
    text_eq_iff name read,
    text_eq_iff name written,
  )

  pub lookup-spread-none :
      (name : Text) (object other : List (Text × V))
      → lookup name object ≡ none
      → lookup name other ≡ none
      → lookup name (spread object other) ≡ none
  unfolding spread lookup
  lookup-spread-none name object [] h k = h
  lookup-spread-none name object ((other_name, value) ∷ other) h k =
      lookup-spread-none name (insert other_name value object) other
        (ground (arith, lookup-insert other_name name value object)) (ground arith)

-- `list.includes(t)` on texts
abbrev pub includes : List Text → Text → Bool
includes [] t = false
includes (s ∷ ss) t = text_eq s t || includes ss t
