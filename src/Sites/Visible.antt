-- ===== src/Sites/Visible.antt =====
-- Which values of variables the page of Sites/Settings.antt shows.
use ventopanel.Base.{
  ◌≡◌, refl, ap, ◌∙◌, inl, inr, Bool, false, not, ◌&&◌, ◌||◌, if◌then◌else◌, Bool-cases, List, [],
  ◌∷◌, ◌++◌, Text, text, text_eq, text_eq_iff, keep_if, includes, arith,
}
use ventopanel.Sites.Settings.{toggle_visible, shown_value}

-- A key is given in these clicks an odd number of times.
abbrev pub is_odd : Text → List Text → Bool
is_odd key [] = false
is_odd key (k ∷ ks) = if text_eq k key then not (is_odd key ks) else is_odd key ks

unfoldable pub toggle_all : List Text → List Text → List Text
toggle_all visible [] = visible
toggle_all visible (key ∷ keys) = toggle_all (toggle_visible visible key) keys

includes-append :
    (xs : List Text) (k key : Text)
    → includes (xs ++ k ∷ []) key ≡ (includes xs key || text_eq k key)
includes-append [] k key = ground arith
includes-append (x ∷ xs) k key = ground (arith, includes-append xs k key)

includes-keep_if :
    (xs : List Text) (k key : Text)
    → includes (keep_if (λ x. not (text_eq x k)) xs) key ≡ (includes xs key && not (text_eq k key))
includes-keep_if [] k key = refl
includes-keep_if (x ∷ xs) k key =
    ground (arith, includes-keep_if xs k key, text_eq_iff x k, text_eq_iff x key, text_eq_iff k key)

pub includes-toggle_visible :
    (visible : List Text) (k key : Text)
    → includes (toggle_visible visible k) key
      ≡ (if text_eq k key then not (includes visible key) else includes visible key)
unfolding toggle_visible
includes-toggle_visible visible k key = elim (Bool-cases (includes visible k)) [
  | inl e ↦
      rw (e, toggle_visible) (includes-keep_if visible k key ∙ ground (arith, text_eq_iff k key))
  | inr e ↦
      rw (e, toggle_visible) (includes-append visible k key ∙ ground (arith, text_eq_iff k key))
]

includes-toggle_all :
    (keys visible : List Text) (key : Text)
    → includes (toggle_all visible keys) key
      ≡ (if is_odd key keys then not (includes visible key) else includes visible key)
unfolding toggle_all
includes-toggle_all [] visible key = refl
includes-toggle_all (k ∷ keys) visible key =
    includes-toggle_all keys (toggle_visible visible k) key
    ∙ ground (arith, includes-toggle_visible visible k key)

-- On a page where no value is shown at first, after any clicks a variable's value is shown exactly if its button was
-- clicked an odd number of times, and is masked otherwise.
toggle_all-shown :
    (keys : List Text) (key value : Text)
    → shown_value (toggle_all [] keys) key value
      ≡ (if is_odd key keys then value else text "••••••••")
toggle_all-shown keys key value =
    ap (λ b. if b then value else text "••••••••") (includes-toggle_all keys [] key) ∙ ground arith
