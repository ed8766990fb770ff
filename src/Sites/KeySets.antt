-- ===== src/Sites/KeySets.antt =====
-- `visibleValues` of frontend/app/(dashboard)/sites/[id]/page.tsx as what it is, a set: the lists of Sites/Settings.antt up
-- to the order in which its keys were added.
use mathlib.Core.Quot
use mathlib.Core.Quot.{Quot, Quot-set}
use ventopanel.Base.{
  ◌≡◌, ap, sym, ◌∙◌, Bool, not, if◌then◌else◌, List, Text, text_eq, includes, arith,
}
use ventopanel.Sites.Settings.{toggle_visible}
use ventopanel.Sites.Visible.{includes-toggle_visible}

-- The same keys are in both.
abbrev pub SameKeys : List Text → List Text → Type 0
SameKeys xs ys = (key : Text) → includes xs key ≡ includes ys key

abbrev pub KeySet : Type 0
KeySet = Quot SameKeys

pub toggle_visible-SameKeys :
    (k : Text) (xs ys : List Text)
    → SameKeys xs ys
    → SameKeys (toggle_visible xs k) (toggle_visible ys k)
toggle_visible-SameKeys k xs ys h key =
    includes-toggle_visible xs k key
    ∙ ap (λ b. if text_eq k key then not b else b) (h key)
    ∙ sym (includes-toggle_visible ys k key)

-- `toggleVisible` on the set.
unfoldable pub toggle : Text → KeySet → KeySet
toggle k =
    Quot.lift Quot-set (λ xs. Quot.mk (toggle_visible xs k))
      (λ xs ys h. Quot.sound (toggle_visible-SameKeys k xs ys h))

either_order :
    (a b c : Bool)
    → (if a then not (if b then not c else c) else (if b then not c else c))
      ≡ (if b then not (if a then not c else c) else (if a then not c else c))
either_order a b c = ground arith

includes-twice :
    (j k key : Text) (xs : List Text)
    → includes (toggle_visible (toggle_visible xs k) j) key ≡ (
        if text_eq j key
        then not (if text_eq k key then not (includes xs key) else includes xs key)
        else (if text_eq k key then not (includes xs key) else includes xs key))
includes-twice j k key xs =
    includes-toggle_visible (toggle_visible xs k) j key
    ∙ ap (λ b. if text_eq j key then not b else b) (includes-toggle_visible xs k key)

toggle_twice : (k : Text) (s : KeySet) → toggle k (toggle k s) ≡ s
unfolding toggle
toggle_twice k =
    Quot.ind (λ s. Quot-set _ _)
      (λ xs. Quot.sound (λ key. includes-twice k k key xs ∙ ground arith))

toggle_comm : (j k : Text) (s : KeySet) → toggle j (toggle k s) ≡ toggle k (toggle j s)
unfolding toggle
toggle_comm j k =
    Quot.ind (λ s. Quot-set _ _)
      (λ xs. Quot.sound (λ key.
        includes-twice j k key xs
        ∙ either_order (text_eq j key) (text_eq k key) (includes xs key)
        ∙ sym (includes-twice k j key xs)))

-- Whether the value of a variable is shown.
unfoldable pub is_shown : Text → KeySet → Bool
is_shown key = Quot.lift (hlevel) (λ xs. includes xs key) (λ xs ys h. h key)

is_shown-toggle :
    (key k : Text) (s : KeySet)
    → is_shown key (toggle k s) ≡ (if text_eq k key then not (is_shown key s) else is_shown key s)
unfolding is_shown toggle
is_shown-toggle key k = Quot.ind (λ s. hlevel) (λ xs. includes-toggle_visible xs k key)

-- On the set of the keys whose values are shown, a click on the button of a variable changes whether its value is shown
-- and no other, two clicks undo each other, and clicks on the buttons of two variables can come in either order.
pub toggle-toggle :
    (j k key : Text) (s : KeySet)
    → (is_shown key (toggle k s) ≡ (if text_eq k key then not (is_shown key s) else is_shown key s))
      × (toggle k (toggle k s) ≡ s)
      × (toggle j (toggle k s) ≡ toggle k (toggle j s))
toggle-toggle j k key s = (is_shown-toggle key k s, toggle_twice k s, toggle_comm j k s)
