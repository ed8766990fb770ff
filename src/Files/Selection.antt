-- ===== src/Files/Selection.antt =====
-- The ticked items of frontend/app/(dashboard)/files/page.tsx. The set of their paths is a list without
-- repetitions. React runs the function that is given to `setSelected` at once or at the next
-- render; `toggleItem` reads `lastClickedIdx` inside it, so the model takes which of the two it was.
use ventopanel.Base.{
  ℕ, zero, suc, ◌-◌, ltb, ◌==◌, if◌then◌else◌, Bool, true, false, not, ◌&&◌, Option, none, some,
  List, [], ◌∷◌, ◌++◌, map, Text, text_eq, length, get_elem?, keep_if, includes,
}
use ventopanel.Files.{FileItem}

-- `set.add(path)`
unfoldable pub add : Text → List Text → List Text
add path set = if includes set path then set else set ++ path ∷ []

-- `set.delete(path)`
unfoldable pub delete : Text → List Text → List Text
delete path set = keep_if (λ p. not (text_eq p path)) set

-- The elements added in turn: `new Set(paths)` on the empty set.
unfoldable pub add_all : List Text → List Text → List Text
add_all [] set = set
add_all (path ∷ paths) set = add_all paths (add path set)

pub record Selection : Type 0 where
  pub selected : List Text
  pub last_clicked : Option ℕ

-- One path of the range.
unfoldable pub mark : Bool → Text → List Text → List Text
mark should_select path set = if should_select then add path set else delete path set

-- The loop over `rounds` items from place `i`. Reading past the end of the items throws.
unfoldable pub mark_range : Bool → List FileItem → ℕ → ℕ → List Text → Option (List Text)
mark_range should_select items i zero set = some set
mark_range should_select items i (suc rounds) set = elim (get_elem? items i) [
  | none ↦ none
  | some item ↦ mark_range should_select items (suc i) rounds (mark should_select item.path set)
]

abbrev pub first_of : ℕ → ℕ → ℕ
first_of a b = if ltb a b then a else b

abbrev pub last_of : ℕ → ℕ → ℕ
last_of a b = if ltb a b then b else a

-- The function that `toggleItem` gives to `setSelected`, for the value of `lastClickedIdx` that it
-- finds.
unfoldable pub toggled :
    List FileItem → FileItem → ℕ → Bool → Option ℕ → List Text → Option (List Text)
toggled items item idx true (some last) prev =
    mark_range (not (includes prev item.path)) items (first_of last idx)
      (suc (last_of last idx - first_of last idx)) prev
toggled items item idx true none prev =
    some (if includes prev item.path then delete item.path prev else add item.path prev)
toggled items item idx false last prev =
    some (if includes prev item.path then delete item.path prev else add item.path prev)

-- `toggleItem`; `at_once` says when React runs the function. None is a `TypeError`.
unfoldable pub toggle_item :
    Bool → List FileItem → FileItem → ℕ → Bool → Selection → Option Selection
toggle_item at_once items item idx shift_held s =
    elim (toggled items item idx shift_held (if at_once then s.last_clicked else some idx)
      s.selected) [
        | none ↦ none
        | some next ↦ some (record { selected = next; last_clicked = some idx })
      ]

unfoldable pub toggle_all : List FileItem → Selection → Selection
toggle_all items s =
    if length s.selected == length items
    then record s { selected = [] }
    else record s { selected = add_all (map (λ item. item.path) items) [] }

unfoldable pub all_checked : List FileItem → Selection → Bool
all_checked items s = ltb 0 (length items) && (length s.selected == length items)

unfoldable pub some_checked : List FileItem → Selection → Bool
some_checked items s = ltb 0 (length s.selected) && not (all_checked items s)

unfoldable pub selected_items : List FileItem → Selection → List FileItem
selected_items items s = keep_if (λ item. includes s.selected item.path) items

-- The effect on `[currentPath]`.
unfoldable pub directory_changed : Selection → Selection
directory_changed s = record { selected = []; last_clicked = none }

-- `setSelected(new Set())`, after a deletion or a compression, and in the bar.
unfoldable pub cleared : Selection → Selection
cleared s = record s { selected = [] }

-- What the page's effect does for a new address: it compares the path alone.
unfoldable pub navigated : Text → Text → Selection → Selection
navigated old_path new_path s = if text_eq old_path new_path then s else directory_changed s
