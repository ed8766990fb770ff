-- ===== src/Files/Paths.antt =====
-- The paths that frontend/app/(dashboard)/files/page.tsx computes. A call of `replace` with a regular
-- expression is a recursion that cuts at the first match.
use ventopanel.Base.{
  ℕ, suc, ◌==◌, if◌then◌else◌, Bool, true, false, ◌&&◌, Option, none, some, List, [], ◌∷◌, ◌++◌,
  Text, text, text_eq, truthy, split_on, take, keep_if,
}

-- `s || "/"`
abbrev pub or_root : Text → Text
or_root s = if truthy s then s else text "/"

-- `path.replace(/^\//, "")`
abbrev pub strip_first : Text → Text
strip_first [] = []
strip_first (c ∷ s) = if c == b'/' then s else c ∷ s

-- `path.replace(/\/$/, "")`
abbrev pub strip_last : Text → Text
strip_last [] = []
strip_last (c ∷ s) = if (c == b'/') && text_eq s [] then [] else c ∷ strip_last s

-- `parts.join("/")`
abbrev pub join : List Text → Text
join [] = []
join (p ∷ []) = p
join (p ∷ q ∷ ps) = p ++ b'/' ∷ join (q ∷ ps)

unfoldable pub crumb_parts : Text → List Text
crumb_parts path = keep_if truthy (split_on b'/' (strip_first path))

-- The `i`-th part with the path of its button.
abbrev pub crumb : List Text → ℕ → Text → Text × Text
crumb parts i part = (part, text "/" ++ join (take (suc i) parts))

-- The buttons from the `i`-th on: the name each shows and the path it leads to.
abbrev pub crumbs_from : ℕ → List Text → List Text → List (Text × Text)
crumbs_from i parts [] = []
crumbs_from i parts (part ∷ rest) = crumb parts i part ∷ crumbs_from (suc i) parts rest

-- `Breadcrumbs`, less the button of the root.
unfoldable pub breadcrumbs : Text → List (Text × Text)
breadcrumbs path = crumbs_from 0 (crumb_parts path) (crumb_parts path)

-- `[^/]+\/?$` at this place, where `seen` says that the name has begun.
abbrev pub last_name : Bool → Text → Bool
last_name seen [] = seen
last_name seen (c ∷ s) = if c == b'/' then seen && text_eq s [] else last_name true s

-- `path.replace(/\/[^/]+\/?$/, "")`
abbrev pub drop_last_name : Text → Text
drop_last_name [] = []
drop_last_name (c ∷ s) = if (c == b'/') && last_name false s then [] else c ∷ drop_last_name s

-- Where `goUp` navigates to, if it does.
unfoldable pub go_up : Text → Option Text
go_up path = if text_eq path (text "/") then none else some (or_root (drop_last_name path))

-- The path that a new folder gets.
unfoldable pub child_path : Text → Text → Text
child_path path name = strip_last path ++ b'/' ∷ name

unfoldable pub archive_path : Text → Text → Text
archive_path path name = strip_last path ++ b'/' ∷ name ++ text ".zip"

-- `path.substring(0, path.lastIndexOf("/"))`, none when there is no slash
abbrev pub before_last : Text → Option Text
before_last [] = none
before_last (c ∷ s) = elim (before_last s) [
  | some dir ↦ some (c ∷ dir)
  | none ↦ if c == b'/' then some [] else none
]

-- The new path of the rename dialog.
unfoldable pub rename_path : Text → Text → Text
rename_path path name =
    (elim (before_last path) [ some dir ↦ or_root dir | none ↦ text "/" ]) ++ b'/' ∷ name
