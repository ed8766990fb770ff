-- ===== src/Files/Dialogs.antt =====
-- The dialogs of frontend/app/(dashboard)/files/page.tsx: what each asks of the client, and what happens after
-- the reply. `refetched` counts the invalidations of the listing.
use ventopanel.Base.{
  ℕ, suc, if◌then◌else◌, Bool, true, false, Option, none, some, List, [], ◌∷◌, Text, text, truthy,
  trim, map,
}
use ventopanel.Files.{FileItem}
use ventopanel.Files.Paths.{child_path, archive_path, rename_path}

pub record Dialogs : Type 0 where
  pub rename_item : Option FileItem
  pub new_name : Text
  pub delete_items : List FileItem
  pub new_dir_open : Bool
  pub new_dir_name : Text
  pub compress_items : List FileItem
  pub compress_name : Text
  pub selected : List Text
  pub refetched : ℕ

abbrev pub paths_of : List FileItem → List Text
paths_of items = map (λ item. item.path) items

-- `deleteMutation`, after its reply.
unfoldable pub delete_done : Bool → Dialogs → Dialogs
delete_done true d = record d { refetched = suc d.refetched; delete_items = []; selected = [] }
delete_done false d = record d { delete_items = [] }

-- What the rename dialog sends: the old path and the new one.
unfoldable pub confirm_rename : Dialogs → Option (Text × Text)
confirm_rename d = elim d.rename_item [
  | none ↦ none
  | some item ↦
      if truthy (trim d.new_name)
      then some (item.path, rename_path item.path (trim d.new_name))
      else none
]

unfoldable pub rename_done : Bool → Dialogs → Dialogs
rename_done true d = record d { refetched = suc d.refetched; rename_item = none; new_name = [] }
rename_done false d = d

-- What the dialog for a new folder sends.
unfoldable pub confirm_new_dir : Text → Dialogs → Option Text
confirm_new_dir current_path d =
    if truthy (trim d.new_dir_name)
    then some (child_path current_path (trim d.new_dir_name))
    else none

unfoldable pub mkdir_done : Bool → Dialogs → Dialogs
mkdir_done true d = record d {
  refetched = suc d.refetched;
  new_dir_open = false;
  new_dir_name = [];
}
mkdir_done false d = d

-- The compress button of the bar.
unfoldable pub compress_selected : List FileItem → Dialogs → Dialogs
compress_selected [] d = record d { compress_items = []; compress_name = text "archive" }
compress_selected (item ∷ []) d = record d { compress_items = item ∷ []; compress_name = item.name }
compress_selected (item ∷ next ∷ items) d = record d {
  compress_items = item ∷ next ∷ items;
  compress_name = text "archive";
}

-- What the compress dialog sends: the paths and the archive.
unfoldable pub confirm_compress : Text → Dialogs → Option (List Text × Text)
confirm_compress current_path d =
    if truthy (trim d.compress_name)
    then some (paths_of d.compress_items, archive_path current_path (trim d.compress_name))
    else none

unfoldable pub compress_done : Bool → Dialogs → Dialogs
compress_done true d = record d {
  refetched = suc d.refetched;
  compress_items = [];
  compress_name = [];
  selected = [];
}
compress_done false d = d

unfoldable pub extract_done : Bool → Dialogs → Dialogs
extract_done true d = record d { refetched = suc d.refetched }
extract_done false d = d
