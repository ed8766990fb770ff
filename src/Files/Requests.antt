-- ===== src/Files/Requests.antt =====
-- Where the dialogs of Files/Dialogs.antt put what they make.
use ventopanel.Base.{
  ◌≡◌, refl, ap, ap₂, ◌∙◌, none, some, List, [], ◌∷◌, ◌++◌, append_assoc, Text, text, truthy, trim,
  All, if◌then◌else◌,
}
use ventopanel.Files.{FileItem}
use ventopanel.Files.Paths.{child_path, archive_path, strip_last}
use ventopanel.Files.Addresses.{IsName, absolute, child_path-absolute}
use ventopanel.Files.Dialogs.{
  Dialogs, paths_of, confirm_new_dir, compress_selected, confirm_compress,
}

archive_path-child_path :
    (path name : Text) → archive_path path name ≡ child_path path (name ++ text ".zip")
unfolding archive_path child_path
archive_path-child_path path name = append_assoc (strip_last path) (b'/' ∷ name) (text ".zip")

compress_selected-items :
    (items : List FileItem) (d : Dialogs) → (compress_selected items d).compress_items ≡ items
unfolding compress_selected
compress_selected-items [] d = refl
compress_selected-items (item ∷ []) d = refl
compress_selected-items (item ∷ next ∷ items) d = refl

-- In a folder whose names are not empty and hold no slash, the dialog for a new folder asks for
-- the folder with the trimmed name in it, and the compress dialog, opened for some items, asks
-- to put exactly these items into the archive with its trimmed name and `.zip` in it; either
-- asks for nothing if its name is blank.
confirm-absolute :
    (ps : List Text) (items : List FileItem) (name : Text) (d : Dialogs)
    → All IsName ps
    → let named = record (compress_selected items d) {
      compress_name = name;
      new_dir_name = name;
    } in
      (confirm_new_dir (absolute ps) named
        ≡ (if truthy (trim name) then some (absolute (ps ++ trim name ∷ [])) else none))
      × (confirm_compress (absolute ps) named ≡ (
          if truthy (trim name)
          then some (paths_of items, absolute (ps ++ (trim name ++ text ".zip") ∷ []))
          else none))
unfolding confirm_new_dir confirm_compress
confirm-absolute ps items name d h = (
  ap (λ path. if truthy (trim name) then some path else none)
      (child_path-absolute ps (trim name) h),
  ap₂ (λ paths path. if truthy (trim name) then some (paths, path) else none)
      (ap paths_of (compress_selected-items items d))
      (archive_path-child_path (absolute ps) (trim name)
        ∙ child_path-absolute ps (trim name ++ text ".zip") h),
)
