-- ===== src/Files/Tests.antt =====
-- Runs of the definitions for frontend/app/(dashboard)/files/page.tsx, and the theorems at concrete
-- inputs.
use ventopanel.Base.{
  ◌≡◌, refl, arith, true, false, some, none, List, [], ◌∷◌, Text, text, includes, if◌then◌else◌,
}
use ventopanel.Files.{FileItem, is_editable}
use ventopanel.Files.Paths.{crumb_parts, breadcrumbs, go_up, archive_path}
use ventopanel.Files.Dialogs.{Dialogs, compress_selected, confirm_compress, compress_done}
use ventopanel.Files.Selection.{
  add, add_all, delete, mark, mark_range, toggled, toggle_item, toggle_all, selected_items,
  navigated, directory_changed,
}
use ventopanel.Files.Toggles.{toggle_item-range}

page : Unit {0}
unfolding add add_all delete mark mark_range toggled toggle_item toggle_all selected_items navigated
    directory_changed
page = tt

crumbs_of_www :
    breadcrumbs (text "/var/www/") ≡ (text "var", text "/var") ∷ (text "www", text "/var/www") ∷ []
unfolding breadcrumbs crumb_parts
crumbs_of_www = refl

up_from_trailing_slash : go_up (text "/var/www/") ≡ some (text "/var")
unfolding go_up
up_from_trailing_slash = refl

archive_in_root : archive_path (text "/") (text "site") ≡ text "/site.zip"
unfolding archive_path
archive_in_root = refl

abbrev zip : FileItem
zip = record { name = text "a.zip"; path = text "/a.zip"; is_dir = false; ext = text ".zip" }

abbrev page_php : FileItem
page_php = record { name = text "b.php"; path = text "/b.php"; is_dir = false; ext = text ".php" }

abbrev notes : FileItem
notes = record { name = text "c.md"; path = text "/c.md"; is_dir = false; ext = text ".md" }

abbrev listing : List FileItem
listing = zip ∷ page_php ∷ notes ∷ []

edits : is_editable page_php ≡ true
unfolding is_editable
edits = refl

edits_no_zip : is_editable zip ≡ false
unfolding is_editable
edits_no_zip = refl

-- Another server at the same path: what was ticked on the old one stays ticked.
server_change_keeps_ticks :
    navigated
      (text "/")
      (text "/")
      (record { selected = text "/a.zip" ∷ []; last_clicked = some 0 })
    ≡ record { selected = text "/a.zip" ∷ []; last_clicked = some 0 }
unfolding page
server_change_keeps_ticks = refl

toggle_item-range_example :
    (next : List Text) × (toggle_item true listing notes 2 true
        (record { selected = text "/b.php" ∷ []; last_clicked = some 1 })
      ≡ some (record { selected = next; last_clicked = some 2 }))
    × ((q : Text)
        → includes next q ≡ (
            if includes (text "/b.php" ∷ text "/c.md" ∷ []) q
            then true
            else includes (text "/b.php" ∷ []) q))
toggle_item-range_example =
    toggle_item-range listing notes 1 2 (text "/b.php" ∷ []) (omega arith) (omega arith)

abbrev nothing_open : Dialogs
nothing_open = record {
  rename_item = none;
  new_name = [];
  delete_items = [];
  new_dir_open = false;
  new_dir_name = [];
  compress_items = [];
  compress_name = [];
  selected = text "/a.zip" ∷ [];
  refetched = 0;
}

compresses_two :
    confirm_compress (text "/") (compress_selected (zip ∷ notes ∷ []) nothing_open)
    ≡ some (text "/a.zip" ∷ text "/c.md" ∷ [], text "/archive.zip")
unfolding compress_selected confirm_compress archive_path
compresses_two = refl

compressed_clears_ticks : (compress_done true nothing_open).selected ≡ []
unfolding compress_done
compressed_clears_ticks = refl
