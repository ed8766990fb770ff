-- ===== src/Files.antt =====
-- frontend/app/(dashboard)/files/page.tsx: the file manager. `Paths` has the addresses that the page
-- computes, `Selection` the set of ticked items.
pub mod Paths
pub mod Location
pub mod Dialogs
pub mod Requests
pub mod Addresses
pub mod Selection
pub mod Toggles
pub mod Uploads
pub mod Targets
mod Tests
use ventopanel.Base.{Bool, not, ◌&&◌, ◌||◌, List, [], ◌∷◌, Text, text, includes}

-- `FileItem` of frontend/lib/api.ts. The size and the time are only shown.
pub record FileItem : Type 0 where
  pub name : Text
  pub path : Text
  pub is_dir : Bool
  pub ext : Text

abbrev pub text_exts : List Text
text_exts =
    text ".txt"
    ∷ text ".md"
    ∷ text ".log"
    ∷ text ".csv"
    ∷ text ".json"
    ∷ text ".xml"
    ∷ text ".yaml"
    ∷ text ".yml"
    ∷ text ".toml"
    ∷ text ".ini"
    ∷ text ".env"
    ∷ []

abbrev pub code_exts : List Text
code_exts =
    text ".js"
    ∷ text ".ts"
    ∷ text ".tsx"
    ∷ text ".jsx"
    ∷ text ".go"
    ∷ text ".py"
    ∷ text ".php"
    ∷ text ".rb"
    ∷ text ".rs"
    ∷ text ".sh"
    ∷ text ".bash"
    ∷ text ".css"
    ∷ text ".html"
    ∷ text ".htm"
    ∷ text ".sql"
    ∷ []

unfoldable pub is_editable : FileItem → Bool
is_editable item = not item.is_dir && (includes text_exts item.ext || includes code_exts item.ext)
