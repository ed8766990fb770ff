-- ===== src/Editor/Language.antt =====
-- `detectLanguage` of frontend/components/file-editor.tsx.
use ventopanel.Base.{
  ◌==◌, ◌||◌, if◌then◌else◌, Option, none, some, List, [], ◌∷◌, Text, text, text_eq, split_on, take,
  lookup, to_lower,
}

-- The table of the extensions.
abbrev pub ext_to_lang : List (Text × Text)
ext_to_lang =
    (text ".go", text "go")
    ∷ (text ".js", text "javascript")
    ∷ (text ".mjs", text "javascript")
    ∷ (text ".cjs", text "javascript")
    ∷ (text ".ts", text "typescript")
    ∷ (text ".tsx", text "typescript")
    ∷ (text ".jsx", text "javascript")
    ∷ (text ".py", text "python")
    ∷ (text ".html", text "html")
    ∷ (text ".htm", text "html")
    ∷ (text ".css", text "css")
    ∷ (text ".scss", text "scss")
    ∷ (text ".less", text "less")
    ∷ (text ".json", text "json")
    ∷ (text ".yaml", text "yaml")
    ∷ (text ".yml", text "yaml")
    ∷ (text ".toml", text "ini")
    ∷ (text ".ini", text "ini")
    ∷ (text ".sh", text "shell")
    ∷ (text ".bash", text "shell")
    ∷ (text ".zsh", text "shell")
    ∷ (text ".env", text "shell")
    ∷ (text ".sql", text "sql")
    ∷ (text ".xml", text "xml")
    ∷ (text ".md", text "markdown")
    ∷ (text ".mdx", text "markdown")
    ∷ (text ".rs", text "rust")
    ∷ (text ".php", text "php")
    ∷ (text ".rb", text "ruby")
    ∷ (text ".java", text "java")
    ∷ (text ".c", text "c")
    ∷ (text ".cpp", text "cpp")
    ∷ (text ".h", text "cpp")
    ∷ (text ".cs", text "csharp")
    ∷ (text ".kt", text "kotlin")
    ∷ (text ".swift", text "swift")
    ∷ (text ".tf", text "hcl")
    ∷ (text ".hcl", text "hcl")
    ∷ (text ".lua", text "lua")
    ∷ (text ".r", text "r")
    ∷ (text ".dockerfile", text "dockerfile")
    ∷ []

-- `parts.pop() ?? ""`
abbrev pub last_of_path : List Text → Text
last_of_path [] = []
last_of_path (p ∷ []) = p
last_of_path (p ∷ q ∷ ps) = last_of_path (q ∷ ps)

-- The text from its last dot on, if it has one.
abbrev pub from_last_dot : Text → Option Text
from_last_dot [] = none
from_last_dot (c ∷ s) = elim (from_last_dot s) [
  | some ext ↦ some ext
  | none ↦ if c == b'.' then some (c ∷ s) else none
]

abbrev pub plaintext : Text
plaintext = text "plaintext"

-- `EXT_TO_LANG[ext] ?? "plaintext"`
unfoldable pub lang_of_ext : Text → Text
lang_of_ext ext = elim (lookup ext ext_to_lang) [ some lang ↦ lang | none ↦ plaintext ]

unfoldable pub detect_language : Text → Text
unfolding lang_of_ext
detect_language path =
    let base = last_of_path (split_on b'/' (to_lower path)) in
    if text_eq base (text "dockerfile")
    then text "dockerfile"
    else if text_eq base (text "makefile")
    then text "makefile"
    else if text_eq base (text ".gitignore")
    then text "shell"
    else if text_eq base (text ".env") || text_eq (take 5 base) (text ".env.")
    then text "shell"
    else elim (from_last_dot base) [ none ↦ plaintext | some ext ↦ lang_of_ext ext ]
