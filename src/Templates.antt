-- ===== src/Templates.antt =====
-- frontend/app/(dashboard)/templates/page.tsx: the filter of the templates and the colours of their runtimes.
use ventopanel.Base.{
  ◌≡◌, refl, true, false, if◌then◌else◌, some, List, [], ◌∷◌, Text, text, text_eq, text_eq_iff,
  keep_if, lookup, All, All-map, All-keep_if, All-includes, includes,
}

-- `SiteTemplate` of frontend/lib/api.ts, as far as the page reads it.
pub record SiteTemplate : Type 0 where
  pub runtime : Text
  pub dockerfile : Text

abbrev runtime_color : List (Text × Text)
runtime_color =
    (text "node", text "bg-green-100 text-green-700 border-green-200")
    ∷ (text "python", text "bg-blue-100 text-blue-700 border-blue-200")
    ∷ (text "php", text "bg-purple-100 text-purple-700 border-purple-200")
    ∷ (text "go", text "bg-cyan-100 text-cyan-700 border-cyan-200")
    ∷ (text "static", text "bg-gray-100 text-gray-700 border-gray-200")
    ∷ []

abbrev runtime_border : List (Text × Text)
runtime_border =
    (text "node", text "border-l-green-400")
    ∷ (text "python", text "border-l-blue-400")
    ∷ (text "php", text "border-l-purple-400")
    ∷ (text "go", text "border-l-cyan-400")
    ∷ (text "static", text "border-l-gray-400")
    ∷ []

-- The runtimes of `FILTERS` after `all`.
abbrev filter_runtimes : List Text
filter_runtimes = text "node" ∷ text "python" ∷ text "php" ∷ text "go" ∷ text "static" ∷ []

abbrev filters : List Text
filters = text "all" ∷ filter_runtimes

-- `filtered`
unfoldable filtered : Text → List SiteTemplate → List SiteTemplate
filtered filter templates =
    if text_eq filter (text "all")
    then templates
    else keep_if (λ t. text_eq t.runtime filter) templates

abbrev IsColored : Text → Type 0
IsColored filter =
    ((c : Text) × lookup filter runtime_color ≡ some c)
    × ((c : Text) × lookup filter runtime_border ≡ some c)

-- Every filter of the page but `all` is a runtime that has its colours.
filters-IsColored : (s : Text) → includes filter_runtimes s ≡ true → IsColored s
unfolding lookup
filters-IsColored s h = All-includes IsColored filter_runtimes s h (
  ((_, refl), (_, refl)),
  (
    ((_, refl), (_, refl)),
    (((_, refl), (_, refl)), (((_, refl), (_, refl)), (((_, refl), (_, refl)), tt))),
  ),
)

-- With another filter than `all`, only templates of that runtime are shown.
filtered-runtime :
    (filter : Text) (templates : List SiteTemplate)
    → text_eq filter (text "all") ≡ false
    → All (λ t. t.runtime ≡ filter) (filtered filter templates)
unfolding filtered
filtered-runtime filter templates h = rw h (
    All-map (λ t. text_eq t.runtime filter ≡ true) (λ t. t.runtime ≡ filter)
      (keep_if (λ t. text_eq t.runtime filter) templates)
      (λ t k. (text_eq_iff t.runtime filter).0 k) (All-keep_if _ templates))
