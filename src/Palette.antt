-- ===== src/Palette.antt =====
-- frontend/components/command-palette.tsx: the palette that opens pages, servers and sites.
pub mod Keys
pub mod Groups
pub mod Results
mod Tests
use ventopanel.Base.{
  contains, trim, to_lower, ℕ, zero, suc, ◌-◌, min, if◌then◌else◌, not, ◌&&◌, ◌||◌, Bool, true,
  false, Option, none, some, List, [], ◌∷◌, ◌++◌, Text, text, text_eq, truthy, take, keep_if, map,
  length, get_elem?,
}

pub record Item : Type 0 where
  pub id : Text
  pub label : Text
  pub sub : Option Text
  pub href : Text
  pub group : Text

abbrev pub page_item : Text → Text → Text → Item
page_item id label href = record {
  id = id;
  label = label;
  sub = none;
  href = href;
  group = text "Pages";
}

abbrev pub pages : List Item
pages =
    page_item (text "dashboard") (text "Dashboard") (text "/")
    ∷ page_item (text "servers") (text "Servers") (text "/servers")
    ∷ page_item (text "sites") (text "Sites") (text "/sites")
    ∷ page_item (text "files") (text "File Manager") (text "/files")
    ∷ page_item (text "terminal") (text "Web Terminal") (text "/terminal")
    ∷ page_item (text "monitor") (text "Resource Monitor") (text "/monitor")
    ∷ page_item (text "logs") (text "Log Viewer") (text "/logs")
    ∷ page_item (text "nginx") (text "Nginx Manager") (text "/nginx")
    ∷ page_item (text "uptime") (text "Uptime") (text "/uptime")
    ∷ page_item (text "observability") (text "Observability") (text "/observability")
    ∷ page_item (text "templates") (text "Templates") (text "/templates")
    ∷ page_item (text "backups") (text "Backups") (text "/backups")
    ∷ page_item (text "audit") (text "Audit Log") (text "/audit")
    ∷ page_item (text "users") (text "Team") (text "/users")
    ∷ page_item (text "security") (text "Security") (text "/security")
    ∷ page_item (text "settings") (text "Settings") (text "/settings")
    ∷ []

unfoldable pub matches : Text → Text → Bool
matches s query = if truthy query then contains (to_lower s) (to_lower query) else true

-- What the palette reads of a server and of a site.
pub record Named : Type 0 where
  pub id : Text
  pub name : Text
  pub detail : Text

abbrev pub server_item : Named → Item
server_item s = record {
  id = text "server-" ++ s.id;
  label = s.name;
  sub = some s.detail;
  href = text "/servers/" ++ s.id;
  group = text "Servers";
}

abbrev pub site_item : Named → Item
site_item s = record {
  id = text "site-" ++ s.id;
  label = s.name;
  sub = some s.detail;
  href = text "/sites/" ++ s.id;
  group = text "Sites";
}

unfoldable pub all_items : List Named → List Named → List Item
all_items servers sites = pages ++ map server_item servers ++ map site_item sites

abbrev pub searched : Item → Text
searched item = item.label ++ text " " ++ (elim item.sub [ none ↦ [] | some sub ↦ sub ])

-- The filtered items. An item's `sub ?? ""` follows its label.
unfoldable pub filtered : List Item → Text → List Item
filtered items query =
    if truthy (trim query)
    then keep_if (λ item. matches (searched item) query) items
    else take 12 items

-- The state of the palette; `active` is none where the source has -1.
pub record Palette : Type 0 where
  pub shown : Bool
  pub query : Text
  pub active : Option ℕ
  pub location : Option Text

-- The effect that follows an opening.
unfoldable pub opened : Palette → Palette
opened p = record p { shown = true; query = []; active = some 0 }

-- `min(v + 1, length - 1)`
abbrev pub next_active : ℕ → Option ℕ → Option ℕ
next_active zero v = none
next_active (suc last) none = some 0
next_active (suc last) (some v) = some (min (suc v) last)

-- `max(v - 1, 0)`
abbrev pub previous_active : Option ℕ → Option ℕ
previous_active none = some 0
previous_active (some v) = some (v - 1)

abbrev pub item_at : List Item → Option ℕ → Option Item
item_at items none = none
item_at items (some i) = get_elem? items i

pub data Key : Type 0 where
  escape arrow_down arrow_up enter : Key

-- `onKeyDown`, on the items that are shown.
unfoldable pub on_key_down : List Item → Key → Palette → Palette
on_key_down items escape p = record p { shown = false }
on_key_down items arrow_down p = record p { active = next_active (length items) p.active }
on_key_down items arrow_up p = record p { active = previous_active p.active }
on_key_down items enter p = elim (item_at items p.active) [
  | none ↦ p
  | some item ↦ record p { shown = false; location = some item.href }
]

unfoldable pub type_query : Text → Palette → Palette
type_query query p = record p { query = query; active = some 0 }

-- The button that empties the query.
unfoldable pub clear_query : Palette → Palette
clear_query p = record p { query = [] }

-- `map.set(item.group, …)` after the item was pushed to its group, in the order of first insertion.
unfoldable pub push_item : Item → List (Text × List Item) → List (Text × List Item)
push_item item [] = (item.group, item ∷ []) ∷ []
push_item item (entry ∷ groups) =
    let rest = push_item item groups in
    if text_eq entry.0 item.group then (entry.0, entry.1 ++ item ∷ []) ∷ groups else entry ∷ rest

unfoldable pub group_into : List (Text × List Item) → List Item → List (Text × List Item)
group_into groups [] = groups
group_into groups (item ∷ items) = group_into (push_item item groups) items

-- The buttons in the order in which the palette shows and numbers them.
abbrev pub shown_items : List (Text × List Item) → List Item
shown_items [] = []
shown_items (entry ∷ groups) = entry.1 ++ shown_items groups
