-- ===== src/Audit/Paging.antt =====
-- frontend/hooks/use-audit.ts: the pages that the hook loads. The server is a parameter, a function from
-- the parameters of `fetchAuditEvents` to the page that it sends, or none where the call fails.
use ventopanel.Base.{
  ℕ, zero, suc, ◌+◌, ◌≤◌, ◌<◌, ◌≡◌, leb, if◌then◌else◌, true, Option, none, some, List, [], ◌∷◌,
  ◌++◌, Text, truthy, length, take, drop,
}
use ventopanel.Api.Session.{present}
use ventopanel.Api.Calls.Panel.{AuditParams}
use ventopanel.Audit.{AuditEvent}

pub record AuditPage : Type 0 where
  pub items : List AuditEvent
  pub next_cursor : Text

pub record Filters : Type 0 where
  pub resource_type : Option Text
  pub resource_id : Option Text

abbrev pub page_size : ℕ
page_size = 50

-- What the hook asks for, for a `pageParam`; `pageParam || undefined`.
unfoldable pub page_params : Filters → Text → AuditParams
page_params filters page_param = record {
  resource_type = filters.resource_type;
  resource_id = filters.resource_id;
  limit = some page_size;
  before = present (some page_param);
}

abbrev pub Fetch : Type 0
Fetch = AuditParams → Option AuditPage

-- What the hook has: the pages it has loaded, and the parameter of the next one, if there is one.
pub record Loaded : Type 0 where
  pub pages : List AuditPage
  pub next : Option Text

abbrev pub unloaded : Loaded
unloaded = record { pages = []; next = some [] }

-- `fetchNextPage`; `getNextPageParam` of the page is the parameter of the one after it.
unfoldable pub fetch_next_page : Filters → Fetch → Loaded → Loaded
fetch_next_page filters fetch l = elim l.next [
  | none ↦ l
  | some page_param ↦ elim (fetch (page_params filters page_param)) [
    | none ↦ l
    | some page ↦ record { pages = l.pages ++ page ∷ []; next = present (some page.next_cursor) }
  ]
]

-- `pages.flatMap(p => p.items)`
abbrev pub all_events : List AuditPage → List AuditEvent
all_events [] = []
all_events (page ∷ pages) = page.items ++ all_events pages

unfoldable pub fetch_pages : Filters → Fetch → ℕ → Loaded → Loaded
fetch_pages filters fetch zero l = l
fetch_pages filters fetch (suc n) l = fetch_pages filters fetch n (fetch_next_page filters fetch l)

-- At most `size` of these events from the `n`-th on; the page has a cursor when it is full.
abbrev pub page_at : ℕ → List AuditEvent → (ℕ → Text) → ℕ → AuditPage
page_at size events cursor n = record {
  items = take size (drop n events);
  next_cursor = if leb (n + size) (length events) then cursor (n + size) else [];
}

-- The cursor that stands for a place; there is none for the start.
abbrev pub cursor_at : (ℕ → Text) → ℕ → Option Text
cursor_at cursor zero = none
cursor_at cursor (suc n) = some (cursor (suc n))

-- What a client asks this server.
abbrev pub asked : Option Text → Option Text → ℕ → Option Text → AuditParams
asked type id size before = record {
  resource_type = type;
  resource_id = id;
  limit = some size;
  before = before;
}

-- A server that has these events of a resource: it sends as many as it is asked for, from the place of the cursor.
pub record Serves (type id : Option Text) (events : List AuditEvent) (cursor : ℕ → Text)
    (fetch : Fetch) : Type 0 where
  pub named : (n : ℕ) → 1 ≤ n → truthy (cursor n) ≡ true
  pub served :
      (size n : ℕ)
      → 1 ≤ size
      → fetch (asked type id size (cursor_at cursor n)) ≡ some (page_at size events cursor n)

-- The parameter of the page that begins at a place.
abbrev param_at : (ℕ → Text) → ℕ → Text
param_at cursor zero = []
param_at cursor (suc n) = cursor (suc n)

module _ (type id : Option Text) (events : List AuditEvent) (cursor : ℕ → Text)
    (fetch : Fetch) where
  filters : Filters
  filters = record { resource_type = type; resource_id = id }

  -- What the hook has after loading up to the `n`-th event.
  At : ℕ → Loaded → Type 0
  At n l =
      (all_events l.pages ≡ take n events)
      × (n ≤ length events → l.next ≡ some (param_at cursor n))
      × (length events < n → l.next ≡ none)
