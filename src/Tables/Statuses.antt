-- ===== src/Tables/Statuses.antt =====
-- How the tables of servers and sites, and the pages of one server and one site, show a status.
use ventopanel.Base.{
  ◌||◌, if◌then◌else◌, List, [], ◌∷◌, Text, text, text_eq, to_lower, contains, includes,
}

pub data Variant : Type 0 where
  success destructive warning secondary : Variant

pub data Dot : Type 0 where
  active_dot deploying_dot error_dot idle_dot : Dot

-- A `switch` on the text: the statuses of each case.
abbrev pub switch : List Text → List Text → List Text → Text → Variant
switch good bad busy s =
    if includes good s
    then success
    else if includes bad s
    then destructive
    else if includes busy s
    then warning
    else secondary

abbrev pub good_servers : List Text
good_servers = text "connected" ∷ text "provisioned" ∷ text "ready_for_deploy" ∷ []

abbrev pub bad_servers : List Text
bad_servers = text "error" ∷ text "failed" ∷ text "connection_failed" ∷ text "provision_failed" ∷ []

abbrev pub busy_servers : List Text
busy_servers = text "pending" ∷ text "provisioning" ∷ []

-- `statusVariant` of the table of servers.
unfoldable pub server_variant : Text → Variant
server_variant status = switch good_servers bad_servers busy_servers (to_lower status)

-- `StatusDot` of the table of servers, for the status in small letters.
abbrev pub server_dot_of : Text → Dot
server_dot_of s =
    if text_eq (text "connected") s
      || text_eq (text "provisioned") s
      || text_eq (text "ready_for_deploy") s
    then active_dot
    else if text_eq (text "provisioning") s
        || text_eq (text "deploying") s
        || text_eq (text "pending") s
    then deploying_dot
    else if contains s (text "failed") || text_eq (text "error") s
    then error_dot
    else idle_dot

-- `StatusDot` of the table of servers.
unfoldable pub server_dot : Text → Dot
server_dot status = server_dot_of (to_lower status)

abbrev pub good_sites : List Text
good_sites = text "deployed" ∷ text "active" ∷ text "ssl_pending" ∷ []

abbrev pub bad_sites : List Text
bad_sites = text "error" ∷ text "failed" ∷ text "deploy_failed" ∷ []

abbrev pub busy_sites : List Text
busy_sites = text "deploying" ∷ text "pending" ∷ []

-- `statusVariant` of the table of sites.
unfoldable pub site_variant : Text → Variant
site_variant status = switch good_sites bad_sites busy_sites (to_lower status)

-- `StatusDot` of the table of sites, for the status in small letters.
abbrev pub site_dot_of : Text → Dot
site_dot_of s =
    if text_eq (text "deployed") s || text_eq (text "active") s || text_eq (text "ssl_pending") s
    then active_dot
    else if text_eq (text "deploying") s || text_eq (text "pending") s
    then deploying_dot
    else if contains s (text "failed") || text_eq (text "error") s
    then error_dot
    else idle_dot

-- `StatusDot` of the table of sites.
unfoldable pub site_dot : Text → Dot
site_dot status = site_dot_of (to_lower status)

-- `statusVariant` of the page of a server.
unfoldable pub server_page_variant : Text → Variant
server_page_variant status =
    switch (text "connected" ∷ text "ready_for_deploy" ∷ [])
      (text "connection_failed" ∷ text "provision_failed" ∷ []) [] (to_lower status)

-- `statusBadgeVariant` of the page of a site.
unfoldable pub site_page_variant : Text → Variant
site_page_variant status =
    switch (text "deployed" ∷ text "ssl_active" ∷ [])
      (text "deploy_failed" ∷ text "ssl_failed" ∷ []) (text "deploying" ∷ text "ssl_pending" ∷ [])
      (to_lower status)
