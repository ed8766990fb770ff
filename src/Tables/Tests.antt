-- ===== src/Tables/Tests.antt =====
-- The badges and dots of concrete statuses, and the theorem about them at one.
use ventopanel.Base.{◌≡◌, refl, text}
use ventopanel.Tables.Statuses.{
  success, secondary, error_dot, server_variant, site_variant, site_dot, server_page_variant,
  site_page_variant,
}

-- The page of a server knows fewer statuses than the table.
provisioned_is_grey_on_its_page :
    (server_variant (text "provisioned") ≡ success)
    × (server_page_variant (text "provisioned") ≡ secondary)
unfolding server_variant server_page_variant
provisioned_is_grey_on_its_page = (refl, refl)

active_is_grey_on_its_page :
    (site_variant (text "active") ≡ success) × (site_page_variant (text "active") ≡ secondary)
unfolding site_variant site_page_variant
active_is_grey_on_its_page = (refl, refl)

-- A grey badge beside a red dot.
ssl_failed_is_red :
    (site_variant (text "ssl_failed") ≡ secondary) × (site_dot (text "ssl_failed") ≡ error_dot)
unfolding site_variant site_dot
ssl_failed_is_red = (refl, refl)
