-- ===== src/Access/Layout.antt =====
-- frontend/app/(dashboard)/layout.tsx: the check of the session that every page of the dashboard begins with.
use ventopanel.Base.{ℕ, if◌then◌else◌, Option, Text, text}
use ventopanel.Api.Session.{Browser, TokenPayload, is_token_valid}

-- The effect of `DashboardLayout`, at the time `now`.
unfoldable pub check_session : (Text → Option TokenPayload) → ℕ → Browser → Browser
check_session decode now b =
    if is_token_valid decode now b then b else record b { location = text "/login" }
