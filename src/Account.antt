-- ===== src/Account.antt =====
-- The pages of the account and of the panel's settings: frontend/app/(dashboard)/profile/page.tsx and
-- frontend/app/(dashboard)/settings/page.tsx.
pub mod Profile
pub mod Settings
mod Tests
