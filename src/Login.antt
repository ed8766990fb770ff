-- ===== src/Login.antt =====
-- frontend/app/login/page.tsx: the login page. `Page` has its handlers, `Sessions` when they store a
-- token.
pub mod Page
pub mod Sessions
pub mod Landing
mod Tests
