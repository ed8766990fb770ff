-- ===== src/Users.antt =====
-- frontend/app/(dashboard)/users/page.tsx: the members of the team.
pub mod Page
pub mod Invariant
pub mod Visitors
mod Tests
