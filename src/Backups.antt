-- ===== src/Backups.antt =====
-- frontend/app/(dashboard)/backups/page.tsx: the backups, their downloads and their schedule.
pub mod Page
pub mod Downloads
mod Tests
