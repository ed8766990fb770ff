-- ===== src/Tables.antt =====
-- frontend/components/servers-table.tsx and frontend/components/sites-table.tsx: the badges and dots of the statuses.
pub mod Statuses
pub mod Agreement
pub mod Rows
pub mod Kinds
pub mod Sent
pub mod Visitors
mod Tests
