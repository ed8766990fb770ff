-- ===== src/Nginx.antt =====
-- frontend/app/(dashboard)/nginx/page.tsx: the virtual hosts of a server, their files and certificates.
pub mod Editor
pub mod Page
pub mod Actions
pub mod Orders
mod Tests
