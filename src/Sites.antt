-- ===== src/Sites.antt =====
-- frontend/app/(dashboard)/sites/[id]/page.tsx: the page of a site. `LogStream` reads the log of its
-- container.
pub mod LogStream
pub mod Chunks
pub mod Kept
pub mod Live
pub mod Current
pub mod Settings
pub mod Guide
pub mod Requests
pub mod Visible
pub mod KeySets
pub mod Rollbacks
pub mod Actions
mod Tests
