-- ===== src/Monitor.antt =====
-- frontend/app/(dashboard)/monitor/page.tsx: the metrics of the server that is chosen, as they come.
pub mod Address
pub mod Points
pub mod Stream
pub mod Kept
pub mod Bounds
pub mod Selected
mod Tests
