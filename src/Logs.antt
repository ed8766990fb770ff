-- ===== src/Logs.antt =====
-- frontend/app/(dashboard)/logs/page.tsx: the log viewer. `Ansi` cleans a line, `Buffer` keeps the last
-- lines, `Address` has the addresses, and `Stream` is the connection with its retries.
pub mod Ansi
pub mod Buffer
pub mod Address
pub mod Stream
pub mod Retries
pub mod Controls
mod Tests
