-- ===== src/Api.antt =====
-- frontend/lib/api.ts: the client of the panel's HTTP interface. `Session` is the browser's state,
-- `Fetch` is `apiFetch`, and the other children model the exported functions.
pub mod Uri
pub mod Session
pub mod Fetch
pub mod Calls
pub mod Routes
pub mod Raw
pub mod Addresses
mod Tests
