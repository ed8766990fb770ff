-- ===== src/Api/Calls.antt =====
-- The exported functions of frontend/lib/api.ts that go through `apiFetch`, one definition each.
pub mod Servers
pub mod Sites
pub mod Account
pub mod Panel
pub mod Files
pub mod Nginx
