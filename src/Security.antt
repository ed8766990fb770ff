-- ===== src/Security.antt =====
-- frontend/app/(dashboard)/security/page.tsx: the second factor and the API tokens of an account.
pub mod TwoFactor
pub mod Codes
pub mod Replies
pub mod Tokens
mod Tests
