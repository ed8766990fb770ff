-- ===== src/Forms.antt =====
-- frontend/components/server-form.tsx and frontend/components/site-form.tsx: the dialogs that create and edit servers and
-- sites.
pub mod Typing
pub mod ServerForm
pub mod SiteForm
mod Tests
