-- ===== src/Editor.antt =====
-- frontend/components/file-editor.tsx: the file editor. `Language` chooses the highlighting, `Buffer` is
-- what is loaded, edited and saved, and `Saving` compares it with the file on the server.
pub mod Language
pub mod Buffer
pub mod Saving
mod Tests
