-- ===== src/Terminal.antt =====
-- frontend/components/terminal-client.tsx: the terminal of a server over a web socket.
pub mod Socket
pub mod Sizes
pub mod Page
mod Tests
