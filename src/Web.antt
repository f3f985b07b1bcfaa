-- ===== src/Web.antt =====
-- internal/web: the token gate, the themes, and the routes with their handlers.
pub mod Auth
pub mod Theme
pub mod Answers
pub mod Page
pub mod Routes
pub mod Config
pub mod Serve
