-- ===== src/Server.antt =====
-- internal/server: the HTTP handlers of the web interface.
pub mod Http
pub mod Limiter
pub mod Access
pub mod Login
pub mod Self
pub mod Archives
pub mod Public
pub mod Audit
pub mod Console
pub mod Admin
