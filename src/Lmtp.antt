-- ===== src/Lmtp.antt =====
-- internal/mail/lmtp.go and commands.go: routing a message to its handler.
pub mod Commands
pub mod Request
pub mod Handlers
pub mod Connection
