-- ===== src/Handlers.antt =====
-- What holds of every handler: one proof for each handler, for any relation that the store's methods
-- keep, and its uses.
pub mod Rules
pub mod Posts
pub mod Requests
pub mod Inbound
pub mod Frames
pub mod AuditTrail
pub mod Authority
pub mod Uniqueness
