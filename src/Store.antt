-- ===== src/Store.antt =====
-- internal/store/sqlite/sqlite.go: each method of the store is an action of one or two statements.
pub mod Access
pub mod Lists
pub mod Members
pub mod Directory
pub mod Roles
pub mod Held
pub mod Queue
pub mod Archive
pub mod Auth
pub mod Audit
