-- ===== src/Admin.antt =====
-- internal/mail/admin.go and import.go: the administration actions of the console and the CLI.
pub mod Members
pub mod Roles
pub mod Import
pub mod Csv
