-- ===== src/Sqlite.antt =====
-- storage/metadata/sqlite/store.go: the store over the tables of a SQLite database.
pub mod Database
pub mod Rows
pub mod Sessions
pub mod Definitions
pub mod Memory
