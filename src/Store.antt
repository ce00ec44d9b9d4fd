-- ===== src/Store.antt =====
-- internal/store/postgres: the tables (migrations/), and the queries of the repositories as
-- functions on them.
pub mod Tables
pub mod Rows
pub mod Inserted
pub mod Schemas
pub mod Namespaces
pub mod Notifications
pub mod Integrity
pub mod Create
