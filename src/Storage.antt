-- ===== src/Storage.antt =====
-- crates/tlapix-common/src/storage.rs and storage_schema.sql: the database. A table is the list of its
-- rows in the order of insertion, and each operation is what its SQL statement says; a statement that
-- fails changes nothing. Pragmas, indexes and the pool of threads are left out.
pub mod Rows
pub mod Sql
pub mod Database
pub mod Certificates
pub mod Directives
pub mod Shadows
pub mod Records
pub mod Retention
pub mod Integrity
pub mod Tests
