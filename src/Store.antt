-- ===== src/Store.antt =====
-- The database under the repositories: SQL statements over lists of rows (Store/Sql.antt), the rows
-- of internal/infra/db/gormrepo/models.go and models2.go (Store/Rows.antt), and statements that may
-- fail, with transactions that roll back (internal/infra/db/rwdb/rwdb.go, Store/World.antt).
pub mod Sql
pub mod Sorted
pub mod Rows
pub mod World
pub mod Laws
pub mod Steady
