-- ===== src/Db.antt =====
-- src/db/driver.rs and src/db/query_builder.rs: queries and the SQL that is built from them.
pub mod Identifier
pub mod Order
pub mod Query
mod Tests
